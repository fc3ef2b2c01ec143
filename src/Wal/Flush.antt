-- ===== src/Wal/Flush.antt =====
-- A flush moves the pending records to the file, or keeps the log as it is.
use onion_relay.Prelude.{
  ℕ, ◌+◌, ◌≤◌, ◌≡◌, inl, inr, refl, true, false, ◌&&◌, List, [], ◌∷◌, ◌++◌, ◌==◌, length, take,
  drop, All, arith, length-append, length-take, length-drop, take_append, take-length, drop_all, ap,
  ap₂, ◌∙◌, sym, Bool-cases, subst,
}
use mathlib.Core.List.{append-nil}
use onion_relay.DbTypes.{DbError, is_ok}
use onion_relay.WalRecord.{log_records, max_lsn}
use onion_relay.Wal.{WalManager, Io, write_loop, overwrite, wal_flush}
use onion_relay.Wal.Records.{Written, IsWritten, encode, encode-append, length-encode}
use onion_relay.Wal.Log.{IsLog, IsHealthy, IsRising, write_loop-whole}

-- what a flush does not touch
pub record IsKept (w w' : WalManager) : Type 0 where
  pub is_open : w'.is_open ≡ w.is_open
  pub next_lsn : w'.next_lsn ≡ w.next_lsn
  pub next_tx_id : w'.next_tx_id ≡ w.next_tx_id
  pub active : w'.active ≡ w.active

overwrite_whole :
    (file : List ℕ) (offset : ℕ) (bytes front : List ℕ)
    → take offset file ≡ front
    → length file ≤ offset + length bytes
    → overwrite file offset bytes ≡ front ++ bytes
unfolding overwrite
overwrite_whole file offset bytes front e h =
    rw (e, drop_all (offset + length bytes) file h, append-nil bytes) refl

overwrite_front :
    (file : List ℕ) (bytes front : List ℕ)
    → take (length front) file ≡ front
    → take (length front) (overwrite file (length front) bytes) ≡ front
unfolding overwrite
overwrite_front file bytes front e =
    ap (λ xs. take (length front) (xs ++ (bytes ++ drop (length front + length bytes) file))) e
    ∙ take_append front (bytes ++ drop (length front + length bytes) file)

overwrite_length :
    (file : List ℕ) (offset : ℕ) (bytes : List ℕ) (n : ℕ)
    → length bytes ≤ n
    → length file ≤ offset + n
    → length (overwrite file offset bytes) ≤ offset + n
unfolding overwrite
overwrite_length file offset bytes n h k =
    let rest = drop (offset + length bytes) file in
    omega (
      arith,
      length-append (take offset file) (bytes ++ rest),
      length-append bytes rest,
      length-take offset file,
      length-drop (offset + length bytes) file,
    )

flush_empty :
    (io : ℕ → Io) (w : WalManager) → length w.buffer ≡ 0 → wal_flush io w ≡ (DbError.ok, w)
unfolding wal_flush
flush_empty io w e = rw e refl

abbrev pub failed : (ℕ → Io) → WalManager → WalManager
failed io w = record w {
  file =
      overwrite w.file w.file_offset
        (take (write_loop (io w.flushes).writes (length w.buffer) 0).1 w.buffer);
  flushes = w.flushes + 1;
}

flush_closed :
    (io : ℕ → Io) (w : WalManager)
    → (length w.buffer == 0) ≡ false
    → w.is_open ≡ false
    → wal_flush io w ≡ (DbError.file_open, w)
unfolding wal_flush
flush_closed io w e o = rw (e, o) refl

flush_failed :
    (io : ℕ → Io) (w : WalManager)
    → (length w.buffer == 0) ≡ false
    → w.is_open ≡ true
    → ((write_loop (io w.flushes).writes (length w.buffer) 0).0 && (io w.flushes).syncs) ≡ false
    → wal_flush io w ≡ (DbError.file_create, failed io w)
unfolding wal_flush
flush_failed io w e o f = rw (e, o, f) refl

abbrev pub done : WalManager → WalManager
done w = record w {
  file = overwrite w.file w.file_offset w.buffer;
  flushes = w.flushes + 1;
  file_offset = w.file_offset + length w.buffer;
  flushed_lsn = max_lsn w.flushed_lsn (log_records (length w.buffer) w.buffer);
  buffer = [];
}

flush_done :
    (io : ℕ → Io) (w : WalManager)
    → (length w.buffer == 0) ≡ false
    → w.is_open ≡ true
    → ((write_loop (io w.flushes).writes (length w.buffer) 0).0 && (io w.flushes).syncs) ≡ true
    → wal_flush io w ≡ (DbError.ok, done w)
unfolding wal_flush
flush_done io w e o f =
    let whole =
      write_loop-whole (io w.flushes).writes (length w.buffer) 0 (omega arith)
        (ground (arith, f)) in
    rw (e, o, f, whole, take-length w.buffer) refl

module _ {w : WalManager} {flushed pending : List Written} (v : IsLog w flushed pending) where
  done-IsLog : IsLog (done w) (flushed ++ pending) []
  done-IsLog =
      let file =
        overwrite_whole w.file w.file_offset w.buffer (encode flushed) v.at_disk v.tail
        ∙ ap (λ xs. encode flushed ++ xs) v.in_buffer
        ∙ sym (encode-append flushed pending) in
      let len : w.file_offset + length w.buffer ≡ length (encode (flushed ++ pending)) = omega (
        arith,
        v.offset,
        ap length v.in_buffer,
        length-append (encode flushed) (encode pending),
        ap length (encode-append flushed pending),
      ) in
      record {
        at_disk = ap₂ take len file ∙ take-length (encode (flushed ++ pending));
        offset = len;
        in_buffer = unfold encode in refl;
        tail = omega (arith, ap length file, len);
        written = subst (λ rs. All IsWritten rs) (sym (append-nil (flushed ++ pending))) v.written;
        rising =
            subst (λ rs. IsRising 1 rs w.next_lsn) (sym (append-nil (flushed ++ pending))) v.rising;
        next = v.next;
        fits = omega arith;
        size = v.size;
        active = v.active;
        known = v.known;
      }

  failed-IsLog : (io : ℕ → Io) → IsLog (failed io w) flushed pending
  failed-IsLog io =
      let n = (write_loop (io w.flushes).writes (length w.buffer) 0).1 in
      let bytes = take n w.buffer in
      let at : take (length (encode flushed)) w.file ≡ encode flushed =
        ap (λ m. take m w.file) (sym v.offset) ∙ v.at_disk in
      record {
        at_disk =
            ap (λ m. take m (overwrite w.file m bytes)) v.offset
            ∙ overwrite_front w.file bytes (encode flushed) at;
        offset = v.offset;
        in_buffer = v.in_buffer;
        tail =
            overwrite_length w.file w.file_offset bytes (length w.buffer)
              (omega (arith, length-take n w.buffer)) v.tail;
        written = v.written;
        rising = v.rising;
        next = v.next;
        fits = v.fits;
        size = v.size;
        active = v.active;
        known = v.known;
      }

  -- nothing is pending where the buffer is empty
  empty-IsLog : length w.buffer ≡ 0 → IsLog w (flushed ++ pending) []
  empty-IsLog e = go pending v
    where
      go : (rs : List Written) → IsLog w flushed rs → IsLog w (flushed ++ rs) []
      go [] u = subst (λ xs. IsLog w xs []) (sym (append-nil flushed)) u
      go (r ∷ rs) u = absurd (omega (arith, e, ap length u.in_buffer, length-encode (r ∷ rs)))

pub data FlushResult (w : WalManager) (flushed pending : List Written)
    : DbError × WalManager → Type 0 where
  done_flush :
      {w' : WalManager}
      → IsKept w w'
      → w'.buffer ≡ []
      → IsLog w' (flushed ++ pending) []
      → FlushResult w flushed pending (DbError.ok, w')
  failed_flush :
      {err : DbError} {w' : WalManager}
      → is_ok err ≡ false
      → IsKept w w'
      → w'.buffer ≡ w.buffer
      → IsLog w' flushed pending
      → FlushResult w flushed pending (err, w')

pub IsKept-refl : (w : WalManager) → IsKept w w
IsKept-refl w = record { is_open = refl; next_lsn = refl; next_tx_id = refl; active = refl }

pub flush_lem :
    (io : ℕ → Io) (w : WalManager) (flushed pending : List Written)
    → IsLog w flushed pending
    → FlushResult w flushed pending (wal_flush io w)
flush_lem io w flushed pending v = elim (Bool-cases (length w.buffer == 0)) [
  | inl empty ↦
      let e : length w.buffer ≡ 0 = ground (arith, empty) in
      rw (flush_empty io w e) (done_flush (IsKept-refl w) (is_nil w.buffer e) (empty-IsLog v e))
  | inr full ↦ elim (Bool-cases w.is_open) [
    | inr closed ↦ rw (flush_closed io w full closed) (failed_flush refl (IsKept-refl w) refl v)
    | inl open_file ↦
        let (finished, n) = write_loop (io w.flushes).writes (length w.buffer) 0 in
        elim (Bool-cases (finished && (io w.flushes).syncs)) [
          | inl ok ↦
              rw (flush_done io w full open_file ok) (done_flush (kept_done w) refl (done-IsLog v))
          | inr bad ↦
              rw (flush_failed io w full open_file bad)
                (failed_flush refl (kept_failed io w) refl (failed-IsLog v io))
        ]
  ]
]
  where
    is_nil : (xs : List ℕ) → length xs ≡ 0 → xs ≡ []
    is_nil [] h = refl
    is_nil (x ∷ xs) h = absurd (omega (arith, h))

    kept_done : (w : WalManager) → IsKept w (done w)
    kept_done w = record { is_open = refl; next_lsn = refl; next_tx_id = refl; active = refl }

    kept_failed : (io : ℕ → Io) (w : WalManager) → IsKept w (failed io w)
    kept_failed io w = record { is_open = refl; next_lsn = refl; next_tx_id = refl; active = refl }

pub flush_healthy :
    (io : ℕ → Io) (w : WalManager)
    → IsHealthy io
    → w.is_open ≡ true
    → length w.buffer ≤ 65536
    → is_ok (wal_flush io w).0 ≡ true
flush_healthy io w h o l = elim (Bool-cases (length w.buffer == 0)) [
  | inl empty ↦ ap (λ r. is_ok r.0) (flush_empty io w (ground (arith, empty)))
  | inr full ↦
      ap (λ r. is_ok r.0)
        (flush_done io w full o
          (ground (arith, h.writing w.flushes (length w.buffer) l, h.syncing w.flushes)))
]
