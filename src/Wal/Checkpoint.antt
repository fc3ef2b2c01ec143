-- ===== src/Wal/Checkpoint.antt =====
-- A checkpoint: its record is put behind the log, everything is flushed, and the file is cut.
use onion_relay.Prelude.{
  ℕ, ◌+◌, ◌%◌, ◌^◌, ◌≤◌, ◌<◌, ◌≡◌, ◌⊎◌, inl, inr, refl, Bool, true, false, not, List, [], ◌∷◌, ◌++◌,
  ltb, if◌then◌else◌, length, arith, ap, ◌∙◌, sym, Bool-cases, subst,
}
use mathlib.Core.List.{append_assoc, append-nil}
use onion_relay.DbTypes.{DbError, is_ok}
use onion_relay.WalRecord.{header_bytes, record_checkpoint}
use onion_relay.Wal.{WalManager, Io, wal_flush, wal_checkpoint}
use onion_relay.Wal.Records.{Written, encode}
use onion_relay.Wal.Log.{IsLog}
use onion_relay.Wal.Flush.{IsKept-refl, FlushResult, done_flush, failed_flush, flush_lem}
use onion_relay.Wal.Append.{push-IsLog}
use onion_relay.Wal.Write.{IsHeld, IsSpace}
use onion_relay.Wal.Durable.{rising_bound}

-- the record of a checkpoint
abbrev pub checkpoint_of : WalManager → Written
checkpoint_of w = record {
  header = record {
    lsn = w.next_lsn;
    prev_lsn = 0;
    tx_id = 0;
    type = record_checkpoint;
    data_length = 0;
  };
  payload = [];
}

-- the first step of a checkpoint
abbrev first_step : (ℕ → Io) → WalManager → DbError × WalManager
first_step io w =
    if ltb w.buffer_size (length w.buffer + 32) then wal_flush io w else (DbError.ok, w)

-- the checkpoint's record in the buffer
abbrev marked : WalManager → WalManager
marked w = record w {
  next_lsn = (w.next_lsn + 1) % 2 ^ 64;
  buffer = w.buffer ++ header_bytes (checkpoint_of w).header;
}

-- the cut file
abbrev emptied : WalManager → WalManager
emptied w = record w { file = []; file_offset = 0 }

space_lem :
    (w : WalManager) (flushed pending : List Written) (result : DbError × WalManager)
    → FlushResult w flushed pending result
    → IsSpace w (flushed ++ pending) 32 result
space_lem w flushed pending _ (done_flush {w'} kept empty v) = record {
  held = record {
    flushed = flushed ++ pending;
    pending = [];
    whole = append-nil (flushed ++ pending);
    parts = v;
  };
  kept = kept;
  room = λ ok. omega (arith, ap length empty);
}
space_lem w flushed pending _ (failed_flush {err} {w'} bad kept same v) = record {
  held = record { flushed = flushed; pending = pending; whole = refl; parts = v };
  kept = kept;
  room = λ ok. ground (arith, bad, ok);
}

first_lem :
    (io : ℕ → Io) (w : WalManager) (log : List Written)
    → IsHeld w log
    → IsSpace w log 32 (first_step io w)
first_lem io w log h = elim (Bool-cases (ltb w.buffer_size (length w.buffer + 32))) [
  | inl long ↦ rw long (
      subst (λ rs. IsSpace w rs 32 (wal_flush io w)) h.whole
        (space_lem w h.flushed h.pending (wal_flush io w)
          (flush_lem io w h.flushed h.pending h.parts)))
  | inr short ↦
      rw short
        record { held = h; kept = IsKept-refl w; room = λ ok. ground (arith, short, h.parts.size) }
]

marked-IsHeld :
    (w : WalManager) (log : List Written)
    → IsHeld w log
    → w.next_lsn + 1 < 2 ^ 64
    → length w.buffer + 32 ≤ 65536
    → IsHeld (marked w) (log ++ (checkpoint_of w ∷ []))
marked-IsHeld w log h next room =
    let r = checkpoint_of w in
    record {
      flushed = h.flushed;
      pending = h.pending ++ (r ∷ []);
      whole = sym (append_assoc h.flushed h.pending (r ∷ [])) ∙ ap (λ xs. xs ++ (r ∷ [])) h.whole;
      parts =
          push-IsLog w r (header_bytes r.header) h.flushed h.pending h.parts
            (sym (append-nil (header_bytes r.header)))
            record {
              lsn = h.parts.next;
              prev_lsn = omega arith;
              tx_id = omega arith;
              type = omega arith;
              data_length = refl;
              short = omega arith;
            }
            refl next (omega (arith, room));
    }

emptied-IsHeld :
    (w : WalManager) (log : List Written) → IsLog w log [] → w.buffer ≡ [] → IsHeld (emptied w) []
unfolding encode
emptied-IsHeld w log v e = record {
  flushed = [];
  pending = [];
  whole = refl;
  parts = record {
    at_disk = refl;
    offset = refl;
    in_buffer = e;
    tail = omega arith;
    written = tt;
    rising = rising_bound 1 (log ++ []) w.next_lsn v.rising;
    next = v.next;
    fits = v.fits;
    size = v.size;
    active = v.active;
    known = v.known;
  };
}

-- what the checkpoint does after its last flush
abbrev finish : Bool → DbError × WalManager → DbError × WalManager
finish truncates (err, w) =
    if not (is_ok err)
    then (err, w)
    else if truncates
    then (DbError.ok, emptied w)
    else (DbError.ok, w)

-- the log after a checkpoint: empty, or with the checkpoint's record, or as before if it failed
abbrev pub IsCheckpointed : List Written → List Written → DbError × WalManager → Type 0
IsCheckpointed log whole result =
    (result.0 ≡ DbError.ok) × (IsHeld result.1 [] × (result.1.file ≡ []) ⊎ IsHeld result.1 whole)
    ⊎ (is_ok result.0 ≡ false) × (IsHeld result.1 log ⊎ IsHeld result.1 whole)

finish_lem :
    (truncates : Bool) (w : WalManager) (flushed pending log : List Written)
    (result : DbError × WalManager)
    → FlushResult w flushed pending result
    → IsCheckpointed log (flushed ++ pending) (finish truncates result)
finish_lem true w flushed pending log _ (done_flush {w'} kept empty v) =
    inl (refl, inl (emptied-IsHeld w' (flushed ++ pending) v empty, refl))
finish_lem false w flushed pending log _ (done_flush {w'} kept empty v) = inl (
  refl,
  inr record {
    flushed = flushed ++ pending;
    pending = [];
    whole = append-nil (flushed ++ pending);
    parts = v;
  },
)
finish_lem truncates w flushed pending log _ (failed_flush {err} {w'} bad kept same v) =
    rw bad (inr (bad, inr record { flushed = flushed; pending = pending; whole = refl; parts = v }))

checkpoint_unflushed :
    (io : ℕ → Io) (err : DbError) (w : WalManager)
    → is_ok err ≡ false
    → wal_checkpoint io err w ≡ (err, w)
unfolding wal_checkpoint
checkpoint_unflushed io err w h = rw h refl

checkpoint_first :
    (io : ℕ → Io) (err : DbError) (w : WalManager)
    → is_ok err ≡ true
    → is_ok (first_step io w).0 ≡ false
    → wal_checkpoint io err w ≡ first_step io w
unfolding wal_checkpoint
checkpoint_first io err w h k = rw (h, k) refl

checkpoint_second :
    (io : ℕ → Io) (err : DbError) (w : WalManager)
    → is_ok err ≡ true
    → is_ok (first_step io w).0 ≡ true
    → let w₁ = (first_step io w).1 in
      wal_checkpoint io err w ≡ finish (io w₁.flushes).truncates (wal_flush io (marked w₁))
unfolding wal_checkpoint
checkpoint_second io err w h k = rw (h, k) refl

-- On a manager whose file and buffer hold a log of records with rising numbers, and with room for
-- another number, wal_checkpoint returns the error of buffer_pool_flush_all if there is one, and changes
-- nothing. Otherwise it either returns NOSTR_DB_OK, and the file is cut and nothing is pending, or the
-- log has the checkpoint's record at its end; or it returns an error, and the file and the buffer hold
-- the log, with or without that record.
pub checkpoint_lem :
    (io : ℕ → Io) (err : DbError) (w : WalManager) (log : List Written)
    → IsHeld w log
    → w.next_lsn + 1 < 2 ^ 64
    → ((is_ok err ≡ false) × (wal_checkpoint io err w ≡ (err, w)))
      ⊎ (is_ok err ≡ true)
        × IsCheckpointed log (log ++ (checkpoint_of w ∷ [])) (wal_checkpoint io err w)
checkpoint_lem io err w log h next = elim (Bool-cases (is_ok err)) [
  | inr bad ↦ inl (bad, checkpoint_unflushed io err w bad)
  | inl ok ↦ inr (ok, after ok)
]
  where
    after :
        is_ok err ≡ true
        → IsCheckpointed log (log ++ (checkpoint_of w ∷ [])) (wal_checkpoint io err w)
    after ok =
        let (err₁, w₁) = first_step io w in
        let space = first_lem io w log h in
        elim (Bool-cases (is_ok err₁)) [
          | inr bad ↦ rw (checkpoint_first io err w ok bad) (inr (bad, inl space.held))
          | inl ok₁ ↦
              let same : checkpoint_of w₁ ≡ checkpoint_of w = rw space.kept.next_lsn refl in
              let held : IsHeld (marked w₁) (log ++ (checkpoint_of w ∷ [])) =
                subst (λ r. IsHeld (marked w₁) (log ++ (r ∷ []))) same
                  (marked-IsHeld w₁ log space.held (omega (arith, next, space.kept.next_lsn))
                    (space.room ok₁)) in
              rw (checkpoint_second io err w ok ok₁) (
                subst
                  (λ rs.
                    IsCheckpointed log rs
                      (finish (io w₁.flushes).truncates (wal_flush io (marked w₁))))
                  held.whole
                  (finish_lem (io w₁.flushes).truncates (marked w₁) held.flushed held.pending log
                    (wal_flush io (marked w₁))
                    (flush_lem io (marked w₁) held.flushed held.pending held.parts)))
        ]
