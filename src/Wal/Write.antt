-- ===== src/Wal/Write.antt =====
-- The functions of the log: each one that reports success puts its record at the end.
use onion_relay.Prelude.{
  ℕ, ◌+◌, ◌≤◌, ◌≡◌, ◌⊎◌, inl, inr, refl, true, false, not, List, [], ◌∷◌, ◌++◌, ltb, if◌then◌else◌,
  length, arith, ap, ap₂, ◌∙◌, sym, Bool-cases, subst,
}
use mathlib.Core.List.{append_assoc, append-nil}
use onion_relay.DbTypes.{DbError, is_ok}
use onion_relay.Wal.{
  WalManager, Io, set_active_lsn, new_header, push_record, ensure_buffer_space, write_record,
  wal_flush,
}
use onion_relay.Wal.Records.{Written}
use onion_relay.Wal.Log.{IsLog, IsHealthy}
use onion_relay.Wal.Flush.{
  IsKept, IsKept-refl, FlushResult, done_flush, failed_flush, flush_lem, flush_healthy,
}
use onion_relay.Wal.Append.{IsArgument, record_of, push_record-IsLog}

-- the file and the buffer together hold the log
pub record IsHeld (w : WalManager) (log : List Written) : Type 0 where
  pub flushed : List Written
  pub pending : List Written
  pub whole : flushed ++ pending ≡ log
  pub parts : IsLog w flushed pending

pub record IsSpace (w : WalManager) (log : List Written) (needed : ℕ)
    (result : DbError × WalManager) : Type 0 where
  pub held : IsHeld result.1 log
  pub kept : IsKept w result.1
  pub room : is_ok result.0 ≡ true → length result.1.buffer + needed ≤ 65536

-- what ensure_buffer_space does after a flush
abbrev settle : ℕ → DbError × WalManager → DbError × WalManager
settle needed (err, w) =
    if not (is_ok err)
    then (err, w)
    else if ltb w.buffer_size needed
    then (DbError.full, w)
    else (DbError.ok, w)

settle_lem :
    (w : WalManager) (flushed pending : List Written) (needed : ℕ) (result : DbError × WalManager)
    → FlushResult w flushed pending result
    → IsSpace w (flushed ++ pending) needed (settle needed result)
settle_lem w flushed pending needed _ (done_flush {w'} kept empty v) =
    elim (Bool-cases (ltb w'.buffer_size needed)) [
      | inl long ↦ rw long record {
        held = record {
          flushed = flushed ++ pending;
          pending = [];
          whole = append-nil (flushed ++ pending);
          parts = v;
        };
        kept = kept;
        room = λ ok. ground (arith, ok);
      }
      | inr short ↦ rw short record {
        held = record {
          flushed = flushed ++ pending;
          pending = [];
          whole = append-nil (flushed ++ pending);
          parts = v;
        };
        kept = kept;
        room = λ ok. ground (arith, short, v.size, ap length empty);
      }
    ]
settle_lem w flushed pending needed _ (failed_flush {err} {w'} bad kept same v) = rw bad record {
  held = record { flushed = flushed; pending = pending; whole = refl; parts = v };
  kept = kept;
  room = λ ok. ground (arith, bad, ok);
}

ensure_settle :
    (io : ℕ → Io) (w : WalManager) (needed : ℕ)
    → ltb w.buffer_size (length w.buffer + needed) ≡ true
    → ensure_buffer_space io w needed ≡ settle needed (wal_flush io w)
unfolding ensure_buffer_space
ensure_settle io w needed h = rw h refl

ensure_room :
    (io : ℕ → Io) (w : WalManager) (needed : ℕ)
    → ltb w.buffer_size (length w.buffer + needed) ≡ false
    → ensure_buffer_space io w needed ≡ (DbError.ok, w)
unfolding ensure_buffer_space
ensure_room io w needed h = ground (arith, h)

ensure_lem :
    (io : ℕ → Io) (w : WalManager) (flushed pending : List Written) (needed : ℕ)
    → IsLog w flushed pending
    → IsSpace w (flushed ++ pending) needed (ensure_buffer_space io w needed)
ensure_lem io w flushed pending needed v =
    elim (Bool-cases (ltb w.buffer_size (length w.buffer + needed))) [
      | inl long ↦
          rw (ensure_settle io w needed long) (
            settle_lem w flushed pending needed (wal_flush io w) (flush_lem io w flushed pending v))
      | inr short ↦ rw (ensure_room io w needed short) record {
        held = record { flushed = flushed; pending = pending; whole = refl; parts = v };
        kept = IsKept-refl w;
        room = λ ok. ground (arith, short, v.size);
      }
    ]

record_kept :
    (w w' : WalManager) (tx_id type : ℕ) (payload : List ℕ)
    → IsKept w w'
    → record_of w' tx_id type payload ≡ record_of w tx_id type payload
unfolding new_header
record_kept w w' tx_id type payload k = rw (k.next_lsn, k.active) refl

-- a record that was written is the last of the log
pub record IsAppended (w : WalManager) (log : List Written) (r : Written) (result : ℕ × WalManager)
    : Type 0 where
  pub lsn : result.0 ≡ w.next_lsn
  pub held : IsHeld result.1 (log ++ (r ∷ []))
  pub next : result.1.next_lsn ≡ w.next_lsn + 1
  pub next_tx_id : result.1.next_tx_id ≡ w.next_tx_id
  pub active : result.1.active ≡ set_active_lsn w.active r.header.tx_id w.next_lsn
  pub is_open : result.1.is_open ≡ w.is_open

-- a record that was refused leaves the log
pub record IsRefused (w : WalManager) (log : List Written) (result : ℕ × WalManager) : Type 0 where
  pub lsn : result.0 ≡ 0
  pub held : IsHeld result.1 log
  pub kept : IsKept w result.1

write_done :
    (io : ℕ → Io) (w : WalManager) (tx_id type : ℕ) (payload : List ℕ)
    → let result = ensure_buffer_space io w (32 + length payload) in
      is_ok result.0 ≡ true
      → write_record io w tx_id type payload
        ≡ (result.1.next_lsn, push_record result.1 tx_id type payload)
unfolding write_record
write_done io w tx_id type payload h = rw h refl

write_refused :
    (io : ℕ → Io) (w : WalManager) (tx_id type : ℕ) (payload : List ℕ)
    → let result = ensure_buffer_space io w (32 + length payload) in
      is_ok result.0 ≡ false → write_record io w tx_id type payload ≡ (0, result.1)
unfolding write_record
write_refused io w tx_id type payload h = rw h refl

push-IsAppended :
    (w w' : WalManager) (tx_id type : ℕ) (payload : List ℕ) (log : List Written)
    → IsHeld w' log
    → IsKept w w'
    → IsArgument w tx_id type payload
    → length w'.buffer + (32 + length payload) ≤ 65536
    → IsAppended w log
        (record_of w tx_id type payload)
        (w'.next_lsn, push_record w' tx_id type payload)
unfolding push_record new_header
push-IsAppended w w' tx_id type payload log held kept a room =
    let r = record_of w tx_id type payload in
    let a' : IsArgument w' tx_id type payload = record {
      tx = a.tx;
      kind = a.kind;
      short = a.short;
      next = omega (arith, a.next, kept.next_lsn);
    } in
    record {
      lsn = kept.next_lsn;
      held = record {
        flushed = held.flushed;
        pending = held.pending ++ (r ∷ []);
        whole =
            sym (append_assoc held.flushed held.pending (r ∷ []))
            ∙ ap (λ xs. xs ++ (r ∷ [])) held.whole;
        parts =
            subst
              (λ s.
                IsLog (push_record w' tx_id type payload) held.flushed (held.pending ++ (s ∷ [])))
              (record_kept w w' tx_id type payload kept)
              (push_record-IsLog w' tx_id type payload held.flushed held.pending held.parts a'
                room);
      };
      next = omega (arith, kept.next_lsn, a.next);
      next_tx_id = kept.next_tx_id;
      active = ap₂ (λ xs n. set_active_lsn xs tx_id n) kept.active kept.next_lsn;
      is_open = kept.is_open;
    }

pub write_record_lem :
    (io : ℕ → Io) (w : WalManager) (tx_id type : ℕ) (payload : List ℕ) (log : List Written)
    → IsHeld w log
    → IsArgument w tx_id type payload
    → IsAppended w log (record_of w tx_id type payload) (write_record io w tx_id type payload)
      ⊎ IsRefused w log (write_record io w tx_id type payload)
write_record_lem io w tx_id type payload log h a =
    let result = ensure_buffer_space io w (32 + length payload) in
    let space : IsSpace w log (32 + length payload) result =
      subst (λ rs. IsSpace w rs (32 + length payload) result) h.whole
        (ensure_lem io w h.flushed h.pending (32 + length payload) h.parts) in
    elim (Bool-cases (is_ok result.0)) [
      | inl ok ↦ inl (
          rw (write_done io w tx_id type payload ok) (
            push-IsAppended w result.1 tx_id type payload log space.held space.kept a
              (space.room ok)))
      | inr bad ↦ inr (
          rw (write_refused io w tx_id type payload bad)
            record { lsn = refl; held = space.held; kept = space.kept })
    ]

settle_ok :
    (w : WalManager) (flushed pending : List Written) (needed : ℕ) (result : DbError × WalManager)
    → FlushResult w flushed pending result
    → is_ok result.0 ≡ true
    → needed ≤ 65536
    → is_ok (settle needed result).0 ≡ true
settle_ok w flushed pending needed _ (done_flush kept empty v) ok l = ground (arith, v.size, l)
settle_ok w flushed pending needed _ (failed_flush bad kept same v) ok l = ground (arith, bad, ok)

ensure_ok :
    (io : ℕ → Io) (w : WalManager) (flushed pending : List Written) (needed : ℕ)
    → IsHealthy io
    → w.is_open ≡ true
    → IsLog w flushed pending
    → needed ≤ 65536
    → is_ok (ensure_buffer_space io w needed).0 ≡ true
ensure_ok io w flushed pending needed healthy o v l =
    elim (Bool-cases (ltb w.buffer_size (length w.buffer + needed))) [
      | inl long ↦ rw (ensure_settle io w needed long) (
          settle_ok w flushed pending needed (wal_flush io w) (flush_lem io w flushed pending v)
            (flush_healthy io w healthy o (omega (arith, v.fits, v.size))) l)
      | inr short ↦ rw (ensure_room io w needed short) refl
    ]

-- With a healthy kernel every record that the buffer can take at all is written.
pub write_record-lsn :
    (io : ℕ → Io) (w : WalManager) (tx_id type : ℕ) (payload : List ℕ) (log : List Written)
    → IsHealthy io
    → w.is_open ≡ true
    → IsHeld w log
    → 32 + length payload ≤ 65536
    → (write_record io w tx_id type payload).0 ≡ w.next_lsn
write_record-lsn io w tx_id type payload log healthy o h l =
    let n = 32 + length payload in
    ap (λ r. r.0)
      (write_done io w tx_id type payload
        (ensure_ok io w h.flushed h.pending n healthy o h.parts l))
    ∙ (ensure_lem io w h.flushed h.pending n h.parts).kept.next_lsn
