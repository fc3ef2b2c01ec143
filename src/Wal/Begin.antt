-- ===== src/Wal/Begin.antt =====
-- The begin of a transaction, and the payload of an update as recovery reads it.
use onion_relay.Prelude.{
  ℕ, ◌+◌, ◌%◌, ◌^◌, ◌≤◌, ◌<◌, ◌≡◌, ◌⊎◌, inl, inr, refl, true, false, List, [], ◌∷◌, ◌++◌, ltb, ◌==◌,
  length, drop, All, All-snoc, arith, length-append, take_append, drop_append, drop_beyond, ap, ◌∙◌,
  sym, Bool-cases, bytes_of, number-bytes_of,
}
use mathlib.Core.List.{append_assoc}
use onion_relay.WalRecord.{record_begin}
use onion_relay.Wal.{
  WalManager, Io, new_header, write_record, wal_log_begin, update_payload, set_active_lsn,
}
use onion_relay.Wal.Recovery.{read_update}
use onion_relay.Wal.Records.{Written}
use onion_relay.Wal.Append.{IsArgument, record_of}
use onion_relay.Wal.Write.{IsHeld, write_record_lem}
use onion_relay.Wal.Log.{IsLog-active}
use onion_relay.Wal.Durable.{next_positive}

-- For a page id of 32 bits, an offset of 16 bits and two images of one length below 2 ^ 16, recovery
-- reads from the payload of an update, whatever follows it in the log, what it was written from.
read-update_payload :
    (page_id offset : ℕ) (old new tail : List ℕ)
    → page_id < 2 ^ 32
    → offset < 2 ^ 16
    → length old < 2 ^ 16
    → length new ≡ length old
    → read_update (update_payload page_id offset old new ++ tail)
      ≡ record { page_id = page_id; offset = offset; old_data = old; new_data = new }
unfolding read_update update_payload bytes_of
read-update_payload page_id offset old new tail p o l e =
    let front = bytes_of 4 page_id ++ (bytes_of 2 offset ++ bytes_of 2 (length old)) in
    let new_part : drop (8 + length old) (front ++ (old ++ (new ++ tail))) ≡ new ++ tail =
      drop_beyond front (old ++ (new ++ tail)) (length old) (8 + length old) (omega arith)
      ∙ drop_append old (new ++ tail) in
    rw
      (
        number-bytes_of 4 page_id p,
        number-bytes_of 2 offset o,
        number-bytes_of 2 (length old) l,
        append_assoc old new tail,
        new_part,
        take_append old (new ++ tail),
        sym e,
        take_append new tail,
      )
      refl

begin_full :
    (io : ℕ → Io) (w : WalManager) → ltb (length w.active) 64 ≡ false → wal_log_begin io w ≡ (0, w)
unfolding wal_log_begin
begin_full io w h = rw h refl

-- the manager with a new transaction
abbrev pub begun : WalManager → WalManager
begun w = record w {
  next_tx_id = (w.next_tx_id + 1) % 2 ^ 32;
  active = w.active ++ ((w.next_tx_id, 0) ∷ []);
}

begin_done :
    (io : ℕ → Io) (w : WalManager)
    → ltb (length w.active) 64 ≡ true
    → ((write_record io (begun w) w.next_tx_id record_begin []).0 == 0) ≡ false
    → wal_log_begin io w
      ≡ (w.next_tx_id, (write_record io (begun w) w.next_tx_id record_begin []).1)
unfolding wal_log_begin
begin_done io w h k = rw (h, k) refl

begin_refused :
    (io : ℕ → Io) (w : WalManager)
    → ltb (length w.active) 64 ≡ true
    → (write_record io (begun w) w.next_tx_id record_begin []).0 ≡ 0
    → wal_log_begin io w
      ≡ (0, record (write_record io (begun w) w.next_tx_id record_begin []).1 { active = w.active })
unfolding wal_log_begin
begin_refused io w h k = rw (h, k) refl

IsHeld-active :
    (w : WalManager) (log : List Written) (active : List (ℕ × ℕ)) (tx_id : ℕ)
    → IsHeld w log
    → length active ≤ 64
    → All (λ entry. entry.1 < 2 ^ 64) active
    → IsHeld (record w { active = active; next_tx_id = tx_id }) log
IsHeld-active w log active tx_id h l k = record {
  flushed = h.flushed;
  pending = h.pending;
  whole = h.whole;
  parts = IsLog-active w h.flushed h.pending active tx_id h.parts l k;
}

begun-IsHeld :
    (w : WalManager) (log : List Written)
    → IsHeld w log
    → ltb (length w.active) 64 ≡ true
    → IsHeld (begun w) log
begun-IsHeld w log h room =
    IsHeld-active w log (w.active ++ ((w.next_tx_id, 0) ∷ [])) ((w.next_tx_id + 1) % 2 ^ 32) h
      (ground (arith, room, length-append w.active ((w.next_tx_id, 0) ∷ [])))
      (All-snoc (λ entry. entry.1 < 2 ^ 64) w.active (w.next_tx_id, 0) h.parts.known (omega arith))

-- a transaction that has begun
pub record IsBegun (w : WalManager) (log : List Written) (result : ℕ × WalManager) : Type 0 where
  pub tx_id : result.0 ≡ w.next_tx_id
  pub next : result.1.next_tx_id ≡ (w.next_tx_id + 1) % 2 ^ 32
  pub held : IsHeld result.1 (log ++ (record_of (begun w) w.next_tx_id record_begin [] ∷ []))
  pub active :
      result.1.active
      ≡ set_active_lsn (w.active ++ ((w.next_tx_id, 0) ∷ [])) w.next_tx_id w.next_lsn

-- On a manager whose file and buffer hold a log of records with rising numbers, and with room for
-- another number, wal_log_begin either returns the next transaction id, appends a begin record to
-- the log and enters the transaction with the record's number among the active ones; or it
-- returns 0 and leaves the log and the active transactions.
pub begin_lem :
    (io : ℕ → Io) (w : WalManager) (log : List Written)
    → IsHeld w log
    → IsArgument w w.next_tx_id record_begin []
    → let result = wal_log_begin io w in
      IsBegun w log result ⊎ (result.0 ≡ 0) × IsHeld result.1 log × (result.1.active ≡ w.active)
begin_lem io w log h a = elim (Bool-cases (ltb (length w.active) 64)) [
  | inr full ↦ inr (rw (begin_full io w full) (refl, h, refl))
  | inl room ↦
      let held = begun-IsHeld w log h room in
      let a' : IsArgument (begun w) w.next_tx_id record_begin [] = record {
        tx = a.tx;
        kind = a.kind;
        short = a.short;
        next = a.next;
      } in
      let w₁ = (write_record io (begun w) w.next_tx_id record_begin []).1 in
      elim (write_record_lem io (begun w) w.next_tx_id record_begin [] log held a') [
        | inr refused ↦ inr (
            rw (begin_refused io w room refused.lsn) (
              refl,
              IsHeld-active w₁ log w.active w₁.next_tx_id refused.held h.parts.active h.parts.known,
              refl,
            ))
        | inl written ↦ inl (
            rw
              (begin_done io w room
                (ap (λ n. n == 0) written.lsn ∙ next_positive (begun w) log held))
              record {
                tx_id = refl;
                next = written.next_tx_id;
                held = written.held;
                active = unfold new_header in written.active;
              })
      ]
]
