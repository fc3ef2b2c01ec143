-- ===== src/Wal/Durable.antt =====
-- What it means that a log is in the file, and the flush that brings it there.
use onion_relay.Prelude.{
  ℕ, ◌+◌, ◌^◌, ◌≤◌, ◌<◌, ◌≡◌, ◌⊎◌, inl, inr, refl, true, false, List, [], ◌∷◌, ◌++◌, ◌==◌, length,
  All, arith, ap, ◌∙◌, sym, Bool-cases, subst, take_all,
}
use mathlib.Core.List.{append-nil}
use onion_relay.DbTypes.{DbError, is_ok}
use onion_relay.WalRecord.{log_records, record_commit}
use onion_relay.Wal.{WalManager, remove_active_tx}
use onion_relay.Wal.Records.{Written, IsWritten, encode, seen, records_lem, length-encode}
use onion_relay.Wal.Recovery.{tx_committed}
use onion_relay.Wal.Log.{IsLog, IsRising, IsLog-active}
use onion_relay.Wal.Flush.{FlushResult, done_flush, failed_flush}
use onion_relay.Wal.Write.{IsHeld}

length-remove_active_tx :
    (active : List (ℕ × ℕ)) (tx_id : ℕ) → length (remove_active_tx active tx_id) ≤ length active
unfolding remove_active_tx
length-remove_active_tx [] tx_id = omega arith
length-remove_active_tx ((tx, lsn) ∷ active) tx_id =
    ground (arith, length-remove_active_tx active tx_id)

remove_active_tx-All :
    (active : List (ℕ × ℕ)) (tx_id : ℕ)
    → All (λ entry. entry.1 < 2 ^ 64) active
    → All (λ entry. entry.1 < 2 ^ 64) (remove_active_tx active tx_id)
unfolding remove_active_tx
remove_active_tx-All [] tx_id k = k
remove_active_tx-All ((tx, lsn) ∷ active) tx_id k = elim (Bool-cases (tx == tx_id)) [
  | inl same ↦ rw same k.1
  | inr other ↦ rw other (k.0, remove_active_tx-All active tx_id k.1)
]

-- the manager without an active transaction
abbrev pub ended : WalManager → ℕ → WalManager
ended w tx_id = record w { active = remove_active_tx w.active tx_id }

pub ended-IsLog :
    (w : WalManager) (tx_id : ℕ) (flushed pending : List Written)
    → IsLog w flushed pending
    → IsLog (ended w tx_id) flushed pending
ended-IsLog w tx_id flushed pending v =
    IsLog-active w flushed pending (remove_active_tx w.active tx_id) w.next_tx_id v
      (omega (arith, v.active, length-remove_active_tx w.active tx_id))
      (remove_active_tx-All w.active tx_id v.known)

pub rising_bound : (low : ℕ) (rs : List Written) (high : ℕ) → IsRising low rs high → low ≤ high
rising_bound low [] high h = h
rising_bound low (r ∷ rs) high h = omega (arith, h.0, rising_bound (r.header.lsn + 1) rs high h.1)

pub next_positive : (w : WalManager) (log : List Written) → IsHeld w log → (w.next_lsn == 0) ≡ false
next_positive w log h =
    ground (arith, rising_bound 1 (h.flushed ++ h.pending) w.next_lsn h.parts.rising)

pub committed_last :
    (log : List Written) (r : Written) (tx_id : ℕ)
    → r.header.type ≡ record_commit
    → r.header.tx_id ≡ tx_id
    → tx_committed (seen (log ++ (r ∷ []))) tx_id ≡ true
unfolding tx_committed seen
committed_last [] r tx_id t x = ground (arith, t, x)
committed_last (s ∷ log) r tx_id t x = ground (arith, committed_last log r tx_id t x)

-- everything is in the file, from where a loop over it reads each record
pub record IsDurable (log : List Written) (result : DbError × WalManager) : Type 0 where
  pub ok : result.0 ≡ DbError.ok
  pub buffer : result.1.buffer ≡ []
  pub file : log_records (length result.1.file) result.1.file ≡ seen log
  pub held : IsHeld result.1 log

pub nothing_pending-IsDurable :
    (w : WalManager) (log : List Written)
    → IsLog w log []
    → w.buffer ≡ []
    → 0 < length log
    → IsDurable log (DbError.ok, w)
nothing_pending-IsDurable w log v e n =
    let file : w.file ≡ encode log =
      sym (take_all w.file_offset w.file (omega (arith, v.tail, ap length e))) ∙ v.at_disk in
    record {
      ok = refl;
      buffer = e;
      file =
          ap (λ xs. log_records (length xs) xs) file
          ∙ records_lem log (length (encode log))
              (subst (λ rs. All IsWritten rs) (append-nil log) v.written)
              (omega (arith, length-encode log, n));
      held = record { flushed = log; pending = []; whole = append-nil log; parts = v };
    }

-- a flush of a log makes it durable, or reports an error
pub flush-IsDurable :
    (w : WalManager) (flushed pending : List Written) (result : DbError × WalManager)
    → 0 < length (flushed ++ pending)
    → FlushResult w flushed pending result
    → IsDurable (flushed ++ pending) result
      ⊎ (is_ok result.0 ≡ false) × IsHeld result.1 (flushed ++ pending)
flush-IsDurable w flushed pending _ n (done_flush kept e v) =
    inl (nothing_pending-IsDurable _ (flushed ++ pending) v e n)
flush-IsDurable w flushed pending _ n (failed_flush bad kept same v) =
    inr (bad, record { flushed = flushed; pending = pending; whole = refl; parts = v })
