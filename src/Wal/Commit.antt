-- ===== src/Wal/Commit.antt =====
-- A transaction begins, and ends with its last record: a commit that is reported is in the file.
use onion_relay.Prelude.{
  ℕ, ◌≤◌, ◌<◌, ◌≡◌, ◌⊎◌, inl, inr, refl, true, false, List, [], ◌∷◌, ◌++◌, ◌==◌, length, arith,
  length-append, ap, ◌∙◌, subst,
}
use onion_relay.DbTypes.{DbError, is_ok}
use onion_relay.WalRecord.{record_commit, record_abort}
use onion_relay.Wal.{
  WalManager, Io, new_header, write_record, wal_flush, wal_log_commit, wal_log_abort,
}
use onion_relay.Wal.Records.{Written, seen}
use onion_relay.Wal.Recovery.{tx_committed}
use onion_relay.Wal.Log.{IsHealthy}
use onion_relay.Wal.Flush.{flush_lem, flush_healthy}
use onion_relay.Wal.Append.{IsArgument, record_of}
use onion_relay.Wal.Write.{IsHeld, IsAppended, write_record_lem, write_record-lsn}
use onion_relay.Wal.Durable.{
  ended, ended-IsLog, next_positive, committed_last, IsDurable, flush-IsDurable,
}

commit_flush :
    (io : ℕ → Io) (w : WalManager) (tx_id : ℕ)
    → ((write_record io w tx_id record_commit []).0 == 0) ≡ false
    → wal_log_commit io w tx_id
      ≡ wal_flush io (ended (write_record io w tx_id record_commit []).1 tx_id)
unfolding wal_log_commit
commit_flush io w tx_id h = rw h refl

commit_refused :
    (io : ℕ → Io) (w : WalManager) (tx_id : ℕ)
    → (write_record io w tx_id record_commit []).0 ≡ 0
    → wal_log_commit io w tx_id ≡ (DbError.full, (write_record io w tx_id record_commit []).1)
unfolding wal_log_commit
commit_refused io w tx_id h = rw h refl

-- the log with the record of an end of the transaction
abbrev pub with_end : WalManager → List Written → ℕ → ℕ → List Written
with_end w log tx_id type = log ++ (record_of w tx_id type [] ∷ [])

length-with_end :
    (w : WalManager) (log : List Written) (tx_id type : ℕ) → 0 < length (with_end w log tx_id type)
length-with_end w log tx_id type = omega (arith, length-append log (record_of w tx_id type [] ∷ []))

-- the flush at the end of a commit
module _ (io : ℕ → Io) (w : WalManager) (tx_id : ℕ) (log : List Written) (h : IsHeld w log)
    (a : IsAppended w log
      (record_of w tx_id record_commit [])
      (write_record io w tx_id record_commit [])) where
  abbrev with_commit : WalManager
  with_commit = (write_record io w tx_id record_commit []).1

  commit_appended : wal_log_commit io w tx_id ≡ wal_flush io (ended with_commit tx_id)
  commit_appended = commit_flush io w tx_id (ap (λ n. n == 0) a.lsn ∙ next_positive w log h)

  commit_flushed :
      IsDurable (with_end w log tx_id record_commit) (wal_log_commit io w tx_id)
      ⊎ (is_ok (wal_log_commit io w tx_id).0 ≡ false)
        × IsHeld (wal_log_commit io w tx_id).1 (with_end w log tx_id record_commit)
  commit_flushed =
      let held = a.held in
      let parts = ended-IsLog with_commit tx_id held.flushed held.pending held.parts in
      rw commit_appended (
        subst
          (λ rs.
            IsDurable rs (wal_flush io (ended with_commit tx_id))
            ⊎ (is_ok (wal_flush io (ended with_commit tx_id)).0 ≡ false)
              × IsHeld (wal_flush io (ended with_commit tx_id)).1 rs)
          held.whole
          (flush-IsDurable (ended with_commit tx_id) held.flushed held.pending
            (wal_flush io (ended with_commit tx_id))
            (omega (arith, ap length held.whole, length-with_end w log tx_id record_commit))
            (flush_lem io (ended with_commit tx_id) held.flushed held.pending parts)))

commit_seen :
    (w : WalManager) (log : List Written) (tx_id : ℕ)
    → tx_committed (seen (with_end w log tx_id record_commit)) tx_id ≡ true
commit_seen w log tx_id =
    committed_last log (record_of w tx_id record_commit []) tx_id (unfold new_header in refl)
      (unfold new_header in refl)

-- On a manager whose file and buffer hold a log of records with rising numbers, and with room for
-- another number, wal_log_commit either returns NOSTR_DB_OK, and the buffer is empty, the loops
-- over the file see the records of the log and then the commit, and recovery takes the
-- transaction as committed; or it returns an error, and the file and the buffer hold the log,
-- with or without the commit at its end.
pub commit_lem :
    (io : ℕ → Io) (w : WalManager) (tx_id : ℕ) (log : List Written)
    → IsHeld w log
    → IsArgument w tx_id record_commit []
    → let result = wal_log_commit io w tx_id in
      let whole = with_end w log tx_id record_commit in
      (IsDurable whole result × (tx_committed (seen whole) tx_id ≡ true))
      ⊎ (is_ok result.0 ≡ false) × (IsHeld result.1 log ⊎ IsHeld result.1 whole)
commit_lem io w tx_id log h a = elim (write_record_lem io w tx_id record_commit [] log h a) [
  | inr refused ↦ inr (rw (commit_refused io w tx_id refused.lsn) (refl, inl refused.held))
  | inl appended ↦ elim (commit_flushed io w tx_id log h appended) [
    | inl durable ↦ inl (durable, commit_seen w log tx_id)
    | inr (bad, held) ↦ inr (bad, inr held)
  ]
]

-- If moreover the log is open, its writes take the whole buffer and its syncs succeed,
-- wal_log_commit returns NOSTR_DB_OK, and the file holds the log and the commit.
commit_healthy :
    (io : ℕ → Io) (w : WalManager) (tx_id : ℕ) (log : List Written)
    → IsHealthy io
    → w.is_open ≡ true
    → IsHeld w log
    → IsArgument w tx_id record_commit []
    → IsDurable (with_end w log tx_id record_commit) (wal_log_commit io w tx_id)
commit_healthy io w tx_id log healthy o h a =
    let lsn = write_record-lsn io w tx_id record_commit [] log healthy o h (omega arith) in
    elim (write_record_lem io w tx_id record_commit [] log h a) [
      | inr refused ↦ absurd (ground (arith, next_positive w log h, lsn, refused.lsn))
      | inl appended ↦
          let w₁ = (write_record io w tx_id record_commit []).1 in
          let size : length (ended w₁ tx_id).buffer ≤ 65536 =
            omega (arith, appended.held.parts.fits, appended.held.parts.size) in
          let ok =
            ap (λ r. is_ok r.0) (commit_appended io w tx_id log h appended)
            ∙ flush_healthy io (ended w₁ tx_id) healthy (appended.is_open ∙ o) size in
          elim (commit_flushed io w tx_id log h appended) [
            | inl durable ↦ durable
            | inr (bad, held) ↦ absurd (ground (arith, bad, ok))
          ]
    ]

abort_done :
    (io : ℕ → Io) (w : WalManager) (tx_id : ℕ)
    → ((write_record io w tx_id record_abort []).0 == 0) ≡ false
    → wal_log_abort io w tx_id
      ≡ (DbError.ok, ended (write_record io w tx_id record_abort []).1 tx_id)
unfolding wal_log_abort
abort_done io w tx_id h = rw h refl

abort_refused :
    (io : ℕ → Io) (w : WalManager) (tx_id : ℕ)
    → (write_record io w tx_id record_abort []).0 ≡ 0
    → wal_log_abort io w tx_id ≡ (DbError.full, (write_record io w tx_id record_abort []).1)
unfolding wal_log_abort
abort_refused io w tx_id h = rw h refl

pub abort_lem :
    (io : ℕ → Io) (w : WalManager) (tx_id : ℕ) (log : List Written)
    → IsHeld w log
    → IsArgument w tx_id record_abort []
    → let result = wal_log_abort io w tx_id in
      ((result.0 ≡ DbError.ok) × IsHeld result.1 (with_end w log tx_id record_abort))
      ⊎ (result.0 ≡ DbError.full) × IsHeld result.1 log
abort_lem io w tx_id log h a = elim (write_record_lem io w tx_id record_abort [] log h a) [
  | inr refused ↦ inr (rw (abort_refused io w tx_id refused.lsn) (refl, refused.held))
  | inl appended ↦
      let held = appended.held in
      let w₁ = (write_record io w tx_id record_abort []).1 in
      inl (
        rw (abort_done io w tx_id (ap (λ n. n == 0) appended.lsn ∙ next_positive w log h)) (
          refl,
          record {
            flushed = held.flushed;
            pending = held.pending;
            whole = held.whole;
            parts = ended-IsLog w₁ tx_id held.flushed held.pending held.parts;
          },
        ))
]
