-- ===== src/Wal/Reachable.antt =====
-- The managers that sequences of calls lead to, from a new log on.
use onion_relay.Prelude.{
  ℕ, ◌+◌, ◌^◌, ◌≤◌, ◌<◌, ◌≡◌, inl, inr, refl, true, List, [], ◌++◌, length, arith, ap, bytes_of,
  subst, ◌⊎◌, Option, none, some, sym, ◌∙◌,
}
use onion_relay.DbTypes.{DbError}
use onion_relay.WalRecord.{
  record_begin, record_update, record_alloc_page, record_free_page, record_commit, record_abort,
}
use onion_relay.Wal.{
  WalManager, Io, wal_init, wal_flush, wal_log_begin, wal_log_update, wal_log_alloc_page,
  wal_log_free_page, wal_log_commit, wal_log_abort, wal_checkpoint, update_payload, write_record,
}
use onion_relay.Wal.Records.{Written, encode}
use onion_relay.Wal.Flush.{FlushResult, done_flush, failed_flush, flush_lem}
use onion_relay.Wal.Append.{IsArgument}
use onion_relay.Wal.Write.{IsHeld, write_record_lem}
use onion_relay.Wal.Commit.{commit_lem, abort_lem}
use onion_relay.Wal.Begin.{begin_lem}
use onion_relay.Wal.Checkpoint.{checkpoint_lem}
use mathlib.Core.List.{append-nil}

-- From wal_init on an empty file by any calls in any order, whatever the kernel answers. The arguments
-- have room in a record and the numbers do not wrap.
pub data Reachable (io : ℕ → Io) : WalManager → Type 0 where
  opened : {w : WalManager} → wal_init true true true [] ≡ (DbError.ok, w) → Reachable io w
  began :
      {w : WalManager}
      → IsArgument w w.next_tx_id record_begin []
      → Reachable io w
      → Reachable io (wal_log_begin io w).1
  updated :
      {w w' : WalManager} (tx_id page_id offset lsn : ℕ) (old new : List ℕ)
      → IsArgument w tx_id record_update (update_payload page_id offset old new)
      → Reachable io w
      → wal_log_update io w tx_id page_id offset old new ≡ some (lsn, w')
      → Reachable io w'
  allocated :
      {w : WalManager} (tx_id page_id : ℕ)
      → IsArgument w tx_id record_alloc_page (bytes_of 4 page_id)
      → Reachable io w
      → Reachable io (wal_log_alloc_page io w tx_id page_id).1
  freed :
      {w : WalManager} (tx_id page_id : ℕ)
      → IsArgument w tx_id record_free_page (bytes_of 4 page_id)
      → Reachable io w
      → Reachable io (wal_log_free_page io w tx_id page_id).1
  committed :
      {w : WalManager} (tx_id : ℕ)
      → IsArgument w tx_id record_commit []
      → Reachable io w
      → Reachable io (wal_log_commit io w tx_id).1
  aborted :
      {w : WalManager} (tx_id : ℕ)
      → IsArgument w tx_id record_abort []
      → Reachable io w
      → Reachable io (wal_log_abort io w tx_id).1
  written_out : {w : WalManager} → Reachable io w → Reachable io (wal_flush io w).1
  checkpointed :
      {w : WalManager} (pages_flushed : DbError)
      → w.next_lsn + 1 < 2 ^ 64
      → Reachable io w
      → Reachable io (wal_checkpoint io pages_flushed w).1

-- some log is held
abbrev pub HasLog : WalManager → Type 0
HasLog w = (log : List Written) × IsHeld w log

new-HasLog : {w : WalManager} → wal_init true true true [] ≡ (DbError.ok, w) → HasLog w
unfolding wal_init encode
new-HasLog {w} e = subst HasLog (ap (λ (r : DbError × WalManager). r.1) e) (
  [],
  record {
    flushed = [];
    pending = [];
    whole = refl;
    parts = record {
      at_disk = refl;
      offset = refl;
      in_buffer = refl;
      tail = omega arith;
      written = tt;
      rising = omega arith;
      next = omega arith;
      fits = omega arith;
      size = refl;
      active = omega arith;
      known = tt;
    };
  },
)

write-HasLog :
    (io : ℕ → Io) (w : WalManager) (tx_id type : ℕ) (payload : List ℕ)
    → HasLog w
    → IsArgument w tx_id type payload
    → HasLog (write_record io w tx_id type payload).1
write-HasLog io w tx_id type payload (log, h) a =
    elim (write_record_lem io w tx_id type payload log h a) [
      | inl done ↦ (_, done.held)
      | inr refused ↦ (log, refused.held)
    ]

-- an update that fits into a record
pub update_cases :
    (io : ℕ → Io) (w : WalManager) (tx_id page_id offset : ℕ) (old new : List ℕ)
    → length (update_payload page_id offset old new) < 2 ^ 16
    → (wal_log_update io w tx_id page_id offset old new ≡ some (0, w))
      ⊎ (wal_log_update io w tx_id page_id offset old new
          ≡ some (write_record io w tx_id record_update (update_payload page_id offset old new)))
unfolding wal_log_update
update_cases io w tx_id page_id offset old new h = ground (arith, h)

update-HasLog :
    (io : ℕ → Io) (w w' : WalManager) (tx_id page_id offset lsn : ℕ) (old new : List ℕ)
    → HasLog w
    → IsArgument w tx_id record_update (update_payload page_id offset old new)
    → wal_log_update io w tx_id page_id offset old new ≡ some (lsn, w')
    → HasLog w'
update-HasLog io w w' tx_id page_id offset lsn old new h a e =
    elim (update_cases io w tx_id page_id offset old new a.short) [
      | inl nothing ↦ subst HasLog (same (0, w) (sym nothing ∙ e)) h
      | inr done ↦
          let payload = update_payload page_id offset old new in
          let result = write_record io w tx_id record_update payload in
          subst HasLog (same result (sym done ∙ e))
            (write-HasLog io w tx_id record_update payload h a)
    ]
  where
    taken : Option (ℕ × WalManager) → ℕ × WalManager
    taken none = (lsn, w')
    taken (some result) = result

    same : (result : ℕ × WalManager) → some result ≡ some (lsn, w') → result.1 ≡ w'
    same result e = ap (λ (o : Option (ℕ × WalManager)). (taken o).1) e

alloc-HasLog :
    (io : ℕ → Io) (w : WalManager) (tx_id page_id : ℕ)
    → HasLog w
    → IsArgument w tx_id record_alloc_page (bytes_of 4 page_id)
    → HasLog (wal_log_alloc_page io w tx_id page_id).1
unfolding wal_log_alloc_page
alloc-HasLog io w tx_id page_id h a =
    write-HasLog io w tx_id record_alloc_page (bytes_of 4 page_id) h a

free-HasLog :
    (io : ℕ → Io) (w : WalManager) (tx_id page_id : ℕ)
    → HasLog w
    → IsArgument w tx_id record_free_page (bytes_of 4 page_id)
    → HasLog (wal_log_free_page io w tx_id page_id).1
unfolding wal_log_free_page
free-HasLog io w tx_id page_id h a =
    write-HasLog io w tx_id record_free_page (bytes_of 4 page_id) h a

flush-HasLog :
    (w : WalManager) (flushed pending : List Written) (result : DbError × WalManager)
    → FlushResult w flushed pending result
    → HasLog result.1
flush-HasLog w flushed pending _ (done_flush kept empty v) = (
  flushed ++ pending,
  record {
    flushed = flushed ++ pending;
    pending = [];
    whole = append-nil (flushed ++ pending);
    parts = v;
  },
)
flush-HasLog w flushed pending _ (failed_flush bad kept same v) =
    (flushed ++ pending, record { flushed = flushed; pending = pending; whole = refl; parts = v })

pub reachable-HasLog : {io : ℕ → Io} {w : WalManager} → Reachable io w → HasLog w
reachable-HasLog (opened e) = new-HasLog e
reachable-HasLog {io} (began {w} a r) =
    let (log, h) = reachable-HasLog r in
    elim (begin_lem io w log h a) [
      | inl begun ↦ (_, begun.held)
      | inr (zero_id, held, same) ↦ (log, held)
    ]
reachable-HasLog {io} (updated {w} {w'} tx_id page_id offset lsn old new a r e) =
    update-HasLog io w w' tx_id page_id offset lsn old new (reachable-HasLog r) a e
reachable-HasLog {io} (allocated {w} tx_id page_id a r) =
    alloc-HasLog io w tx_id page_id (reachable-HasLog r) a
reachable-HasLog {io} (freed {w} tx_id page_id a r) =
    free-HasLog io w tx_id page_id (reachable-HasLog r) a
reachable-HasLog {io} (committed {w} tx_id a r) =
    let (log, h) = reachable-HasLog r in
    elim (commit_lem io w tx_id log h a) [
      | inl (durable, seen_commit) ↦ (_, durable.held)
      | inr (bad, inl held) ↦ (log, held)
      | inr (bad, inr held) ↦ (_, held)
    ]
reachable-HasLog {io} (aborted {w} tx_id a r) =
    let (log, h) = reachable-HasLog r in
    elim (abort_lem io w tx_id log h a) [
      | inl (ok, held) ↦ (_, held)
      | inr (full, held) ↦ (log, held)
    ]
reachable-HasLog {io} (written_out {w} r) =
    let (log, h) = reachable-HasLog r in
    flush-HasLog w h.flushed h.pending (wal_flush io w) (flush_lem io w h.flushed h.pending h.parts)
reachable-HasLog {io} (checkpointed {w} err next r) =
    let (log, h) = reachable-HasLog r in
    elim (checkpoint_lem io err w log h next) [
      | inl (unflushed, same) ↦ (log, subst (λ result. IsHeld result.1 log) (sym same) h)
      | inr (pages, inl (ok, inl (held, cut))) ↦ ([], held)
      | inr (pages, inl (ok, inr held)) ↦ (_, held)
      | inr (pages, inr (bad, inl held)) ↦ (log, held)
      | inr (pages, inr (bad, inr held)) ↦ (_, held)
    ]

-- Every manager that calls in any order make of a new log, whatever the kernel answers, while the
-- numbers do not wrap and the two images of an update have at most 65527 bytes together, holds a log of
-- records with rising numbers in its file and its buffer; the buffer has at most 65536 bytes and at most
-- 64 transactions are active.
pub reachable_bounds :
    {io : ℕ → Io} {w : WalManager}
    → Reachable io w
    → HasLog w × (length w.buffer ≤ 65536) × (length w.active ≤ 64)
reachable_bounds r =
    let (log, h) = reachable-HasLog r in
    ((log, h), omega (arith, h.parts.fits, h.parts.size), h.parts.active)
