-- ===== src/Wal/Recovery.antt =====
-- src/nostr/db/wal/wal_recovery.c: committed updates are done again in the order of the log, and the
-- others are undone in the reverse order, from the last checkpoint on.
pub mod Bytes
pub mod Replay
pub mod Whole
use onion_relay.Prelude.{
  ℕ, zero, suc, ◌+◌, ◌-◌, ◌*◌, ◌%◌, ◌^◌, Bool, true, false, ◌&&◌, ◌||◌, not, Option, none, some,
  List, [], ◌∷◌, ltb, leb, ◌==◌, if◌then◌else◌, length, take, drop, any, all, number,
}
use onion_relay.DbTypes.{DbError, is_ok, PageData}
use onion_relay.SlotPage.{store}
use onion_relay.Disk.{DiskManager, Kernel, disk_read_page, disk_write_page}
use onion_relay.WalRecord.{
  LogRecord, log_records, max_lsn, record_commit, record_update, record_checkpoint,
}
use onion_relay.Wal.{WalManager}

-- `WalUpdatePayload` with the images behind it
pub record Update : Type 0 where
  pub page_id : ℕ
  pub offset : ℕ
  pub old_data : List ℕ
  pub new_data : List ℕ

-- the images, which lie in the log for the records that `is_whole` accepts
unfoldable pub read_update : List ℕ → Update
read_update payload =
    let n = number (take 2 (drop 6 payload)) in
    record {
      page_id = number (take 4 payload);
      offset = number (take 2 (drop 4 payload));
      old_data = take n (drop 8 payload);
      new_data = take n (drop (8 + n) payload);
    }

unfoldable pub tx_committed : List LogRecord → ℕ → Bool
tx_committed log tx_id = any (λ r. r.header.type == record_commit && r.header.tx_id == tx_id) log

-- the records from the last checkpoint on, if there is one
unfoldable pub find_last_checkpoint : List LogRecord → Option (List LogRecord)
find_last_checkpoint [] = none
find_last_checkpoint (r ∷ rs) = elim (find_last_checkpoint rs) [
  | some found ↦ some found
  | none ↦ if r.header.type == record_checkpoint then some (r ∷ rs) else none
]

-- an update of a committed transaction, which has a payload
unfoldable pub is_redone : List LogRecord → LogRecord → Bool
is_redone log r =
    r.header.type == record_update && ltb 0 r.header.data_length && tx_committed log r.header.tx_id

-- Whether the payload and both images lie in the log, and the image in the page: otherwise the copies read
-- behind the log or write behind the page.
unfoldable pub is_whole : List ℕ → Bool
is_whole payload =
    let n = number (take 2 (drop 6 payload)) in
    leb (8 + 2 * n) (length payload) && leb (number (take 2 (drop 4 payload)) + n) 4096

-- one record of redo_phase, which is whole; a page that cannot be read is passed over
unfoldable pub redo_record :
    Kernel → List LogRecord → LogRecord → DiskManager → DbError × DiskManager
redo_record k log r d =
    let u = read_update r.payload in
    let (err, page, d₁) = disk_read_page k d u.page_id in
    if not (is_redone log r)
    then (DbError.ok, d)
    else if not (is_ok err)
    then (DbError.ok, d₁)
    else disk_write_page k d₁ u.page_id (store page u.offset u.new_data)

-- the loop of redo_phase over the records that are left
unfoldable pub redo_phase :
    Kernel → List LogRecord → List LogRecord → DiskManager → DbError × DiskManager
redo_phase k log [] d = (DbError.ok, d)
redo_phase k log (r ∷ rs) d =
    let (err, d₁) = redo_record k log r d in
    let rest = redo_phase k log rs d₁ in if is_ok err then rest else (err, d₁)

unfoldable pub is_undone : List LogRecord → LogRecord → Bool
is_undone log r = r.header.type == record_update && not (tx_committed log r.header.tx_id)

-- one record of undo_phase, which is whole
unfoldable pub undo_record : Kernel → LogRecord → DiskManager → DbError × DiskManager
undo_record k r d =
    let u = read_update r.payload in
    let (err, page, d₁) = disk_read_page k d u.page_id in
    if not (is_ok err)
    then (err, d₁)
    else disk_write_page k d₁ u.page_id (store page u.offset u.old_data)

-- the loop of undo_phase over the positions, from the last on
unfoldable pub undo_loop :
    Kernel → List LogRecord → List LogRecord → DiskManager → DbError × DiskManager
undo_loop k log [] d = (DbError.ok, d)
undo_loop k log (r ∷ rs) d =
    let (err, d₁) = undo_loop k log rs d in
    if not (is_ok err)
    then (err, d₁)
    else if is_undone log r
    then undo_record k r d₁
    else (DbError.ok, d₁)

-- `mapped` tells whether the kernel gives the memory for the positions.
unfoldable pub undo_phase :
    Kernel → (mapped : Bool) → List LogRecord → List LogRecord → DiskManager → DbError × DiskManager
undo_phase k mapped log rs d =
    if not (any (is_undone log) rs)
    then (DbError.ok, d)
    else if mapped
    then undo_loop k log rs d
    else (DbError.mmap_failed, d)

unfoldable pub max_tx_id : ℕ → List LogRecord → ℕ
max_tx_id tx_id [] = tx_id
max_tx_id tx_id (r ∷ rs) = max_tx_id (if ltb tx_id r.header.tx_id then r.header.tx_id else tx_id) rs

-- the records that are replayed
unfoldable pub replayed : List LogRecord → List LogRecord
replayed log = elim (find_last_checkpoint log) [ none ↦ log | some rs ↦ rs ]

-- No record that recovery applies makes a copy read behind the log or write behind the page.
unfoldable pub is_sound : List LogRecord → List LogRecord → Bool
is_sound log rs = all (λ r. not (is_redone log r || is_undone log r) || is_whole r.payload) rs

-- There is no result where a record to be replayed is not whole. `readable` tells whether the log file can be read into memory.
unfoldable pub wal_recover :
    Kernel
    → (readable mapped : Bool) → WalManager
    → DiskManager
    → Option (DbError × WalManager × DiskManager)
wal_recover k readable mapped w d =
    let log = log_records (length w.file) w.file in
    let (err, d₁) = redo_phase k log (replayed log) d in
    let (err₂, d₂) = undo_phase k mapped log (replayed log) d₁ in
    if not w.is_open
    then some (DbError.file_open, w, d)
    else if not readable || length w.file == 0
    then some (DbError.ok, w, d)
    else if not (is_sound log (replayed log))
    then none
    else if not (is_ok err)
    then some (err, w, d₁)
    else if not (is_ok err₂)
    then some (err₂, w, d₂)
    else some (
      DbError.ok,
      record w {
        next_lsn = (max_lsn 0 log + 1) % 2 ^ 64;
        next_tx_id = (max_tx_id 0 log + 1) % 2 ^ 32;
        flushed_lsn = max_lsn 0 log;
      },
      d₂,
    )
