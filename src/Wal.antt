-- ===== src/Wal.antt =====
-- src/nostr/db/wal: the write-ahead log. The used part of the buffer and the contents of the log file
-- are lists of bytes, and the active transactions a list of ids with their last sequence numbers.
-- What the kernel answers in a flush is a parameter, by the number of the flush.
pub mod Records
pub mod Log
pub mod Flush
pub mod Append
pub mod Write
pub mod Durable
pub mod Commit
pub mod Begin
pub mod Checkpoint
pub mod Reachable
pub mod Recovery
use onion_relay.Prelude.{
  ℕ, zero, suc, ◌+◌, ◌-◌, ◌*◌, ◌%◌, ◌^◌, Bool, true, false, ◌&&◌, not, Option, none, some, List, [],
  ◌∷◌, ◌++◌, ltb, leb, ◌==◌, if◌then◌else◌, length, take, drop, bytes_of, number, min,
}
use onion_relay.DbTypes.{DbError, is_ok}
use onion_relay.WalRecord.{
  Header, header_bytes, log_records, max_lsn, record_abort, record_alloc_page, record_begin,
  record_checkpoint, record_commit, record_free_page, record_update,
}

pub record WalManager : Type 0 where
  pub is_open : Bool
  pub flushed_lsn : ℕ
  pub next_lsn : ℕ
  pub next_tx_id : ℕ
  pub buffer : List ℕ
  pub buffer_size : ℕ
  pub file_offset : ℕ
  pub active : List (ℕ × ℕ)
  pub file : List ℕ
  pub flushes : ℕ

-- How many bytes each write of a flush takes at most before one fails, whether the data reach the disk, and
-- whether the file can be cut.
pub record Io : Type 0 where
  pub writes : List ℕ
  pub syncs : Bool
  pub truncates : Bool

-- The loop of pwrite calls, and the bytes written at its end. The call after the last one listed fails.
unfoldable pub write_loop : List ℕ → ℕ → ℕ → Bool × ℕ
write_loop [] used written = (leb used written, written)
write_loop (n ∷ counts) used written =
    if ltb written used
    then write_loop counts used (written + min n (used - written))
    else (true, written)

-- bytes written into a file at an offset
unfoldable pub overwrite : List ℕ → ℕ → List ℕ → List ℕ
overwrite file offset bytes = take offset file ++ (bytes ++ drop (offset + length bytes) file)

unfoldable pub wal_flush : (ℕ → Io) → WalManager → DbError × WalManager
wal_flush io w =
    let (finished, written) = write_loop (io w.flushes).writes (length w.buffer) 0 in
    let w₁ : WalManager = record w {
      file = overwrite w.file w.file_offset (take written w.buffer);
      flushes = w.flushes + 1;
    } in
    if length w.buffer == 0
    then (DbError.ok, w)
    else if not w.is_open
    then (DbError.file_open, w)
    else if finished && (io w.flushes).syncs
    then (
      DbError.ok,
      record w₁ {
        file_offset = w.file_offset + written;
        flushed_lsn = max_lsn w.flushed_lsn (log_records (length w.buffer) w.buffer);
        buffer = [];
      },
    )
    else (DbError.file_create, w₁)

-- the last number of an active transaction
unfoldable pub find_active_tx : List (ℕ × ℕ) → ℕ → Option ℕ
find_active_tx [] tx_id = none
find_active_tx ((tx, lsn) ∷ active) tx_id =
    if tx == tx_id then some lsn else find_active_tx active tx_id

-- the entries after the first of the transaction move up
unfoldable pub remove_active_tx : List (ℕ × ℕ) → ℕ → List (ℕ × ℕ)
remove_active_tx [] tx_id = []
remove_active_tx ((tx, lsn) ∷ active) tx_id =
    let rest = remove_active_tx active tx_id in if tx == tx_id then active else (tx, lsn) ∷ rest

unfoldable pub set_active_lsn : List (ℕ × ℕ) → ℕ → ℕ → List (ℕ × ℕ)
set_active_lsn [] tx_id new_lsn = []
set_active_lsn ((tx, lsn) ∷ active) tx_id new_lsn =
    let rest = set_active_lsn active tx_id new_lsn in
    if tx == tx_id then (tx, new_lsn) ∷ active else (tx, lsn) ∷ rest

unfoldable pub ensure_buffer_space : (ℕ → Io) → WalManager → ℕ → DbError × WalManager
ensure_buffer_space io w needed =
    let (err, w₁) =
      if ltb w.buffer_size (length w.buffer + needed) then wal_flush io w else (DbError.ok, w) in
    if not (is_ok err)
    then (err, w₁)
    else if ltb w₁.buffer_size needed
    then (DbError.full, w₁)
    else (DbError.ok, w₁)

abbrev pub prev_of : Option ℕ → ℕ
prev_of none = 0
prev_of (some lsn) = lsn

-- the header that a record gets
unfoldable pub new_header : WalManager → ℕ → ℕ → ℕ → Header
new_header w tx_id type data_length = record {
  lsn = w.next_lsn;
  prev_lsn = prev_of (find_active_tx w.active tx_id);
  tx_id = tx_id;
  type = type;
  data_length = data_length;
}

unfoldable pub push_record : WalManager → ℕ → ℕ → List ℕ → WalManager
push_record w tx_id type payload = record w {
  next_lsn = (w.next_lsn + 1) % 2 ^ 64;
  buffer = w.buffer ++ (header_bytes (new_header w tx_id type (length payload)) ++ payload);
  active = set_active_lsn w.active tx_id w.next_lsn;
}

-- write_simple_record, and the same steps with a payload; the result is the number, or 0
unfoldable pub write_record : (ℕ → Io) → WalManager → ℕ → ℕ → List ℕ → ℕ × WalManager
write_record io w tx_id type payload =
    let (err, w₁) = ensure_buffer_space io w (32 + length payload) in
    if is_ok err then (w₁.next_lsn, push_record w₁ tx_id type payload) else (0, w₁)

unfoldable pub wal_log_begin : (ℕ → Io) → WalManager → ℕ × WalManager
wal_log_begin io w =
    let tx_id = w.next_tx_id in
    let w₁ : WalManager = record w {
      next_tx_id = (w.next_tx_id + 1) % 2 ^ 32;
      active = w.active ++ ((tx_id, 0) ∷ []);
    } in
    let (lsn, w₂) = write_record io w₁ tx_id record_begin [] in
    if ltb (length w.active) 64
    then if lsn == 0 then (0, record w₂ { active = w.active }) else (tx_id, w₂)
    else (0, w)

-- `WalUpdatePayload` with the two images
unfoldable pub update_payload : ℕ → ℕ → List ℕ → List ℕ → List ℕ
update_payload page_id offset old new =
    bytes_of 4 page_id ++ (bytes_of 2 offset ++ (bytes_of 2 (length old) ++ (old ++ new)))

-- The images have one length. The data length has 16 bits: of a longer payload the space is checked for
-- the rest only, and the copy of all of it runs over the end of the buffer, where there is no result.
unfoldable pub wal_log_update :
    (ℕ → Io) → WalManager → ℕ → ℕ → ℕ → (old new : List ℕ) → Option (ℕ × WalManager)
wal_log_update io w tx_id page_id offset old new =
    let payload = update_payload page_id offset old new in
    let (err, w₁) = ensure_buffer_space io w (32 + length payload % 2 ^ 16) in
    if length old == 0
    then some (0, w)
    else if ltb (length payload) (2 ^ 16)
    then some (write_record io w tx_id record_update payload)
    else if is_ok err
    then none
    else some (0, w₁)

unfoldable pub wal_log_alloc_page : (ℕ → Io) → WalManager → ℕ → ℕ → ℕ × WalManager
wal_log_alloc_page io w tx_id page_id =
    write_record io w tx_id record_alloc_page (bytes_of 4 page_id)

unfoldable pub wal_log_free_page : (ℕ → Io) → WalManager → ℕ → ℕ → ℕ × WalManager
wal_log_free_page io w tx_id page_id = write_record io w tx_id record_free_page (bytes_of 4 page_id)

unfoldable pub wal_log_commit : (ℕ → Io) → WalManager → ℕ → DbError × WalManager
wal_log_commit io w tx_id =
    let (lsn, w₁) = write_record io w tx_id record_commit [] in
    if lsn == 0
    then (DbError.full, w₁)
    else wal_flush io (record w₁ { active = remove_active_tx w₁.active tx_id })

unfoldable pub wal_log_abort : (ℕ → Io) → WalManager → ℕ → DbError × WalManager
wal_log_abort io w tx_id =
    let (lsn, w₁) = write_record io w tx_id record_abort [] in
    if lsn == 0
    then (DbError.full, w₁)
    else (DbError.ok, record w₁ { active = remove_active_tx w₁.active tx_id })

-- `flushed` is the answer of buffer_pool_flush_all.
unfoldable pub wal_checkpoint : (ℕ → Io) → (flushed : DbError) → WalManager → DbError × WalManager
wal_checkpoint io flushed w =
    let (err, w₁) =
      if ltb w.buffer_size (length w.buffer + 32) then wal_flush io w else (DbError.ok, w) in
    let header : Header = record {
      lsn = w₁.next_lsn;
      prev_lsn = 0;
      tx_id = 0;
      type = record_checkpoint;
      data_length = 0;
    } in
    let (err₂, w₂) = wal_flush io (record w₁ {
      next_lsn = (w₁.next_lsn + 1) % 2 ^ 64;
      buffer = w₁.buffer ++ header_bytes header;
    }) in
    if not (is_ok flushed)
    then (flushed, w)
    else if not (is_ok err)
    then (err, w₁)
    else if not (is_ok err₂)
    then (err₂, w₂)
    else if (io w₁.flushes).truncates
    then (DbError.ok, record w₂ { file = []; file_offset = 0 })
    else (DbError.ok, w₂)

-- `opened`, `sized` and `mapped` tell whether the kernel opens the file, gives its size, which is that
-- of the bytes, and gives the memory of the buffer.
unfoldable pub wal_init : (opened sized mapped : Bool) → List ℕ → DbError × WalManager
wal_init opened sized mapped file =
    let closed : WalManager = record {
      is_open = false;
      flushed_lsn = 0;
      next_lsn = 0;
      next_tx_id = 0;
      buffer = [];
      buffer_size = 0;
      file_offset = 0;
      active = [];
      file = file;
      flushes = 0;
    } in
    if not opened
    then (DbError.file_create, closed)
    else if not sized
    then (DbError.fstat_failed, closed)
    else if not mapped
    then (DbError.mmap_failed, record closed { file_offset = length file })
    else (
      DbError.ok,
      record closed {
        is_open = true;
        next_lsn = 1;
        next_tx_id = 1;
        buffer_size = 65536;
        file_offset = length file;
      },
    )

-- what the shutdown leaves of the file
unfoldable pub wal_shutdown : (ℕ → Io) → WalManager → List ℕ
wal_shutdown io w =
    if w.is_open && not (length w.buffer == 0) then (wal_flush io w).1.file else w.file
