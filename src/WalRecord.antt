-- ===== src/WalRecord.antt =====
-- src/nostr/db/wal/wal_types.h: the records of the write-ahead log, their headers as bytes, and the
-- loops that step through a log.
use onion_relay.Prelude.{
  ℕ, zero, suc, ◌+◌, List, [], ◌∷◌, ◌++◌, ltb, if◌then◌else◌, length, take, drop, bytes_of, number,
}

-- `WalRecordHeader`
pub record Header : Type 0 where
  pub lsn : ℕ
  pub prev_lsn : ℕ
  pub tx_id : ℕ
  pub type : ℕ
  pub data_length : ℕ

-- `WalRecordType`
abbrev pub record_begin : ℕ
record_begin = 1

abbrev pub record_commit : ℕ
record_commit = 2

abbrev pub record_abort : ℕ
record_abort = 3

abbrev pub record_update : ℕ
record_update = 4

abbrev pub record_alloc_page : ℕ
record_alloc_page = 5

abbrev pub record_free_page : ℕ
record_free_page = 6

abbrev pub record_checkpoint : ℕ
record_checkpoint = 7

-- The header as it is copied: the fields, the two bytes `padding` and four bytes that fill it up.
unfoldable pub header_bytes : Header → List ℕ
header_bytes h =
    bytes_of 8 h.lsn
    ++ (bytes_of 8 h.prev_lsn
        ++ (bytes_of 4 h.tx_id
            ++ (bytes_of 4 h.type ++ (bytes_of 2 h.data_length ++ (0 ∷ 0 ∷ 0 ∷ 0 ∷ 0 ∷ 0 ∷ [])))))

-- the header at the front of the bytes
unfoldable pub read_header : List ℕ → Header
read_header bytes = record {
  lsn = number (take 8 bytes);
  prev_lsn = number (take 8 (drop 8 bytes));
  tx_id = number (take 4 (drop 16 bytes));
  type = number (take 4 (drop 20 bytes));
  data_length = number (take 2 (drop 24 bytes));
}

-- a record of the log: its header, and the bytes of the log from its payload on
pub record LogRecord : Type 0 where
  pub header : Header
  pub payload : List ℕ

-- The steps of the loops over a log: a header is read wherever 32 bytes are left, and the next one is
-- behind its payload. A step takes 32 bytes at least, so that the length of the log is enough fuel.
unfoldable pub log_records : ℕ → List ℕ → List LogRecord
log_records zero bytes = []
log_records (suc n) bytes =
    let h = read_header bytes in
    let rest = log_records n (drop (32 + h.data_length) bytes) in
    if ltb (length bytes) 32 then [] else record { header = h; payload = drop 32 bytes } ∷ rest

-- the loop of wal_flush for the highest number
unfoldable pub max_lsn : ℕ → List LogRecord → ℕ
max_lsn lsn [] = lsn
max_lsn lsn (r ∷ rs) = max_lsn (if ltb lsn r.header.lsn then r.header.lsn else lsn) rs
