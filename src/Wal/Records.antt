-- ===== src/Wal/Records.antt =====
-- The bytes of a log and the records that its loops step through.
use onion_relay.Prelude.{
  ℕ, zero, suc, ◌+◌, ◌*◌, ◌^◌, ◌≤◌, ◌<◌, ◌≡◌, refl, false, List, [], ◌∷◌, ◌++◌, ltb, length, drop,
  All, arith, bytes_of, number-bytes_of, length-append, drop_append, drop_beyond, ◌∙◌,
}
use mathlib.Core.List.{append_assoc}
use onion_relay.WalRecord.{Header, header_bytes, read_header, LogRecord, log_records}

-- a record as it was written
pub record Written : Type 0 where
  pub header : Header
  pub payload : List ℕ

-- the fields fit their bytes, and the length is the payload's
pub record IsWritten (r : Written) : Type 0 where
  pub lsn : r.header.lsn < 2 ^ 64
  pub prev_lsn : r.header.prev_lsn < 2 ^ 64
  pub tx_id : r.header.tx_id < 2 ^ 32
  pub type : r.header.type < 2 ^ 32
  pub data_length : r.header.data_length ≡ length r.payload
  pub short : length r.payload < 2 ^ 16

unfoldable pub encode : List Written → List ℕ
encode [] = []
encode (r ∷ rs) = header_bytes r.header ++ (r.payload ++ encode rs)

-- what the loops over the log see of the records
unfoldable pub seen : List Written → List LogRecord
seen [] = []
seen (r ∷ rs) = record { header = r.header; payload = r.payload ++ encode rs } ∷ seen rs

pub encode-append : (rs ss : List Written) → encode (rs ++ ss) ≡ encode rs ++ encode ss
unfolding encode
encode-append [] ss = refl
encode-append (r ∷ rs) ss =
    rw
      (
        encode-append rs ss,
        append_assoc (header_bytes r.header) (r.payload ++ encode rs) (encode ss),
        append_assoc r.payload (encode rs) (encode ss),
      )
      refl

pub length-header_bytes : (h : Header) → length (header_bytes h) ≡ 32
unfolding header_bytes bytes_of
length-header_bytes h = refl

read-header_bytes :
    (r : Written) (tail : List ℕ)
    → IsWritten r
    → read_header (header_bytes r.header ++ tail) ≡ r.header
unfolding read_header header_bytes bytes_of
read-header_bytes r tail w =
    rw
      (
        number-bytes_of 8 r.header.lsn w.lsn,
        number-bytes_of 8 r.header.prev_lsn w.prev_lsn,
        number-bytes_of 4 r.header.tx_id w.tx_id,
        number-bytes_of 4 r.header.type w.type,
        number-bytes_of 2 r.header.data_length (omega (arith, w.data_length, w.short)),
      )
      refl

drop_header : (h : Header) (tail : List ℕ) → drop 32 (header_bytes h ++ tail) ≡ tail
unfolding header_bytes bytes_of
drop_header h tail = refl

drop_payload :
    (r : Written) (tail : List ℕ)
    → IsWritten r
    → drop (32 + r.header.data_length) (header_bytes r.header ++ (r.payload ++ tail)) ≡ tail
drop_payload r tail w =
    drop_beyond (header_bytes r.header) (r.payload ++ tail) (length r.payload)
      (32 + r.header.data_length) (omega (arith, length-header_bytes r.header, w.data_length))
    ∙ drop_append r.payload tail

long : (r : Written) (tail : List ℕ) → ltb (length (header_bytes r.header ++ tail)) 32 ≡ false
long r tail =
    ground (arith, length-append (header_bytes r.header) tail, length-header_bytes r.header)

-- For records whose fields fit their bytes, the loops over the log that they make see exactly these
-- records, in order, with any fuel above their number.
pub records_lem :
    (rs : List Written) (n : ℕ)
    → All IsWritten rs
    → length rs < n
    → log_records n (encode rs) ≡ seen rs
unfolding log_records encode seen
records_lem rs zero w h = absurd (omega arith)
records_lem [] (suc n) w h = refl
records_lem (r ∷ rs) (suc n) w h =
    let tail = r.payload ++ encode rs in
    rw
      (
        long r tail,
        read-header_bytes r tail w.0,
        drop_header r.header tail,
        drop_payload r (encode rs) w.0,
        records_lem rs n w.1 (omega arith),
      )
      refl

pub length-encode : (rs : List Written) → length rs * 32 ≤ length (encode rs)
unfolding encode
length-encode [] = omega arith
length-encode (r ∷ rs) = omega (
  arith,
  length-append (header_bytes r.header) (r.payload ++ encode rs),
  length-header_bytes r.header,
  length-append r.payload (encode rs),
  length-encode rs,
)
