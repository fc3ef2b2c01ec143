-- ===== src/WebSocket/Parse.antt =====
-- src/websocket/parser/to_entity.c. `raw` holds the bytes that may be read; `capacity` is the
-- argument of that name. The masks and shifts of a byte are written as `/` and `%`.
use onion_relay.Prelude.{
  ℕ, ◌+◌, ◌*◌, ◌/◌, ◌%◌, ◌^◌, bit_xor, Bool, not, List, [], ◌∷◌, leb, ◌==◌, if◌then◌else◌, get_or,
}
use onion_relay.WebSocket.Frame.{Entity, Run, done, require, read, read_bytes, sub64, ◌>>=◌, ◌>>◌}

-- `ext_payload_len = (ext_payload_len << 8) | byte`, on 64 bits
abbrev pub shift_in : ℕ → ℕ → ℕ
shift_in acc b = (acc * 256 + b) % 2 ^ 64

unfoldable pub shift_in_all : ℕ → List ℕ → ℕ
shift_in_all acc [] = acc
shift_in_all acc (b ∷ bs) = shift_in_all (shift_in acc b) bs

-- The extended length with the offset behind it. The two functions differ in the test of `capacity`
-- before the 16-bit length, and in what the 64-bit length starts from.
unfoldable pub ext_length : (room16 : Bool) (start64 : ℕ) → List ℕ → ℕ → ℕ → Run (ℕ × ℕ)
ext_length room16 start64 raw capacity len =
    if len == 126
    then (do
      require room16
      hi ← read raw 2
      lo ← read raw 3
      require (leb (hi * 256 + lo) capacity)
      done (hi * 256 + lo, 4))
    else if len == 127
    then (do require (leb 10 capacity); bs ← read_bytes raw 2 8; done (shift_in_all start64 bs, 10))
    else done (len, 2)

-- The masking key, if there is one, with the offset behind it.
unfoldable pub read_key : ℕ → List ℕ → List ℕ → ℕ → ℕ → Run (List ℕ × ℕ)
read_key mask old raw capacity offset = if mask == 0 then done (old, offset) else (do
  require (leb (offset + 4) capacity)
  key ← read_bytes raw offset 4
  done (key, offset + 4))

-- `payload_raw[i] ^ (mask ? masking_key[i % 4] : 0)` for `n` bytes from index `i` on
unfoldable pub unmask : ℕ → List ℕ → ℕ → List ℕ → List ℕ
unmask mask key i [] = []
unmask mask key i (b ∷ bs) =
    bit_xor b (if mask == 0 then 0 else get_or key (i % 4) 0) ∷ unmask mask key (i + 1) bs

unfoldable pub parse_body : (room16 : Bool) (start64 : ℕ) → List ℕ → ℕ → Entity → Run (ℕ × Entity)
parse_body room16 start64 raw capacity e = do
  require (leb 2 capacity)
  b0 ← read raw 0
  b1 ← read raw 1
  (ext, offset) ← ext_length room16 start64 raw capacity (b1 % 128)
  (key, start) ← read_key (b1 / 128 % 2) e.masking_key raw capacity offset
  require (leb ext (sub64 capacity start))
  bytes ← read_bytes raw start ext
  done (
    start + ext,
    record {
      fin = b0 / 128 % 2;
      rsv1 = b0 / 64 % 2;
      rsv2 = b0 / 32 % 2;
      rsv3 = b0 / 16 % 2;
      opcode = b0 % 16;
      mask = b1 / 128 % 2;
      payload_len = b1 % 128;
      ext_payload_len = ext;
      masking_key = key;
      payload = unmask (b1 / 128 % 2) key 0 bytes;
    },
  )

-- Its test before the 16-bit length, `capacity - 4 <= 0` on an unsigned type, fails only at 4, and
-- the 64-bit length is shifted into what the entity held before.
unfoldable pub to_websocket_entity : List ℕ → ℕ → Entity → Run Entity
unfolding parse_body
to_websocket_entity raw capacity e = do
  (consumed, e') ← parse_body (not (sub64 capacity 4 == 0)) e.ext_payload_len raw capacity e
  done e'

unfoldable pub to_websocket_entity_consumed : List ℕ → ℕ → Entity → Run (ℕ × Entity)
unfolding parse_body
to_websocket_entity_consumed raw capacity e = parse_body (leb 4 capacity) 0 raw capacity e
