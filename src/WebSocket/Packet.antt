-- ===== src/WebSocket/Packet.antt =====
-- src/websocket/parser/to_packet.c. The bytes written to `raw` are a list; a write at or past
-- `capacity` is a fault. `|` of disjoint bits is written as `+`.
use onion_relay.Prelude.{
  ℕ, zero, suc, ◌+◌, ◌*◌, ◌/◌, ◌%◌, bit_xor, ◌&&◌, List, [], ◌∷◌, ◌++◌, leb, ltb, ◌==◌,
  if◌then◌else◌, length, get_or, take,
}
use onion_relay.WebSocket.Frame.{Entity, Run, done, fault, require, read_bytes, ◌>>=◌, ◌>>◌}

-- the loop from `raw[offset + 7]` down, with what is left of `ext_payload_len`
unfoldable pub store_be : ℕ → ℕ → List ℕ → List ℕ × ℕ
store_be zero ext out = (out, ext)
store_be (suc n) ext out = store_be n (ext / 256) (ext % 256 ∷ out)

-- the rest of the masking, one byte at a time
unfoldable pub mask_tail : List ℕ → ℕ → List ℕ → List ℕ
mask_tail key i [] = []
mask_tail key i (b ∷ bs) = bit_xor b (get_or key (i % 4) 0) ∷ mask_tail key (i + 1) bs

-- the unrolled loop, four bytes at a time
unfoldable pub mask_payload : List ℕ → ℕ → List ℕ → List ℕ
unfolding mask_tail
mask_payload key i (a ∷ b ∷ c ∷ d ∷ bs) =
    bit_xor a (get_or key 0 0)
    ∷ bit_xor b (get_or key 1 0)
    ∷ bit_xor c (get_or key 2 0)
    ∷ bit_xor d (get_or key 3 0)
    ∷ mask_payload key (i + 4) bs
mask_payload key i bs = mask_tail key i bs

abbrev pub first_byte : Entity → ℕ
first_byte e = e.fin % 2 * 128 + e.rsv1 % 2 * 64 + e.rsv2 % 2 * 32 + e.rsv3 % 2 * 16 + e.opcode % 16

-- the second byte and the extended length, with what is left in `ext_payload_len` behind it
unfoldable pub length_bytes : ℕ → ℕ → ℕ → Run (List ℕ × ℕ)
unfolding store_be
length_bytes mask ext capacity =
    if ltb 125 ext && leb ext 0xffff
    then (do
      require (leb 4 capacity)
      done ((mask + 126) ∷ (ext / 256 % 256) ∷ (ext % 256) ∷ [], ext))
    else if ltb 0xffff ext
    then (do
      require (leb 10 capacity)
      let (bytes, left) = store_be 8 ext []
      done ((mask + 127) ∷ bytes, left))
    else done ((mask + ext) ∷ [], ext)

-- the bytes of `raw` up to the end of a write, which is a fault past the capacity
abbrev pub written : ℕ → List ℕ → Run (List ℕ)
written capacity out = if leb (length out) capacity then done out else fault

unfoldable pub key_bytes : Entity → ℕ → List ℕ → Run (List ℕ)
key_bytes e capacity out = if e.mask == 0 then done out else (do
  require (leb (length out + 4) capacity)
  written capacity (out ++ take 4 e.masking_key))

-- the return value with the bytes written
unfoldable pub to_websocket_packet : Entity → ℕ → Run (ℕ × List ℕ)
unfolding length_bytes key_bytes mask_payload
to_websocket_packet e capacity = do
  require (leb 2 capacity)
  if leb e.ext_payload_len 125 && e.mask == 0
      then (do
        bytes ← read_bytes e.payload 0 e.ext_payload_len
        packet ← written capacity (first_byte e ∷ e.ext_payload_len % 128 ∷ bytes)
        done (2 + e.ext_payload_len, packet))
      else (do
        (lengths, left) ← length_bytes (if e.mask == 0 then 0 else 128) e.ext_payload_len capacity
        header ← written capacity (first_byte e ∷ lengths)
        out ← key_bytes e capacity header
        require (leb (length out + left) capacity)
        bytes ← read_bytes e.payload 0 left
        packet ←
            written capacity
              (out ++ (if e.mask == 0 then bytes else mask_payload e.masking_key 0 bytes))
        done (length out + left, packet))
