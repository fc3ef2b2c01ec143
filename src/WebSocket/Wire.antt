-- ===== src/WebSocket/Wire.antt =====
-- The frame format of RFC 6455 that both directions of the codec are held to, for payloads up to
-- 65535 bytes.
use onion_relay.Prelude.{
  ℕ, ◌+◌, ◌*◌, ◌/◌, ◌%◌, ◌≤◌, ◌<◌, ◌≡◌, List, [], ◌∷◌, ◌++◌, arith, length, All, ltb, ◌==◌,
  if◌then◌else◌, length-append, bit_xor, get_or, ap, suc, refl,
}
use onion_relay.WebSocket.Frame.{Entity}
use onion_relay.WebSocket.Masking.{IsByte}

-- An entity that stands for one frame: its fields in range, its payload as long as it says.
pub record IsFrame (e : Entity) : Type 0 where
  pub fin : e.fin < 2
  pub rsv1 : e.rsv1 < 2
  pub rsv2 : e.rsv2 < 2
  pub rsv3 : e.rsv3 < 2
  pub opcode : e.opcode < 16
  pub mask : e.mask < 2
  pub key_length : length e.masking_key ≡ 4
  pub key_bytes : All IsByte e.masking_key
  pub payload_bytes : All IsByte e.payload
  pub payload_length : length e.payload ≡ e.ext_payload_len
  pub small : e.ext_payload_len ≤ 0xffff

-- FIN, RSV1, RSV2, RSV3 and the four bits of the opcode, the first bit first
abbrev pub wire_start : Entity → ℕ
wire_start e = (((e.fin * 2 + e.rsv1) * 2 + e.rsv2) * 2 + e.rsv3) * 16 + e.opcode

-- octet i of the payload, where the list begins with octet `i`, is combined with octet i modulo 4 of the key
unfoldable pub transformed : List ℕ → ℕ → List ℕ → List ℕ
transformed key i [] = []
transformed key i (octet ∷ rest) =
    bit_xor octet (get_or key (i % 4) 0) ∷ transformed key (i + 1) rest

pub length-transformed :
    (key : List ℕ) (i : ℕ) (bs : List ℕ) → length (transformed key i bs) ≡ length bs
unfolding transformed
length-transformed key i [] = refl
length-transformed key i (b ∷ bs) = ap suc (length-transformed key (i + 1) bs)

abbrev pub wire_length : Entity → List ℕ
wire_length e =
    if ltb 125 e.ext_payload_len
    then (e.mask * 128 + 126) ∷ (e.ext_payload_len / 256) ∷ (e.ext_payload_len % 256) ∷ []
    else (e.mask * 128 + e.ext_payload_len) ∷ []

abbrev pub wire_key : Entity → List ℕ
wire_key e = if e.mask == 0 then [] else e.masking_key

abbrev pub wire_payload : Entity → List ℕ
wire_payload e = if e.mask == 0 then e.payload else transformed e.masking_key 0 e.payload

abbrev pub wire_header : Entity → List ℕ
wire_header e = wire_start e ∷ wire_length e

unfoldable pub wire : Entity → List ℕ
wire e = wire_header e ++ (wire_key e ++ wire_payload e)

-- What a parser makes of the frame of `e`, when its entity held `old` before.
unfoldable pub parsed : Entity → Entity → Entity
parsed e old = record e {
  payload_len = if ltb 125 e.ext_payload_len then 126 else e.ext_payload_len;
  masking_key = if e.mask == 0 then old.masking_key else e.masking_key;
}

pub length-wire_payload : (e : Entity) → IsFrame e → length (wire_payload e) ≡ e.ext_payload_len
length-wire_payload e v = ground (arith, length-transformed e.masking_key 0 e.payload)

pub length-wire :
    (e : Entity)
    → IsFrame e
    → length (wire e) ≡ length (wire_header e) + length (wire_key e) + e.ext_payload_len
unfolding wire
length-wire e v = omega (
  arith,
  length-append (wire_header e) (wire_key e ++ wire_payload e),
  length-append (wire_key e) (wire_payload e),
  length-wire_payload e v,
)
