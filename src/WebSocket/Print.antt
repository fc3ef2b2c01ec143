-- ===== src/WebSocket/Print.antt =====
-- `to_websocket_packet` against the frame format.
use onion_relay.Prelude.{
  ◌∙◌, ◌∷◌, ◌+◌, ◌%◌, ap, bit_xor, get_or, ℕ, ◌≤◌, ◌≡◌, refl, List, [], arith, length, take,
  take-length,
}
use onion_relay.WebSocket.Frame.{Entity, done, read_bytes}
use onion_relay.WebSocket.Packet.{first_byte, mask_tail, to_websocket_packet}
use onion_relay.WebSocket.Masking.{read_bytes-append, mask_payload-eq-mask_tail}
use mathlib.Core.List.{append-nil}
use onion_relay.WebSocket.Wire.{
  IsFrame, wire_start, transformed, wire, length-wire, length-wire_payload,
}

pub read_payload :
    (e : Entity) → IsFrame e → read_bytes e.payload 0 e.ext_payload_len ≡ done e.payload
read_payload e v = rw (← v.payload_length) (rw append-nil at (read_bytes-append [] e.payload []))

pub take_four : (key : List ℕ) → length key ≡ 4 → take 4 key ≡ key
take_four key h = rw (← h) (take-length key)

pub take_key : (e : Entity) → IsFrame e → take 4 e.masking_key ≡ e.masking_key
take_key e v = take_four e.masking_key v.key_length

pub mask_tail-transformed :
    (key : List ℕ) (i : ℕ) (bs : List ℕ) → mask_tail key i bs ≡ transformed key i bs
unfolding mask_tail transformed
mask_tail-transformed key i [] = refl
mask_tail-transformed key i (b ∷ bs) =
    ap (λ rest. bit_xor b (get_or key (i % 4) 0) ∷ rest) (mask_tail-transformed key (i + 1) bs)

pub first_byte-wire_start : (e : Entity) → IsFrame e → first_byte e ≡ wire_start e
first_byte-wire_start e v = omega (arith, v.fin, v.rsv1, v.rsv2, v.rsv3, v.opcode)

module _ (e : Entity) (cap : ℕ) (v : IsFrame e) (room : length (wire e) ≤ cap) where
  -- A frame of up to 65535 bytes is written as the format says, if it fits.
  pub packet-wire : to_websocket_packet e cap ≡ done (length (wire e), wire e)
  unfolding to_websocket_packet wire
  packet-wire = ground (
    arith,
    length-wire e v,
    length-wire_payload e v,
    read_payload e v,
    take_key e v,
    first_byte-wire_start e v,
    mask_payload-eq-mask_tail e.masking_key 0 e.payload refl
        ∙ mask_tail-transformed e.masking_key 0 e.payload,
    v.key_length,
  )
