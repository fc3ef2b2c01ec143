-- ===== src/WebSocket/RoundTrip.antt =====
-- `to_websocket_entity_consumed` reads back what `to_websocket_packet` writes.
use mathlib.Core.List.{append_assoc}
use onion_relay.Prelude.{
  ap, sym, ◌∙◌, ℕ, ◌+◌, ◌*◌, ◌/◌, ◌%◌, ◌^◌, ◌≤◌, ◌<◌, ◌≡◌, subst, List, ◌++◌, arith, length, ltb,
  ◌==◌, if◌then◌else◌, length-append, leb,
}
use onion_relay.WebSocket.Frame.{Entity, done, read, read_bytes}
use onion_relay.WebSocket.Packet.{to_websocket_packet}
use onion_relay.WebSocket.Parse.{ext_length, read_key, unmask, to_websocket_entity_consumed}
use onion_relay.WebSocket.Masking.{read_bytes-append, unmask-mask_tail, unmask-zero}
use onion_relay.WebSocket.Wire.{
  IsFrame, wire, wire_start, parsed, wire_header, wire_key, wire_payload, length-wire,
  length-wire_payload,
}
use onion_relay.WebSocket.Print.{packet-wire, mask_tail-transformed}

read_third :
    (h k p r : List ℕ) → read_bytes ((h ++ (k ++ p)) ++ r) (length h + length k) (length p) ≡ done p
read_third h k p r =
    let regroup : (h ++ (k ++ p)) ++ r ≡ (h ++ k) ++ (p ++ r) = simp append_assoc in
    rw (← length-append h k, regroup) (read_bytes-append (h ++ k) p r)

module _ (e : Entity) (v : IsFrame e) where
  unmask-wire :
      (old : List ℕ)
      → unmask e.mask (if e.mask == 0 then old else e.masking_key) 0 (wire_payload e) ≡ e.payload
  unmask-wire old = ground (
    arith,
    ap (unmask 1 e.masking_key 0) (sym (mask_tail-transformed e.masking_key 0 e.payload))
        ∙ unmask-mask_tail e.masking_key 0 e.payload v.key_bytes v.payload_bytes,
    unmask-zero old 0 e.payload v.payload_bytes,
    v.mask,
  )

  wire_regroup :
      (rest : List ℕ) → wire e ++ rest ≡ wire_header e ++ (wire_key e ++ (wire_payload e ++ rest))
  unfolding wire
  wire_regroup rest = simp append_assoc

  read_payload-wire :
      (rest : List ℕ)
      → read_bytes (wire e ++ rest) (length (wire_header e) + length (wire_key e)) e.ext_payload_len
        ≡ done (wire_payload e)
  unfolding wire
  read_payload-wire rest =
      subst
        (λ n.
          read_bytes (wire e ++ rest) (length (wire_header e) + length (wire_key e)) n
          ≡ done (wire_payload e))
        (length-wire_payload e v) (read_third (wire_header e) (wire_key e) (wire_payload e) rest)

  module _ (old : Entity) (rest : List ℕ) (cap : ℕ) (room : length (wire e) ≤ cap) where
    length_stage :
        (len : ℕ)
        → len ≡ (if ltb 125 e.ext_payload_len then 126 else e.ext_payload_len)
        → ext_length (leb 4 cap) 0 (wire e ++ rest) cap len
          ≡ done (e.ext_payload_len, length (wire_header e))
    unfolding ext_length read
    length_stage len h = rw wire_regroup (ground (arith, length-wire e v))

    key_stage :
        read_key e.mask old.masking_key (wire e ++ rest) cap (length (wire_header e))
        ≡ done (
          if e.mask == 0 then old.masking_key else e.masking_key,
          length (wire_header e) + length (wire_key e),
        )
    unfolding read_key
    key_stage = rw wire_regroup (
        ground (
          arith,
          read_bytes-append (wire_header e) e.masking_key (wire_payload e ++ rest),
          v.key_length,
          length-wire e v,
        ))

    first_stage :
        (read (wire e ++ rest) 0 ≡ done (wire_start e))
        × (read (wire e ++ rest) 1
            ≡ done (e.mask * 128 + (if ltb 125 e.ext_payload_len then 126 else e.ext_payload_len)))
    unfolding read wire
    first_stage = ground arith

    -- A frame is read back from the front of a buffer as it was, and its length is consumed.
    pub parse-wire :
        cap < 2 ^ 64
        → to_websocket_entity_consumed (wire e ++ rest) cap old
          ≡ done (length (wire e), parsed e old)
    unfolding to_websocket_entity_consumed parsed
    parse-wire fits =
        let low : ℕ = if ltb 125 e.ext_payload_len then 126 else e.ext_payload_len in
        let e_mask : (e.mask * 128 + low) / 128 % 2 ≡ e.mask = ground (arith, v.mask) in
        ground (
          arith,
          first_stage,
          e_mask,
          length_stage ((e.mask * 128 + low) % 128),
          key_stage,
          read_payload-wire rest,
          unmask-wire old.masking_key,
          length-wire e v,
          v,
        )

-- Any frame of up to 65535 payload bytes is written, if the buffer has room for the payload and 8
-- bytes more, and what is written, with any bytes behind it, is parsed back to the same entity,
-- consuming as many bytes as were written. (`payload_len` holds the 7-bit code, and without a mask
-- the masking key stays as it was.)
pub round_trip :
    (e old : Entity) (cap : ℕ) (rest : List ℕ)
    → IsFrame e
    → e.ext_payload_len + 8 ≤ cap
    → length rest < 2 ^ 63
    → (p : ℕ × List ℕ) × (to_websocket_packet e cap ≡ done p)
      × (to_websocket_entity_consumed (p.1 ++ rest) (length (p.1 ++ rest)) old
          ≡ done (p.0, parsed e old))
round_trip e old cap rest v h hr =
    let size : length (wire e) ≤ e.ext_payload_len + 8 =
      ground (arith, length-wire e v, v.key_length) in
    (
      (length (wire e), wire e),
      packet-wire e cap v (omega arith),
      parse-wire e v old rest _ (omega (arith, length-append (wire e) rest))
          (omega (arith, length-append (wire e) rest, v.small)),
    )
