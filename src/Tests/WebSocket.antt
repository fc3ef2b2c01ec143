-- ===== src/Tests/WebSocket.antt =====
-- The frame codec on a short masked frame, and its theorems at concrete frames.
use onion_relay.Prelude.{ℕ, ◌+◌, ◌≤◌, ◌<◌, ◌≡◌, ◌↔◌, refl, List, [], ◌∷◌, ◌++◌, arith, length}
use onion_relay.WebSocket.Frame.{Entity, done, refused, fault, read_bytes, ◌>>=◌}
use onion_relay.WebSocket.Parse.{to_websocket_entity, to_websocket_entity_consumed}
use onion_relay.WebSocket.Packet.{to_websocket_packet, mask_payload, mask_tail}
use onion_relay.WebSocket.Wire.{transformed, IsFrame, wire, parsed}
use onion_relay.WebSocket.RoundTrip.{round_trip}
use onion_relay.WebSocket.Print.{packet-wire}
use onion_relay.WebSocket.Masking.{mask_payload-eq-mask_tail}
use onion_relay.WebSocket.Safety.{Safe, consumed-Safe}
use onion_relay.WebSocket.Limits.{
  to_websocket_entity-consumed, to_websocket_entity_short, packet_large, packet_fault,
}

-- "Hi!!!" as a masked text frame
abbrev hello : Entity
hello = record {
  fin = 1;
  rsv1 = 0;
  rsv2 = 0;
  rsv3 = 0;
  opcode = 1;
  mask = 1;
  payload_len = 5;
  ext_payload_len = 5;
  masking_key = 1 ∷ 2 ∷ 3 ∷ 4 ∷ [];
  payload = 72 ∷ 105 ∷ 33 ∷ 33 ∷ 33 ∷ [];
}

abbrev blank : Entity
blank = record hello {
  mask = 0;
  masking_key = 9 ∷ 9 ∷ 9 ∷ 9 ∷ [];
  payload = [];
  ext_payload_len = 0;
}

abbrev huge : Entity
huge = record hello { ext_payload_len = 70000 }

hello-IsFrame : IsFrame hello
hello-IsFrame = omega arith

blank-IsFrame : IsFrame blank
blank-IsFrame = omega arith

hello_packet :
    to_websocket_packet hello 64
    ≡ done (11, 129 ∷ 133 ∷ 1 ∷ 2 ∷ 3 ∷ 4 ∷ 73 ∷ 107 ∷ 34 ∷ 37 ∷ 32 ∷ [])
unfolding to_websocket_packet read_bytes
hello_packet = refl

packet-wire_example : to_websocket_packet hello 13 ≡ done (length (wire hello), wire hello)
packet-wire_example = packet-wire hello 13 hello-IsFrame (unfold wire transformed in omega arith)

round_trip_example :
    (p : ℕ × List ℕ) × (to_websocket_packet hello 13 ≡ done p)
    × (to_websocket_entity_consumed (p.1 ++ (7 ∷ [])) (length (p.1 ++ (7 ∷ []))) blank
        ≡ done (p.0, parsed hello blank))
round_trip_example = round_trip hello blank 13 (7 ∷ []) hello-IsFrame (omega arith) (omega arith)

mask_payload-eq-mask_tail_example :
    mask_payload (1 ∷ 2 ∷ 3 ∷ 4 ∷ []) 0 hello.payload
    ≡ mask_tail (1 ∷ 2 ∷ 3 ∷ 4 ∷ []) 0 hello.payload
mask_payload-eq-mask_tail_example =
    mask_payload-eq-mask_tail (1 ∷ 2 ∷ 3 ∷ 4 ∷ []) 0 hello.payload refl

abbrev cut_frame : List ℕ
cut_frame = 129 ∷ 255 ∷ 0 ∷ []

consumed-Safe_example :
    Safe
      (to_websocket_entity_consumed cut_frame (length cut_frame) blank)
      λ r. (r.0 ≤ length cut_frame) × (length r.1.payload ≡ r.1.ext_payload_len)
consumed-Safe_example = consumed-Safe cut_frame blank (omega arith)

to_websocket_entity-consumed_example :
    to_websocket_entity (129 ∷ 131 ∷ 1 ∷ 2 ∷ 3 ∷ 4 ∷ 5 ∷ 6 ∷ 7 ∷ []) 9 hello ≡ (
      to_websocket_entity_consumed (129 ∷ 131 ∷ 1 ∷ 2 ∷ 3 ∷ 4 ∷ 5 ∷ 6 ∷ 7 ∷ []) 9 hello >>= λ r.
      done r.1)
to_websocket_entity-consumed_example =
    to_websocket_entity-consumed (129 ∷ 131 ∷ 1 ∷ 2 ∷ 3 ∷ 4 ∷ 5 ∷ 6 ∷ 7 ∷ []) 9 hello (omega arith)
      (omega arith)

to_websocket_entity_short_example : to_websocket_entity (129 ∷ 126 ∷ 0 ∷ []) (2 + 1) blank ≡ fault
to_websocket_entity_short_example =
    to_websocket_entity_short 129 126 (0 ∷ []) blank (omega arith) refl

packet_large_example :
    (p : ℕ × List ℕ) × (to_websocket_packet huge 100000 ≡ done p)
    × (p.0 ≡ 14)
    × (length p.1 ≡ p.0)
    × (to_websocket_entity_consumed p.1 (length p.1) blank ≡ refused)
packet_large_example = packet_large huge 100000 (omega arith) (omega arith) (omega arith) refl blank

packet_fault_example :
    (to_websocket_packet blank 2 ≡ fault) ↔ ((2 ≤ 2) × (blank.mask ≡ 0) × (0 ≤ 125) × (2 < 2 + 0))
packet_fault_example = packet_fault blank 2 blank-IsFrame
