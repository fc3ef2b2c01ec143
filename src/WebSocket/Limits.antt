-- ===== src/WebSocket/Limits.antt =====
-- Where the codec differs from what it means to do: the looser length test of `to_websocket_entity`,
-- and payloads past 65535 bytes in `to_websocket_packet`.
use onion_relay.Prelude.{
  ℕ, zero, suc, ◌+◌, ◌%◌, ◌^◌, ◌≤◌, ◌<◌, ◌≡◌, refl, List, [], ◌∷◌, ◌++◌, arith, length, get_elem?,
  ◌==◌, if◌then◌else◌, leb, true, Bool, not, inl, inr, some, none, Option-cases, ◌⊎◌, ◌↔◌, ap, ◌∙◌,
  length-append,
}
use onion_relay.WebSocket.Frame.{Entity, done, refused, fault, read, read_bytes, sub64, ◌>>=◌}
use onion_relay.WebSocket.Parse.{
  shift_in_all, ext_length, read_key, to_websocket_entity, to_websocket_entity_consumed,
}
use onion_relay.WebSocket.Packet.{first_byte, mask_payload, store_be, to_websocket_packet}
use onion_relay.WebSocket.Wire.{IsFrame}
use onion_relay.WebSocket.Masking.{read_bytes-append, mask_payload-eq-mask_tail, length-mask_tail}
use onion_relay.WebSocket.Print.{read_payload, take_key, take_four}
use mathlib.Core.List.{append-nil}

-- Eight bytes shift the old content of a 64-bit word out.
shift_in_all_start : (s : ℕ) (bs : List ℕ) → length bs ≡ 8 → shift_in_all s bs ≡ shift_in_all 0 bs
unfolding shift_in_all
shift_in_all_start s (a ∷ b ∷ c ∷ d ∷ e ∷ f ∷ g ∷ h ∷ []) l = omega arith
shift_in_all_start s bs l = absurd (omega arith)

read_bytes-cases :
    (raw : List ℕ) (i n : ℕ)
    → (read_bytes raw i n ≡ fault)
      ⊎ ((bs : List ℕ) × (read_bytes raw i n ≡ done bs) × (length bs ≡ n))
unfolding read_bytes
read_bytes-cases raw i zero = inr ([], refl, refl)
read_bytes-cases raw i (suc n) =
    step (Option-cases (get_elem? raw i)) (read_bytes-cases raw (i + 1) n)
  where
    step :
        (get_elem? raw i ≡ none) ⊎ ((b : ℕ) × (get_elem? raw i ≡ some b))
        → (read_bytes raw (i + 1) n ≡ fault)
          ⊎ ((bs : List ℕ) × (read_bytes raw (i + 1) n ≡ done bs) × (length bs ≡ n))
        → (read_bytes raw i (suc n) ≡ fault)
          ⊎ ((bs : List ℕ) × (read_bytes raw i (suc n) ≡ done bs) × (length bs ≡ suc n))
    step (inl e) r = inl (rw (e, read))
    step (inr (b, e)) (inl f) = inl (rw (e, read, f))
    step (inr (b, e)) (inr (bs, f, l)) = inr (b ∷ bs, rw (e, read, f), omega arith)

ext_length_start :
    (room : Bool) (s : ℕ) (raw : List ℕ) (cap len : ℕ)
    → ext_length room s raw cap len ≡ ext_length room 0 raw cap len
unfolding ext_length
ext_length_start room s raw cap len = elim (read_bytes-cases raw 2 8) [
  | inl e ↦ rw e
  | inr (bs, e, l) ↦ rw (e, shift_in_all_start s bs l)
]

-- From 5 bytes on the two parsers agree: they accept the same buffers, with the same entity,
-- whatever the length field of the entity held before.
pub to_websocket_entity-consumed :
    (raw : List ℕ) (cap : ℕ) (e : Entity)
    → 4 < cap
    → cap < 2 ^ 64
    → to_websocket_entity raw cap e ≡ (to_websocket_entity_consumed raw cap e >>= λ r. done r.1)
unfolding to_websocket_entity to_websocket_entity_consumed
to_websocket_entity-consumed raw room e h1 h2 =
    let a : not (sub64 room 4 == 0) ≡ true = ground arith in
    let b : leb 4 room ≡ true = ground arith in
    rw (a, b) (simp (ext_length_start true e.ext_payload_len raw room))

-- A frame of 2 or 3 bytes that announces a 16-bit length makes `to_websocket_entity` read past its
-- buffer: `capacity - 4` wraps.
pub to_websocket_entity_short :
    (b0 b1 : ℕ) (rest : List ℕ) (e : Entity)
    → length rest < 2
    → b1 % 128 ≡ 126
    → to_websocket_entity (b0 ∷ b1 ∷ rest) (2 + length rest) e ≡ fault
unfolding to_websocket_entity ext_length read
to_websocket_entity_short b0 b1 [] e h h2 = ground arith
to_websocket_entity_short b0 b1 (b2 ∷ []) e h h2 = ground arith
to_websocket_entity_short b0 b1 (b2 ∷ b3 ∷ rest) e h h2 = absurd (omega arith)

store_be_left : (ext : ℕ) → ext < 2 ^ 64 → (store_be 8 ext []).1 ≡ 0
unfolding store_be
store_be_left ext h = omega arith

-- the second byte and the eight bytes of the length
abbrev large_length : ℕ → ℕ → List ℕ
large_length mask ext = (mask + 127) ∷ (store_be 8 ext []).0

large_length-read :
    (m ext : ℕ) (t : List ℕ) (b0 room : ℕ)
    → ext < 2 ^ 64
    → 10 ≤ room
    → ext_length (leb 4 room) 0 (b0 ∷ (large_length m ext ++ t)) room 127 ≡ done (ext, 10)
unfolding ext_length read_bytes read shift_in_all store_be
large_length-read m ext t b0 room h1 h2 = ground arith

large_length-length : (m ext : ℕ) → length (large_length m ext) ≡ 9
unfolding store_be
large_length-length m ext = refl

abbrev large_header : Entity → List ℕ
large_header e =
    first_byte e
    ∷ (large_length (if e.mask == 0 then 0 else 128) e.ext_payload_len
        ++ (if e.mask == 0 then [] else e.masking_key))

module _ (e : Entity) (room : ℕ) (large : 0xffff < e.ext_payload_len)
    (wide : e.ext_payload_len < 2 ^ 64) (fits : 14 ≤ room) (key : length e.masking_key ≡ 4) where
  length-large_header : length (large_header e) ≡ (if e.mask == 0 then 10 else 14)
  unfolding store_be
  length-large_header = ground (arith, key)

  packet-large_header :
      to_websocket_packet e room ≡ done (if e.mask == 0 then 10 else 14, large_header e)
  unfolding to_websocket_packet read_bytes
  packet-large_header =
      ground (arith, store_be_left e.ext_payload_len wide, take_four e.masking_key key, mask_nil)
    where
      mask_nil : mask_payload e.masking_key 0 [] ≡ []
      mask_nil = refl

  parse-large_header :
      (old : Entity)
      → to_websocket_entity_consumed (large_header e) (length (large_header e)) old ≡ refused
  unfolding to_websocket_entity_consumed read read_key
  parse-large_header old = rw length-large_header (
      ground (
        arith,
        large_length-read (if e.mask == 0 then 0 else 128) e.ext_payload_len
            (if e.mask == 0 then [] else e.masking_key) (first_byte e)
            (if e.mask == 0 then 10 else 14),
        read_bytes-append (first_byte e ∷ large_length 128 e.ext_payload_len) e.masking_key [],
        large_length-length 128 e.ext_payload_len,
        append-nil e.masking_key,
      ))

  -- A payload of more than 65535 bytes is announced, but not written: `ext_payload_len` is shifted
  -- down to 0 while its bytes are stored. Only the 10 or 14 bytes of the header go out, and
  -- `to_websocket_entity_consumed` refuses them.
  pub packet_large :
      (old : Entity)
      → (p : ℕ × List ℕ) × (to_websocket_packet e room ≡ done p)
        × (p.0 ≡ (if e.mask == 0 then 10 else 14))
        × (length p.1 ≡ p.0)
        × (to_websocket_entity_consumed p.1 (length p.1) old ≡ refused)
  packet_large old = (_, packet-large_header, refl, length-large_header, parse-large_header old)

-- `to_websocket_packet` writes past `capacity` exactly for an unmasked frame of up to 125 bytes that
-- does not fit: that branch makes no test.
pub packet_fault :
    (e : Entity) (cap : ℕ)
    → IsFrame e
    → (to_websocket_packet e cap ≡ fault)
      ↔ ((2 ≤ cap) × (e.mask ≡ 0) × (e.ext_payload_len ≤ 125) × (cap < 2 + e.ext_payload_len))
unfolding to_websocket_packet
packet_fault e room v =
    let masked = mask_payload e.masking_key 0 e.payload in
    let same : length masked ≡ length e.payload =
      ap length (mask_payload-eq-mask_tail e.masking_key 0 e.payload refl)
      ∙ length-mask_tail e.masking_key 0 e.payload in
    ground (
      arith,
      read_payload e v,
      take_key e v,
      v,
      same,
      length-append e.masking_key masked,
      v.key_length,
      v.payload_length,
    )
