-- ===== src/WebSocket/Safety.antt =====
-- Which memory the two parsers read, and how they differ.
use onion_relay.Prelude.{
  ℕ, zero, suc, ◌+◌, ◌/◌, ◌%◌, ◌^◌, ◌≤◌, ◌<◌, ◌≡◌, refl, List, [], ◌∷◌, arith, length, ◌==◌, leb,
  true, false, Bool, Bool-cases, inl, inr,
}
use onion_relay.WebSocket.Frame.{
  Entity, Run, done, refused, fault, read, read_bytes, sub64, require, ◌>>=◌,
}
use onion_relay.WebSocket.Parse.{ext_length, read_key, to_websocket_entity_consumed}
use onion_relay.WebSocket.Masking.{length-unmask}

-- a run that does not fault, and whose result satisfies `P`
abbrev pub Safe {ℓ} : {A : Type ℓ} → Run A → (A → Type 0) → Type 0
Safe (done a) P = P a
Safe refused P = Unit
Safe fault P = ⊥

Safe-bind {ℓ κ} :
    {A : Type ℓ} {B : Type κ} (m : Run A) (f : A → Run B) (P : A → Type 0) (Q : B → Type 0)
    → Safe m P
    → ((a : A) → P a → Safe (f a) Q)
    → Safe (m >>= f) Q
Safe-bind (done a) f P Q h k = k a h
Safe-bind refused f P Q h k = tt
Safe-bind fault f P Q h k = absurd h

require-Safe : (b : Bool) → Safe (require b) (λ _. b ≡ true)
require-Safe true = refl
require-Safe false = tt

read-Safe : (raw : List ℕ) (i : ℕ) → i < length raw → Safe (read raw i) (λ _. Unit)
unfolding read
read-Safe [] i h = absurd (omega arith)
read-Safe (x ∷ raw) zero h = tt
read-Safe (x ∷ raw) (suc i) h = read-Safe raw i (omega arith)

read_bytes-Safe :
    (raw : List ℕ) (i n : ℕ) → i + n ≤ length raw → Safe (read_bytes raw i n) (λ bs. length bs ≡ n)
unfolding read_bytes
read_bytes-Safe raw i zero h = refl
read_bytes-Safe raw i (suc n) h =
    Safe-bind (read raw i) _ (λ _. Unit) _ (read-Safe raw i (omega arith))
      (λ b _.
        Safe-bind (read_bytes raw (i + 1) n) _ (λ bs. length bs ≡ n) _
          (read_bytes-Safe raw (i + 1) n (omega arith)) (λ bs e. omega arith))

ext_length-Safe :
    (raw : List ℕ) (len : ℕ)
    → 2 ≤ length raw
    → Safe (ext_length (leb 4 (length raw)) 0 raw (length raw) len) (λ r. r.1 ≤ length raw)
unfolding ext_length
ext_length-Safe raw len h = elim (Bool-cases (len == 126)) [
  | inl e ↦ rw e (
      Safe-bind (require (leb 4 (length raw))) _ (λ _. 4 ≤ length raw) _ (ground arith)
        (λ _ h4.
          Safe-bind (read raw 2) _ (λ _. Unit) _ (read-Safe raw 2 (omega arith))
            (λ hi _.
              Safe-bind (read raw 3) _ (λ _. Unit) _ (read-Safe raw 3 (omega arith))
                (λ lo _. ground arith))))
  | inr e ↦ elim (Bool-cases (len == 127)) [
    | inl e' ↦
        rw (e, e')
          (Safe-bind (require (leb 10 (length raw))) _ (λ _. 10 ≤ length raw) _ (ground arith)
            (λ _ h10.
              Safe-bind (read_bytes raw 2 8) _ (λ bs. length bs ≡ 8) _
                (read_bytes-Safe raw 2 8 (omega arith)) (λ bs _. h10)))
    | inr e' ↦ rw (e, e') h
  ]
]

read_key-Safe :
    (mask : ℕ) (old raw : List ℕ) (offset : ℕ)
    → offset ≤ length raw
    → Safe (read_key mask old raw (length raw) offset) (λ r. r.1 ≤ length raw)
unfolding read_key
read_key-Safe mask old raw offset h = elim (Bool-cases (mask == 0)) [
  | inl e ↦ rw e h
  | inr e ↦ rw e (
      Safe-bind (require (leb (offset + 4) (length raw))) _ (λ _. offset + 4 ≤ length raw) _
        (ground arith)
        (λ _ h4.
          Safe-bind (read_bytes raw offset 4) _ (λ bs. length bs ≡ 4) _
            (read_bytes-Safe raw offset 4 h4) (λ bs _. h4)))
]

-- `to_websocket_entity_consumed` stays inside a buffer of `capacity` bytes whatever they are; what
-- it consumes is no more than the buffer, and the payload is as long as the length field says.
pub consumed-Safe :
    (raw : List ℕ) (e : Entity)
    → length raw < 2 ^ 64
    → Safe
        (to_websocket_entity_consumed raw (length raw) e)
        λ r. (r.0 ≤ length raw) × (length r.1.payload ≡ r.1.ext_payload_len)
unfolding to_websocket_entity_consumed
consumed-Safe raw e h =
    Safe-bind (require (leb 2 (length raw))) _ (λ _. 2 ≤ length raw) _ (ground arith)
      (λ _ h2.
        Safe-bind (read raw 0) _ (λ _. Unit) _ (read-Safe raw 0 (omega arith))
          (λ b0 _.
            Safe-bind (read raw 1) _ (λ _. Unit) _ (read-Safe raw 1 (omega arith))
              (λ b1 _.
                Safe-bind _ _ (λ r. r.1 ≤ length raw) _ (ext_length-Safe raw (b1 % 128) h2)
                  (λ l hl.
                    Safe-bind _ _ (λ r. r.1 ≤ length raw) _
                      (read_key-Safe (b1 / 128 % 2) e.masking_key raw l.1 hl)
                      (λ k hk.
                        Safe-bind (require (leb l.0 (sub64 (length raw) k.1))) _
                          (λ _. k.1 + l.0 ≤ length raw) _ (ground arith)
                          (λ _ fits.
                            Safe-bind (read_bytes raw k.1 l.0) _ (λ bs. length bs ≡ l.0) _
                              (read_bytes-Safe raw k.1 l.0 fits)
                              (λ bs size. (fits, rw (length-unmask) size))))))))
