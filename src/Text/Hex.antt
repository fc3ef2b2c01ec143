-- ===== src/Text/Hex.antt =====
-- `hex_to_bytes` against the hexadecimal form of a list of bytes.
use native.Mathlib.Numerals.{add-one}
use onion_relay.Prelude.{
  ℕ, zero, suc, ◌+◌, ◌-◌, ◌*◌, ◌/◌, ◌%◌, ◌≤◌, ◌<◌, ◌≡◌, refl, Bool, true, some, List, [], ◌∷◌,
  if◌then◌else◌, length, get_or, ltb, arith, All, Option-cases, inl, inr, take, ◌↔◌, ==_iff,
}
use onion_relay.Text.{hex_char_value, hex_pair, hex_from, memcmp_eq}

-- one digit, in either case of letters
pub hex_digit : Bool → ℕ → ℕ
hex_digit upper d = if ltb d 10 then d + b'0' else if upper then d - 10 + b'A' else d - 10 + b'a'

pub hex_char_value-digit :
    (upper : Bool) (d : ℕ) → d < 16 → hex_char_value (hex_digit upper d) ≡ some d
unfolding hex_char_value hex_digit
hex_char_value-digit upper d h = ground arith

pub hex : Bool → List ℕ → List ℕ
hex upper [] = []
hex upper (b ∷ bs) = hex_digit upper (b / 16) ∷ hex_digit upper (b % 16) ∷ hex upper bs

hex_from-cons : (c d : ℕ) (s : List ℕ) (i n : ℕ) → hex_from (c ∷ d ∷ s) (suc i) n ≡ hex_from s i n
unfolding hex_from
hex_from-cons c d s i zero = refl
hex_from-cons c d s i (suc n) =
    let ih : hex_from (c ∷ d ∷ s) (suc i + 1) n ≡ hex_from s (i + 1) n =
      rw (add-one, add-one) (hex_from-cons c d s (suc i) n) in
    let e0 : suc i * 2 ≡ suc (suc (i * 2)) = omega arith in
    let e1 : suc (suc (i * 2)) + 1 ≡ suc (suc (i * 2 + 1)) = omega arith in rw (ih, e0, e1)

hex_pair-digits :
    (upper : Bool) (b : ℕ)
    → b < 256
    → hex_pair (hex_digit upper (b / 16)) (hex_digit upper (b % 16)) ≡ some b
unfolding hex_pair
hex_pair-digits upper b h =
    ground (arith, hex_char_value-digit upper (b / 16), hex_char_value-digit upper (b % 16))

-- The hexadecimal form of a list of bytes, in either case of letters, is read back to the bytes.
pub hex_from-hex :
    (upper : Bool) (bs : List ℕ)
    → All (λ b. b < 256) bs
    → hex_from (hex upper bs) 0 (length bs) ≡ bs
unfolding hex_from hex
hex_from-hex upper [] h = refl
hex_from-hex upper (b ∷ bs) h = rw (
  hex_pair-digits upper b h.0,
  hex_from-cons (hex_digit upper (b / 16)) (hex_digit upper (b % 16)) (hex upper bs) 0 (length bs),
  hex_from-hex upper bs h.1,
)

-- No more bytes are converted than there are pairs.
pub length-hex_from : (s : List ℕ) (i n : ℕ) → length (hex_from s i n) ≤ n
unfolding hex_from
length-hex_from s i zero = omega arith
length-hex_from s i (suc n) =
    elim (Option-cases (hex_pair (get_or s (i * 2) 0) (get_or s (i * 2 + 1) 0))) [
      | inl e ↦ rw e (omega arith)
      | inr (b, e) ↦ rw e (omega (arith, length-hex_from s (i + 1) n))
    ]

memcmp_eq-cons :
    (a b : ℕ) (s t : List ℕ) (i n : ℕ) → memcmp_eq (a ∷ s) (b ∷ t) (suc i) n ≡ memcmp_eq s t i n
unfolding memcmp_eq
memcmp_eq-cons a b s t i zero = refl
memcmp_eq-cons a b s t i (suc n) =
    let shift : memcmp_eq (a ∷ s) (b ∷ t) (suc i + 1) n ≡ memcmp_eq s t (i + 1) n =
      rw (add-one, add-one) (memcmp_eq-cons a b s t (suc i) n) in
    rw shift

-- Two areas of at least `n` bytes compare equal exactly if their first `n` bytes are the same.
pub memcmp_eq_iff :
    (s t : List ℕ) (n : ℕ)
    → n ≤ length s
    → n ≤ length t
    → (memcmp_eq s t 0 n ≡ true) ↔ (take n s ≡ take n t)
unfolding memcmp_eq
memcmp_eq_iff s t zero h k = (λ _. refl, λ _. refl)
memcmp_eq_iff [] t (suc n) h k = absurd (omega arith)
memcmp_eq_iff (a ∷ s) [] (suc n) h k = absurd (omega arith)
memcmp_eq_iff (a ∷ s) (b ∷ t) (suc n) h k =
    ground (arith, memcmp_eq-cons a b s t 0 n, memcmp_eq_iff s t n, ==_iff a b)
