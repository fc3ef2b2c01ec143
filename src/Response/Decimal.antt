-- ===== src/Response/Decimal.antt =====
-- The numbers of a message, read back from their digits.
use onion_relay.Prelude.{
  subst, ◌≢◌, some, if◌then◌else◌, ◌==◌, ℕ, zero, suc, ◌+◌, ◌-◌, ◌*◌, ◌/◌, ◌%◌, ◌^◌, ◌<◌, ◌≡◌, ◌⊎◌,
  inl, inr, refl, List, [], ◌∷◌, ◌++◌, arith, ◌∙◌, ap, sym, ℕ_discrete, dec_lt, All, All-snoc, ◌≤◌,
}
use onion_relay.Response.{digits_loop, backward, uint32_text, int64_text}
use onion_relay.Response.Format.{decimal_digits, decimal_text, signed_text}

-- the number that digits stand for, after those that make `n`
unfoldable pub decimal : ℕ → List ℕ → ℕ
decimal n [] = n
decimal n (c ∷ cs) = decimal (n * 10 + (c - 48)) cs

-- the same, the last digit first
unfoldable units_first : List ℕ → ℕ
units_first [] = 0
units_first (c ∷ cs) = (c - 48) + 10 * units_first cs

decimal-append : (cs ds : List ℕ) (n : ℕ) → decimal n (cs ++ ds) ≡ decimal (decimal n cs) ds
unfolding decimal
decimal-append [] ds n = refl
decimal-append (c ∷ cs) ds n = decimal-append cs ds (n * 10 + (c - 48))

decimal-backward : (cs : List ℕ) → decimal 0 (backward cs) ≡ units_first cs
unfolding backward units_first
decimal-backward [] = unfold decimal in refl
decimal-backward (c ∷ cs) =
    decimal-append (backward cs) (c ∷ []) 0
    ∙ ap (λ n. decimal n (c ∷ [])) (decimal-backward cs)
    ∙ last c (units_first cs)
  where
    last : (c n : ℕ) → decimal n (c ∷ []) ≡ (c - 48) + 10 * n
    last c n = unfold decimal in omega arith

-- 10 ^ n
unfoldable tens : ℕ → ℕ
tens zero = 1
tens (suc n) = 10 * tens n

tens_cases : (n value : ℕ) → value < tens (suc n) → value / 10 < tens n
unfolding tens
tens_cases n value h = omega (arith, h)

digits_value : (n value : ℕ) → value < tens n → units_first (digits_loop n value) ≡ value
unfolding digits_loop units_first
digits_value zero value h = unfold tens in omega (arith, h)
digits_value (suc n) value h =
    let rest = digits_value n (value / 10) (tens_cases n value h) in ground (arith, rest)

text_value : (n value : ℕ) → value < tens n → decimal 0 (backward (digits_loop n value)) ≡ value
text_value n value h = decimal-backward (digits_loop n value) ∙ digits_value n value h

no_digits : (n : ℕ) → digits_loop n 0 ≡ []
unfolding digits_loop
no_digits zero = refl
no_digits (suc n) = refl

-- the digits that stand in `temp` are those of the number
same_digits :
    (n m value : ℕ)
    → value ≢ 0
    → value < tens n
    → value < tens m
    → backward (digits_loop n value) ≡ decimal_digits m value
unfolding digits_loop decimal_digits backward
same_digits zero m value z h k = absurd (z (unfold tens in omega (arith, h)))
same_digits (suc n) zero value z h k = absurd (z (unfold tens in omega (arith, k)))
same_digits (suc n) (suc m) value z h k = elim (dec_lt value 10) [
  | yes small ↦
      let gone : value / 10 ≡ 0 = omega (arith, small) in
      ground (arith, z, small, gone, no_digits n)
  | no large ↦
      let rest =
        same_digits n m (value / 10) (λ e. omega (arith, e, large)) (tens_cases n value h)
          (tens_cases m value k) in
      ground (arith, z, large, rest)
]

below_tens : (value : ℕ) → value < 2 ^ 63 → (value < tens 22) × (value < tens 20)
unfolding tens
below_tens value h = (omega (arith, h), omega (arith, h))

-- the digits of write_uint32
pub uint32_text-decimal_text : (value : ℕ) → value < 2 ^ 32 → uint32_text value ≡ decimal_text value
unfolding uint32_text
uint32_text-decimal_text value h = elim (ℕ_discrete value 0) [
  | yes z ↦ ground (arith, z, zero_text)
  | no n ↦
      ground (
        arith,
        n,
        same_digits 15 20 value n (below value h) (below_tens value (omega (arith, h))).1,
      )
]
  where
    below : (value : ℕ) → value < 2 ^ 32 → value < tens 15
    below value h = unfold tens in omega (arith, h)

    zero_text : decimal_text 0 ≡ 48 ∷ []
    zero_text = unfold decimal_digits in refl

-- what write_int64 has in `temp` for a magnitude
magnitude_text :
    (value : ℕ)
    → value < 2 ^ 63
    → (if value == 0 then 48 ∷ [] else backward (digits_loop 22 value)) ≡ decimal_text value
magnitude_text value h = elim (ℕ_discrete value 0) [
  | yes z ↦ ground (arith, z, zero_text)
  | no n ↦
      ground (arith, n, same_digits 22 20 value n (below_tens value h).0 (below_tens value h).1)
]
  where
    zero_text : decimal_text 0 ≡ 48 ∷ []
    zero_text = unfold decimal_digits in refl

-- the digits of write_int64, behind a minus sign for a negative number
pub int64_text-signed_text :
    (value : ℕ) → value < 2 ^ 64 → value ≢ 2 ^ 63 → int64_text value ≡ some (signed_text value)
unfolding int64_text
int64_text-signed_text value b n = elim (dec_lt value (2 ^ 63)) [
  | yes h ↦ ground (arith, n, h, magnitude_text value h)
  | no h ↦ ground (arith, n, h, magnitude_text (2 ^ 64 - value) (omega (arith, h, n)))
]

unfoldable pub IsDigit : ℕ → Type 0
IsDigit c = (48 ≤ c) × (c ≤ 57)

-- the first digit, or 48
unfoldable pub leading : List ℕ → ℕ
leading [] = 48
leading (c ∷ cs) = c

-- digits that stand for the value, at least one, and with no zero in front of others
abbrev pub IsDecimal : ℕ → List ℕ → Type 0
IsDecimal value text =
    All IsDigit text × (decimal 0 text ≡ value) × ((text ≡ 48 ∷ []) ⊎ (leading text ≢ 48))

leading-append : (cs ds : List ℕ) → leading cs ≢ 48 → leading (cs ++ ds) ≡ leading cs
unfolding leading
leading-append [] ds h = absurd (h refl)
leading-append (c ∷ cs) ds h = refl

digits_step :
    (m value : ℕ)
    → 10 ≤ value
    → decimal_digits (suc m) value ≡ decimal_digits m (value / 10) ++ ((48 + value % 10) ∷ [])
unfolding decimal_digits
digits_step m value h = ground (arith, h)

digits_one : (m value : ℕ) → value < 10 → decimal_digits (suc m) value ≡ (48 + value) ∷ []
unfolding decimal_digits
digits_one m value h = ground (arith, h)

decimal_digits-IsDecimal :
    (m value : ℕ)
    → value ≢ 0
    → value < tens m
    → All IsDigit (decimal_digits m value)
      × (decimal 0 (decimal_digits m value) ≡ value)
      × (leading (decimal_digits m value) ≢ 48)
decimal_digits-IsDecimal zero value n h = absurd (n (unfold tens in omega (arith, h)))
decimal_digits-IsDecimal (suc m) value n h = elim (dec_lt value 10) [
  | yes small ↦ rw (digits_one m value small) (one value small n)
  | no large ↦
      let (digits, same, first) =
        decimal_digits-IsDecimal m (value / 10) (λ e. omega (arith, e, large))
          (tens_cases m value h) in
      let front = decimal_digits m (value / 10) in
      let last = (48 + value % 10) ∷ [] in
      rw (digits_step m value (omega (arith, large))) (
        All-snoc IsDigit front (48 + value % 10) digits
            (unfold IsDigit in (omega arith, omega arith)),
        decimal-append front last 0 ∙ ap (λ k. decimal k last) same ∙ whole value,
        λ e. first (sym (leading-append front last first) ∙ e),
      )
]
  where
    whole : (value : ℕ) → decimal (value / 10) ((48 + value % 10) ∷ []) ≡ value
    whole value = unfold decimal in omega arith

    one :
        (value : ℕ)
        → value < 10
        → value ≢ 0
        → All IsDigit ((48 + value) ∷ [])
          × (decimal 0 ((48 + value) ∷ []) ≡ value)
          × (leading ((48 + value) ∷ []) ≢ 48)
    one value small n =
        unfold IsDigit decimal leading in
        (((omega arith, omega (arith, small)), tt), omega arith, λ e. n (omega (arith, e)))

decimal_text-IsDecimal : (value : ℕ) → value < 2 ^ 64 → IsDecimal value (decimal_text value)
decimal_text-IsDecimal value h = elim (ℕ_discrete value 0) [
  | yes z ↦ subst (λ v. IsDecimal v (decimal_text v)) (sym z) zero_IsDecimal
  | no n ↦
      let (digits, same, first) =
        decimal_digits-IsDecimal 20 value n (unfold tens in omega (arith, h)) in
      (digits, same, inr first)
]
  where
    zero_IsDecimal : IsDecimal 0 (decimal_text 0)
    zero_IsDecimal =
        unfold IsDigit decimal decimal_digits in (((omega arith, omega arith), tt), refl, inl refl)

-- For a 64-bit pattern other than that of the least int64_t, the loops of write_int64 end with the
-- decimal digits of the number, at least one and with no zero in front of others, behind a minus sign
-- if it is negative.
pub write_int64_digits :
    (value : ℕ)
    → value < 2 ^ 64
    → value ≢ 2 ^ 63
    → (digits : List ℕ) × (((value < 2 ^ 63)
          × (int64_text value ≡ some digits)
          × IsDecimal value digits)
        ⊎ (2 ^ 63 < value)
          × (int64_text value ≡ some (b'-' ∷ digits))
          × IsDecimal (2 ^ 64 - value) digits)
write_int64_digits value b n =
    let same = int64_text-signed_text value b n in
    elim (dec_lt value (2 ^ 63)) [
      | yes h ↦
          (decimal_text value, inl (h, ground (arith, same, h), decimal_text-IsDecimal value b))
      | no h ↦ (
        decimal_text (2 ^ 64 - value),
        inr (
          omega (arith, h, n),
          ground (arith, same, h),
          decimal_text-IsDecimal (2 ^ 64 - value) (omega (arith, h)),
        ),
      )
    ]
