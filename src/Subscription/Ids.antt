-- ===== src/Subscription/Ids.antt =====
-- When two subscription ids are the same to the relay.
use native.Mathlib.Numerals.{add-one}
use onion_relay.Prelude.{
  ℕ, zero, suc, ◌+◌, ◌≡◌, ◌≢◌, ◌↔◌, refl, sym, ap, ◌∙◌, Bool-cases, inl, inr, true, false, List, [],
  ◌∷◌, map, length, ==_iff, arith, ap₂, ltb, ◌&&◌, if◌then◌else◌,
}
use onion_relay.Text.{lower, chrcmp, chars_match, strncmp}
use onion_relay.Subscription.{same_id}

chars_match-cons :
    (a b : ℕ) (s t : List ℕ) (i n : ℕ) → chars_match (a ∷ s) (b ∷ t) (suc i) n ≡ chars_match s t i n
unfolding chars_match
chars_match-cons a b s t i zero = refl
chars_match-cons a b s t i (suc n) =
    let shift : chars_match (a ∷ s) (b ∷ t) (suc i + 1) n ≡ chars_match s t (i + 1) n =
      rw (add-one, add-one) (chars_match-cons a b s t (suc i) n) in
    rw shift

chars_match_iff :
    (s t : List ℕ)
    → length s ≡ length t
    → (chars_match s t 0 (length s) ≡ true) ↔ (map lower s ≡ map lower t)
unfolding chars_match chrcmp
chars_match_iff [] [] h = ground arith
chars_match_iff [] (b ∷ t) h = absurd (omega arith)
chars_match_iff (a ∷ s) [] h = absurd (omega arith)
chars_match_iff (a ∷ s) (b ∷ t) h =
    ground (
      arith,
      chars_match-cons a b s t 0 (length s),
      chars_match_iff s t,
      ==_iff (lower a) (lower b),
    )

length-map-lower : (s : List ℕ) → length (map lower s) ≡ length s
length-map-lower [] = refl
length-map-lower (c ∷ s) = ap suc (length-map-lower s)

same_id-lower : (s t : List ℕ) → (same_id s t ≡ true) ↔ ((s ≢ []) × (map lower s ≡ map lower t))
unfolding same_id strncmp
same_id-lower [] t = (λ h. ground arith, λ h. absurd (h.0 refl))
same_id-lower (a ∷ s) t = (
  λ h. (λ e. cc, (chars_match_iff (a ∷ s) t (ground arith)).0 (ground arith)),
  λ h.
      let size : length (a ∷ s) ≡ length t =
        (sym (length-map-lower (a ∷ s)) ∙ ap length h.1) ∙ length-map-lower t in
      ground (arith, (chars_match_iff (a ∷ s) t size).1 h.1),
)

-- a capital letter of ASCII is read as its small one
pub folded : ℕ → ℕ
folded c = if ltb 64 c && ltb c 91 then c + 32 else c

lower-folded : (c : ℕ) → lower c ≡ folded c
unfolding lower folded
lower-folded c = ground arith

map-lower : (s : List ℕ) → map lower s ≡ map folded s
map-lower [] = refl
map-lower (c ∷ s) = ap₂ (λ x xs. x ∷ xs) (lower-folded c) (map-lower s)

-- Two ids are the same exactly if they are not empty and differ in the case of ASCII letters at most.
pub same_id_iff : (s t : List ℕ) → (same_id s t ≡ true) ↔ ((s ≢ []) × (map folded s ≡ map folded t))
same_id_iff s t = (
  λ h. let (ne, p) = (same_id-lower s t).0 h in (ne, sym (map-lower s) ∙ p ∙ map-lower t),
  λ h. (same_id-lower s t).1 (h.0, map-lower s ∙ h.1 ∙ sym (map-lower t)),
)

pub same_id_refl : (s : List ℕ) → s ≢ [] → same_id s s ≡ true
same_id_refl s h = (same_id-lower s s).1 (h, refl)

-- An empty id is the same as none, itself included.
pub same_id_nil : (t : List ℕ) → same_id [] t ≡ false
unfolding same_id strncmp
same_id_nil t = ground arith

ne_nil : (s t : List ℕ) → s ≢ [] → map lower s ≡ map lower t → t ≢ []
ne_nil [] t h e = absurd (h refl)
ne_nil (a ∷ s) [] h e = cc
ne_nil (a ∷ s) (b ∷ t) h e = λ p. cc

pub same_id_symm : (s t : List ℕ) → same_id s t ≡ same_id t s
same_id_symm s t = elim (Bool-cases (same_id s t)) [
  | inl e ↦
      let (ne, p) = (same_id-lower s t).0 e in
      e ∙ sym ((same_id-lower t s).1 (ne_nil s t ne p, sym p))
  | inr e ↦ elim (Bool-cases (same_id t s)) [
    | inl e' ↦
        let (ne, p) = (same_id-lower t s).0 e' in
        let q : same_id s t ≡ true = (same_id-lower s t).1 (ne_nil t s ne p, sym p) in cc
    | inr e' ↦ e ∙ sym e'
  ]
]

-- Two ids that are the same stand in the same relation to a third.
pub same_id_congr : (s t u : List ℕ) → same_id s t ≡ true → same_id s u ≡ true → same_id t u ≡ true
same_id_congr s t u h k =
    let (ne, p) = (same_id-lower s t).0 h in
    let (_, q) = (same_id-lower s u).0 k in (same_id-lower t u).1 (ne_nil s t ne p, sym p ∙ q)
