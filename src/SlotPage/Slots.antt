-- ===== src/SlotPage/Slots.antt =====
-- A slot of the directory written or added.
use onion_relay.Prelude.{
  ℕ, zero, suc, ◌+◌, ◌<◌, ◌≡◌, ◌≢◌, inl, inr, refl, true, false, none, some, List, [], ◌∷◌, ◌++◌,
  length, set, arith, ap, Bool-cases,
}
use onion_relay.SlotPage.{SlotEntry, load, is_deleted, reuse_slot}
use onion_relay.SlotPage.Invariant.{content, used, deleted-length}

module _ (d : ℕ → ℕ) (slot : SlotEntry) where
  pub content-set_self :
      (slots : List SlotEntry) (i : ℕ)
      → i < length slots
      → is_deleted slot ≡ false
      → content d (set slots i slot) i ≡ some (load d slot.offset slot.length)
  unfolding content
  content-set_self [] i h live = absurd (omega arith)
  content-set_self (s ∷ slots) zero h live = rw live refl
  content-set_self (s ∷ slots) (suc i) h live = content-set_self slots i (omega arith) live

  pub content-set_free :
      (slots : List SlotEntry) (i : ℕ)
      → i < length slots
      → is_deleted slot ≡ true
      → content d (set slots i slot) i ≡ none
  unfolding content
  content-set_free [] i h gone = absurd (omega arith)
  content-set_free (s ∷ slots) zero h gone = rw gone refl
  content-set_free (s ∷ slots) (suc i) h gone = content-set_free slots i (omega arith) gone

  pub content-set_ne :
      (slots : List SlotEntry) (i j : ℕ)
      → j ≢ i
      → content d (set slots i slot) j ≡ content d slots j
  unfolding content
  content-set_ne [] i j h = refl
  content-set_ne (s ∷ slots) zero zero h = absurd (h refl)
  content-set_ne (s ∷ slots) zero (suc j) h = refl
  content-set_ne (s ∷ slots) (suc i) zero h = refl
  content-set_ne (s ∷ slots) (suc i) (suc j) h = content-set_ne slots i j (λ e. h (ap suc e))

  pub content-append_self :
      (slots : List SlotEntry)
      → is_deleted slot ≡ false
      → content d (slots ++ (slot ∷ [])) (length slots) ≡ some (load d slot.offset slot.length)
  unfolding content
  content-append_self [] live = rw live refl
  content-append_self (s ∷ slots) live = content-append_self slots live

  pub content-append_ne :
      (slots : List SlotEntry) (j : ℕ)
      → j ≢ length slots
      → content d (slots ++ (slot ∷ [])) j ≡ content d slots j
  unfolding content
  content-append_ne [] zero h = absurd (h refl)
  content-append_ne [] (suc j) h = refl
  content-append_ne (s ∷ slots) zero h = refl
  content-append_ne (s ∷ slots) (suc j) h = content-append_ne slots j (λ e. h (ap suc e))

  pub used-append :
      (slots : List SlotEntry) → used (slots ++ (slot ∷ [])) ≡ used slots + slot.length
  unfolding used
  used-append [] = omega arith
  used-append (s ∷ slots) = omega (arith, used-append slots)

  pub used-set_free :
      (slots : List SlotEntry) (i : ℕ)
      → i < length slots
      → content d slots i ≡ none
      → used (set slots i slot) ≡ used slots + slot.length
  unfolding used content
  used-set_free [] i h free = absurd (omega arith)
  used-set_free (s ∷ slots) zero h free = elim (Bool-cases (is_deleted s)) [
    | inl gone ↦ omega (arith, deleted-length s gone)
    | inr live ↦ absurd (ground arith)
  ]
  used-set_free (s ∷ slots) (suc i) h free = omega (arith, used-set_free slots i (omega arith) free)

pub content_end : (d : ℕ → ℕ) (slots : List SlotEntry) → content d slots (length slots) ≡ none
unfolding content
content_end d [] = refl
content_end d (s ∷ slots) = content_end d slots

pub reuse_slot_lem :
    (d : ℕ → ℕ) (slots : List SlotEntry) (i : ℕ)
    → reuse_slot slots ≡ some i
    → (i < length slots) × (content d slots i ≡ none)
unfolding reuse_slot content
reuse_slot_lem d [] i h = absurd cc
reuse_slot_lem d (s ∷ slots) zero h = elim (Bool-cases (is_deleted s)) [
  | inl gone ↦ (omega arith, rw gone refl)
  | inr live ↦ absurd (ground arith)
]
reuse_slot_lem d (s ∷ slots) (suc i) h = elim (Bool-cases (is_deleted s)) [
  | inl gone ↦ absurd (ground arith)
  | inr live ↦ let rest = reuse_slot_lem d slots i (ground arith) in (omega (arith, rest.0), rest.1)
]
