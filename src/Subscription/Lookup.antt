-- ===== src/Subscription/Lookup.antt =====
-- The loops over the table: the first entry that passes a test, and what a write does to it.
use onion_relay.Prelude.{
  ℕ, zero, suc, ◌+◌, ◌<◌, ◌≡◌, refl, Bool, true, false, none, some, List, [], ◌∷◌, if◌then◌else◌,
  length, get_or, set, arith, All, Option-cases, inl, inr,
}
use onion_relay.Subscription.{index_of}

module _ {ℓ} {A : Type ℓ} (test : A → Bool) where
  -- The entry found passes the test.
  pub index_of-some :
      (xs : List A) (i : ℕ) (d : A)
      → index_of test xs ≡ some i
      → (i < length xs) × (test (get_or xs i d) ≡ true)
  unfolding index_of
  index_of-some [] i d h = ground arith
  index_of-some (x ∷ xs) i d h = elim (Option-cases (index_of test xs)) [
    | inl e ↦ ground arith
    | inr (j, e) ↦ let ih = index_of-some xs j d e in ground arith
  ]

  -- No entry passes the test if none is found.
  pub index_of-none : (xs : List A) → index_of test xs ≡ none → All (λ x. test x ≡ false) xs
  unfolding index_of
  index_of-none [] h = tt
  index_of-none (x ∷ xs) h = ground (arith, index_of-none xs)

  pub index_of-All_false : (xs : List A) → All (λ x. test x ≡ false) xs → index_of test xs ≡ none
  unfolding index_of
  index_of-All_false [] h = refl
  index_of-All_false (x ∷ xs) h = ground (arith, index_of-All_false xs)

  -- A write that does not change the outcome of the test does not change what is found.
  pub index_of-set :
      (xs : List A) (i : ℕ) (d v : A)
      → test v ≡ test (get_or xs i d)
      → index_of test (set xs i v) ≡ index_of test xs
  unfolding index_of
  index_of-set [] i d v h = refl
  index_of-set (x ∷ xs) zero d v h = ground arith
  index_of-set (x ∷ xs) (suc i) d v h = ground (arith, index_of-set xs i d v)

  -- Where no entry passes the test, one that does is found where it is written.
  pub index_of-set_new :
      (xs : List A) (i : ℕ) (v : A)
      → All (λ x. test x ≡ false) xs
      → i < length xs
      → test v ≡ true
      → index_of test (set xs i v) ≡ some i
  unfolding index_of
  index_of-set_new [] i v n h t = absurd (omega arith)
  index_of-set_new (x ∷ xs) zero v n h t = ground arith
  index_of-set_new (x ∷ xs) (suc i) v n h t = ground (arith, index_of-set_new xs i v)

  pub index_of-cons :
      (x : A) (xs : List A)
      → index_of test (x ∷ xs) ≡ (
          if test x
          then some 0
          else elim (index_of test xs) [ none ↦ none | some i ↦ some (i + 1) ])
  unfolding index_of
  index_of-cons x xs = refl

  pub index_of-zero : (x : A) (xs : List A) → index_of test (x ∷ xs) ≡ some 0 → test x ≡ true
  index_of-zero x xs h = elim (Option-cases (index_of test xs)) [
    | inl e ↦ ground (arith, index_of-cons x xs)
    | inr (j, e) ↦ ground (arith, index_of-cons x xs)
  ]

  pub index_of-suc :
      (x : A) (xs : List A) (i : ℕ)
      → index_of test (x ∷ xs) ≡ some (suc i)
      → (test x ≡ false) × (index_of test xs ≡ some i)
  index_of-suc x xs i h = elim (Option-cases (index_of test xs)) [
    | inl e ↦ ground (arith, index_of-cons x xs)
    | inr (j, e) ↦ ground (arith, index_of-cons x xs)
  ]
