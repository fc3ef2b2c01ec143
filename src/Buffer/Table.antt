-- ===== src/Buffer/Table.antt =====
-- The hash table as a map from pages to frames: what a search finds.
use onion_relay.Prelude.{
  ℕ, zero, suc, ◌<◌, ◌≡◌, ◌≢◌, ◌⊎◌, inl, inr, refl, false, Option, none, some, List, [], ◌∷◌, ◌==◌,
  length, get_or, arith, Option-cases, ◌∙◌, ap, sym, ℕ_discrete,
}
use native.Mathlib.Nat.{mod-lt}
use onion_relay.Buffer.{Frame, frame_at, hash_page_id, probe, find_slot, hash_lookup}
use onion_relay.Buffer.Cycle.{next, next-cases, steps, steps-cases, steps_next, on_way_next}

abbrev pub slot : List (Option ℕ) → ℕ → Option ℕ
slot table i = get_or table i none

abbrev pub page_of : List Frame → ℕ → ℕ
page_of frames f = (frame_at frames f).page_id

-- the slot at which a search for the page of a frame begins
abbrev pub home : List (Option ℕ) → List Frame → ℕ → ℕ
home table frames f = hash_page_id (page_of frames f) (length table)

-- no entry of the table is of the page
abbrev pub IsAbsent : List (Option ℕ) → List Frame → ℕ → Type 0
IsAbsent table frames p = (i f : ℕ) → slot table i ≡ some f → page_of frames f ≢ p

-- The entries are frames of different pages, and no slot is free on the way from the home of an entry
-- to its slot.
pub record IsTable (table : List (Option ℕ)) (frames : List Frame) : Type 0 where
  pub inside : (i f : ℕ) → slot table i ≡ some f → f < length frames
  pub distinct :
      (i j f g : ℕ)
      → slot table i ≡ some f
      → slot table j ≡ some g
      → page_of frames f ≡ page_of frames g
      → i ≡ j
  pub reach :
      (i x f : ℕ)
      → slot table i ≡ some f
      → x < length table
      → steps (length table) (home table frames f) x < steps (length table) (home table frames f) i
      → slot table x ≢ none

pub slot_bound : (table : List (Option ℕ)) (i f : ℕ) → slot table i ≡ some f → i < length table
slot_bound [] i f h = absurd (ground (arith, h))
slot_bound (x ∷ table) zero f h = omega arith
slot_bound (x ∷ table) (suc i) f h = omega (arith, slot_bound table i f h)

pub home_bound :
    (table : List (Option ℕ)) (p : ℕ)
    → 0 < length table
    → hash_page_id p (length table) < length table
unfolding hash_page_id
home_bound table p h = mod-lt _ h

-- A frame that the table gives for a slot.
pub filled : (o : Option ℕ) → o ≢ none → (f : ℕ) × (o ≡ some f)
filled none h = absurd (h refl)
filled (some f) h = (f, refl)

pub steps_self : (m a : ℕ) → steps m a a ≡ 0
unfolding steps
steps_self m a = ground arith

pub steps_positive : (m a b : ℕ) → a < m → b < m → a ≢ b → 0 < steps m a b
steps_positive m a b h k n = ground (arith, steps-cases m a b)

pub steps_bound : (m a b : ℕ) → a < m → b < m → steps m a b < m
steps_bound m a b h k = ground (arith, steps-cases m a b)

pub next_bound : (m a : ℕ) → a < m → next m a < m
next_bound m a h = ground (arith, next-cases m a h)

differs : (a b : ℕ) → a ≢ b → (a == b) ≡ false
differs a b h = ground arith

module _ (table : List (Option ℕ)) (frames : List Frame) (p : ℕ) where
  probe_here :
      (idx f n : ℕ)
      → slot table idx ≡ some f
      → page_of frames f ≡ p
      → probe table frames p idx (suc n) ≡ some idx
  unfolding probe
  probe_here idx f n e same = ground (arith, e, same)

  probe_on :
      (idx f n : ℕ)
      → slot table idx ≡ some f
      → page_of frames f ≢ p
      → probe table frames p idx (suc n) ≡ probe table frames p (next (length table) idx) n
  unfolding probe
  probe_on idx f n e other = ground (arith, e, other)

  probe_stop : (idx n : ℕ) → slot table idx ≡ none → probe table frames p idx (suc n) ≡ none
  unfolding probe
  probe_stop idx n e = ground (arith, e)

  probe_found :
      (i f : ℕ)
      → slot table i ≡ some f
      → page_of frames f ≡ p
      → ((j g : ℕ) → slot table j ≡ some g → page_of frames g ≡ p → j ≡ i)
      → (n idx : ℕ) → idx < length table
      → ((x : ℕ)
          → x < length table
          → steps (length table) idx x < steps (length table) idx i
          → slot table x ≢ none)
      → steps (length table) idx i < n
      → probe table frames p idx n ≡ some i
  probe_found i f e same only zero idx inside full enough = absurd (omega (arith, enough))
  probe_found i f e same only (suc n) idx inside full enough = elim (ℕ_discrete idx i) [
    | yes here ↦ rw here (probe_here i f n e same)
    | no far ↦
        let m = length table in
        let bound = slot_bound table i f e in
        let (g, there) = filled (slot table idx) (
          full idx inside
            (omega (arith, steps_self m idx, steps_positive m idx i inside bound far))) in
        let less = steps_next m idx i inside bound far in
        probe_on idx g n there (λ q. far (only idx g there q))
        ∙ probe_found i f e same only n (next m idx) (next_bound m idx inside)
            (λ x h w. full x h (on_way_next m idx i x inside bound h far w))
            (omega (arith, less, enough))
  ]

  probe_absent : (n idx : ℕ) → IsAbsent table frames p → probe table frames p idx n ≡ none
  probe_absent zero idx a = unfold probe in refl
  probe_absent (suc n) idx a = elim (Option-cases (slot table idx)) [
    | inl e ↦ probe_stop idx n e
    | inr (f, e) ↦ probe_on idx f n e (a idx f e) ∙ probe_absent n (next (length table) idx) a
  ]

  probe_nothing : (idx i : ℕ) → probe table frames p idx zero ≡ some i → ⊥
  unfolding probe
  probe_nothing idx i h = ground (arith, h)

  probe_sound :
      (n idx i : ℕ)
      → probe table frames p idx n ≡ some i
      → (f : ℕ) × (slot table i ≡ some f) × (page_of frames f ≡ p)
  probe_sound zero idx i h = absurd (probe_nothing idx i h)
  probe_sound (suc n) idx i h = elim (Option-cases (slot table idx)) [
    | inl e ↦ absurd (ground (arith, sym (probe_stop idx n e) ∙ h))
    | inr (f, e) ↦ elim (ℕ_discrete (page_of frames f) p) [
      | yes same ↦
          let here : some idx ≡ some i = sym (probe_here idx f n e same) ∙ h in
          let at : idx ≡ i = ground (arith, here) in (f, rw (sym at) e, same)
      | no other ↦ probe_sound n (next (length table) idx) i (sym (probe_on idx f n e other) ∙ h)
    ]
  ]

lookup_of :
    (table : List (Option ℕ)) (frames : List Frame) (p i f : ℕ)
    → find_slot table frames p ≡ some i
    → slot table i ≡ some f
    → hash_lookup table frames p ≡ some f
unfolding hash_lookup
lookup_of table frames p i f found e = ground (arith, found, e)

lookup_none :
    (table : List (Option ℕ)) (frames : List Frame) (p : ℕ)
    → find_slot table frames p ≡ none
    → hash_lookup table frames p ≡ none
unfolding hash_lookup
lookup_none table frames p found = ground (arith, found)

module _ {table : List (Option ℕ)} {frames : List Frame} (v : IsTable table frames) where
  -- An entry is found.
  pub found_lem :
      (p i f : ℕ) → slot table i ≡ some f → page_of frames f ≡ p → find_slot table frames p ≡ some i
  unfolding find_slot
  found_lem p i f e same =
      let m = length table in
      let bound = slot_bound table i f e in
      let start : home table frames f ≡ hash_page_id p m = ap (λ q. hash_page_id q m) same in
      let inside = home_bound table p (omega (arith, bound)) in
      probe_found table frames p i f e same (λ j g h q. v.distinct j i g f h e (q ∙ sym same)) m
        (hash_page_id p m) inside (λ x h w. v.reach i x f e h (rw start w))
        (steps_bound m (hash_page_id p m) i inside bound)

  pub lookup-some :
      (p i f : ℕ)
      → slot table i ≡ some f
      → page_of frames f ≡ p
      → hash_lookup table frames p ≡ some f
  lookup-some p i f e same = lookup_of table frames p i f (found_lem p i f e same) e

pub absent_lem :
    (table : List (Option ℕ)) (frames : List Frame) (p : ℕ)
    → IsAbsent table frames p
    → find_slot table frames p ≡ none
unfolding find_slot
absent_lem table frames p a =
    probe_absent table frames p (length table) (hash_page_id p (length table)) a

pub lookup-none :
    (table : List (Option ℕ)) (frames : List Frame) (p : ℕ)
    → IsAbsent table frames p
    → hash_lookup table frames p ≡ none
lookup-none table frames p a = lookup_none table frames p (absent_lem table frames p a)

-- A search finds the entry of the page, or there is none.
pub find-cases :
    (table : List (Option ℕ)) (frames : List Frame) (p : ℕ)
    → IsTable table frames
    → ((i : ℕ) × (f : ℕ) × (find_slot table frames p ≡ some i)
        × (slot table i ≡ some f)
        × (page_of frames f ≡ p))
      ⊎ (find_slot table frames p ≡ none) × IsAbsent table frames p
find-cases table frames p v = elim (Option-cases (find_slot table frames p)) [
  | inr (i, e) ↦
      let (f, at, same) =
        probe_sound table frames p (length table) (hash_page_id p (length table)) i
          (unfold find_slot in e) in
      inl (i, f, e, at, same)
  | inl e ↦ inr (e, λ i f at same. ground (arith, sym e ∙ found_lem v p i f at same))
]
