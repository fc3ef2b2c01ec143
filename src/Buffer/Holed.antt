-- ===== src/Buffer/Holed.antt =====
-- The hash table while the gap of a removed entry is closed.
use onion_relay.Prelude.{
  ℕ, ◌+◌, ◌≤◌, ◌<◌, ◌≡◌, ◌≢◌, inl, inr, Option, none, some, List, length, set, length-set, arith,
  ◌∙◌, ap, sym, subst,
}
use onion_relay.Buffer.{Frame, hash_page_id}
use onion_relay.Buffer.Cycle.{next, next-cases, steps, steps-cases}
use onion_relay.Buffer.Table.{slot, page_of, home, IsTable, slot_bound, home_bound}
use onion_relay.Buffer.Insert.{slot-set}

-- The entry at the gap does not count. No slot but the gap is free on the way from an entry's home to
-- it, and the gap is not on the way to the entries up to the slot `j`.
pub record IsHoled (table : List (Option ℕ)) (frames : List Frame) (gap j : ℕ) : Type 0 where
  pub stale : ℕ
  pub at_gap : slot table gap ≡ some stale
  pub inside : (i f : ℕ) → i ≢ gap → slot table i ≡ some f → f < length frames
  pub distinct :
      (i l f g : ℕ)
      → i ≢ gap
      → l ≢ gap
      → slot table i ≡ some f
      → slot table l ≡ some g
      → page_of frames f ≡ page_of frames g
      → i ≡ l
  pub reach :
      (i x f : ℕ)
      → i ≢ gap
      → slot table i ≡ some f
      → x < length table
      → x ≢ gap
      → steps (length table) (home table frames f) x < steps (length table) (home table frames f) i
      → slot table x ≢ none
  pub scanned :
      (i f : ℕ)
      → i ≢ gap
      → slot table i ≡ some f
      → steps (length table) gap i ≤ steps (length table) gap j
      → steps (length table) (home table frames f) i
        ≤ steps (length table) (home table frames f) gap

pub next_of :
    (m gap j e : ℕ)
    → gap < m
    → j < m
    → e < m
    → steps m gap j < steps m gap e
    → (next m j ≢ gap) × (steps m gap (next m j) ≡ steps m gap j + 1)
next_of m gap j e g h k w = (
  λ q. ground (arith, next-cases m j h, steps-cases m gap j, steps-cases m gap e, q),
  ground (
    arith,
    next-cases m j h,
    steps-cases m gap j,
    steps-cases m gap e,
    steps-cases m gap (next m j),
  ),
)

pub steps_same : (m gap i j : ℕ) → gap < m → i < m → j < m → steps m gap i ≡ steps m gap j → i ≡ j
steps_same m gap i j g h k e = ground (arith, steps-cases m gap i, steps-cases m gap j, e)

-- What is behind the gap on the way to an entry that has the gap on its way is itself on its way.
behind :
    (m k gap j i : ℕ)
    → k < m
    → gap < m
    → j < m
    → i < m
    → steps m k gap < steps m k i
    → steps m gap j < steps m gap i
    → steps m k j < steps m k i
behind m k gap j i a b c d w u = ground (
  arith,
  steps-cases m k gap,
  steps-cases m k i,
  steps-cases m gap j,
  steps-cases m gap i,
  steps-cases m k j,
)

-- The gap has no entry on whose way it lies when the next slot is free.
pub closed-IsTable :
    (table : List (Option ℕ)) (frames : List Frame) (gap j e : ℕ)
    → IsHoled table frames gap j
    → j < length table
    → e < length table
    → steps (length table) gap j < steps (length table) gap e
    → slot table (next (length table) j) ≡ none
    → next (length table) j < length table
    → IsTable (set table gap none) frames
closed-IsTable table frames gap j e v jb eb before free nb =
    let m = length table in
    let gb = slot_bound table gap v.stale v.at_gap in
    let len : length (set table gap none) ≡ m = length-set table gap none in
    let (away, one) = next_of m gap j e gb jb eb before in
    record {
      inside = λ i f h. let (n, at) = old gb i f h in v.inside i f n at;
      distinct = λ i l f g h k q.
          let (n, at) = old gb i f h in
          let (n', at') = old gb l g k in v.distinct i l f g n n' at at' q;
      reach = λ i x f h xb w.
          let (n, at) = old gb i f h in
          let k = hash_page_id (page_of frames f) m in
          let kb = home_bound table (page_of frames f) (omega (arith, gb)) in
          let ib = slot_bound table i f at in
          let xb' : x < m = omega (arith, xb, len) in
          let w' : steps m k x < steps m k i =
            subst
              (λ s.
                steps s (hash_page_id (page_of frames f) s) x
                < steps s (hash_page_id (page_of frames f) s) i)
              len w in
          elim (slot-set table gap x none gb) [
            | inr (other, s) ↦ λ q. v.reach i x f n at xb' other w' (sym s ∙ q)
            | inl (here, s) ↦
                let on_way : steps m k gap < steps m k i =
                  subst (λ y. steps m k y < steps m k i) here w' in
                let late : steps m gap j < steps m gap i =
                  omega (arith, on_way, past (v.scanned i f n at) on_way) in
                let differs : steps m gap (next m j) ≢ steps m gap i = λ q.
                  ground
                    (arith, at, free, ap (slot table) (steps_same m gap (next m j) i gb nb ib q)) in
                absurd (
                  v.reach i (next m j) f n at nb away
                    (behind m k gap (next m j) i kb gb nb ib on_way
                      (omega (arith, late, one, differs)))
                    free)
          ];
    }
  where
    old :
        gap < length table
        → (i f : ℕ) → slot (set table gap none) i ≡ some f
        → (i ≢ gap) × (slot table i ≡ some f)
    old gb i f h = elim (slot-set table gap i none gb) [
      | inl (here, s) ↦ absurd (ground (arith, s, h))
      | inr (other, s) ↦ (other, sym s ∙ h)
    ]

    past : {a b c d : ℕ} → (a ≤ b → c ≤ d) → d < c → b < a
    past {a} {b} {c} {d} h w = ground (arith, h, w)
