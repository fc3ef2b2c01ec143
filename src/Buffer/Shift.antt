-- ===== src/Buffer/Shift.antt =====
-- The removal of a page from the hash table: the gap is closed by backward shifts.
use onion_relay.Prelude.{
  ℕ, suc, ◌+◌, ◌≤◌, ◌<◌, ◌≡◌, ◌≢◌, ◌⊎◌, inl, inr, true, false, Option, none, some, List, length,
  set, get_or-set_self, get_or-set_ne, length-set, arith, ◌∙◌, ap, sym, ℕ_discrete, subst,
}
use onion_relay.Buffer.{Frame, hash_page_id, should_move, shift_loop}
use onion_relay.Buffer.Cycle.{next, steps}
use onion_relay.Buffer.Table.{slot, page_of, home, slot_bound, steps_self, steps_positive}
use onion_relay.Buffer.Used.{used}
use onion_relay.Buffer.Insert.{slot-set}
use onion_relay.Buffer.Holed.{IsHoled, steps_same}

-- The gap moves on to the slot `j`, whose entry has moved to it.
module _ {table : List (Option ℕ)} {frames : List Frame} {gap i₀ : ℕ}
    (v : IsHoled table frames gap i₀) (j f : ℕ) (at_j : slot table j ≡ some f) (away : j ≢ gap)
    (on_way : steps (length table) (home table frames f) gap
      < steps (length table) (home table frames f) j) where
  abbrev pub shifted : List (Option ℕ)
  shifted = set table gap (some f)

  gap_bound : gap < length table
  gap_bound = slot_bound table gap v.stale v.at_gap

  len : length shifted ≡ length table
  len = length-set table gap (some f)

  pub shifted-cases :
      (i g : ℕ)
      → slot shifted i ≡ some g
      → ((i ≡ gap) × (g ≡ f)) ⊎ ((i ≢ gap) × (slot table i ≡ some g))
  shifted-cases i g h = elim (slot-set table gap i (some f) gap_bound) [
    | inl (here, s) ↦ inl (here, ground (arith, s, h))
    | inr (other, s) ↦ inr (other, sym s ∙ h)
  ]

  pub shifted_gap : slot shifted gap ≡ some f
  shifted_gap = get_or-set_self table gap (some f) none gap_bound

  pub shifted_other : (i : ℕ) → i ≢ gap → slot shifted i ≡ slot table i
  shifted_other i n = get_or-set_ne table (some f) none (λ e. n (sym e))

  still_used : (x : ℕ) → (x ≢ gap → slot table x ≢ none) → slot shifted x ≢ none
  still_used x h q = elim (ℕ_discrete x gap) [
    | yes here ↦ ground (arith, shifted_gap, q, ap (slot shifted) here)
    | no other ↦ h other (sym (shifted_other x other) ∙ q)
  ]

  pub shifted-IsHoled : IsHoled shifted frames j j
  shifted-IsHoled =
      let m = length table in
      record {
        stale = f;
        at_gap = shifted_other j away ∙ at_j;
        inside = λ i g n h. elim (shifted-cases i g h) [
          | inl (here, e) ↦ rw e (v.inside j f away at_j)
          | inr (other, at) ↦ v.inside i g other at
        ];
        distinct = λ i l g g' n n' h h' q. elim (shifted-cases i g h) [
          | inl (here, e) ↦ elim (shifted-cases l g' h') [
            | inl (here', e') ↦ here ∙ sym here'
            | inr (other, at) ↦ absurd (
                n' (sym (v.distinct j l f g' away other at_j at (ap (page_of frames) (sym e) ∙ q))))
          ]
          | inr (other, at) ↦ elim (shifted-cases l g' h') [
            | inl (here', e') ↦
                absurd (n (v.distinct i j g f other away at at_j (q ∙ ap (page_of frames) e')))
            | inr (other', at') ↦ v.distinct i l g g' other other' at at' q
          ]
        ];
        reach = λ i x g n h xb xn w.
            let w' : steps m (hash_page_id (page_of frames g) m) x
                < steps m (hash_page_id (page_of frames g) m) i =
              subst
                (λ s.
                  steps s (hash_page_id (page_of frames g) s) x
                  < steps s (hash_page_id (page_of frames g) s) i)
                len w in
            let xb' : x < m = omega (arith, xb, len) in
            elim (shifted-cases i g h) [
              | inr (other, at) ↦ still_used x (λ xg. v.reach i x g other at xb' xg w')
              | inl (here, e) ↦
                  let near : steps m (hash_page_id (page_of frames f) m) x
                      < steps m (hash_page_id (page_of frames f) m) gap =
                    subst
                      (λ y.
                        steps m (hash_page_id (page_of frames f) m) x
                        < steps m (hash_page_id (page_of frames f) m) y)
                      here
                      (subst
                        (λ y.
                          steps m (hash_page_id (page_of frames y) m) x
                          < steps m (hash_page_id (page_of frames y) m) i)
                        e w') in
                  still_used x (λ xg. v.reach j x f away at_j xb' xg (omega (arith, near, on_way)))
            ];
        scanned = λ i g n h w. absurd (
            none_before (length shifted) j i (slot_bound shifted i g h)
              (omega (arith, slot_bound table j f at_j, len)) n w);
      }
    where
      none_before : (m a b : ℕ) → b < m → a < m → b ≢ a → steps m a b ≤ steps m a a → ⊥
      none_before m a b h k n w =
          omega (arith, steps_self m a, steps_positive m a b k h (λ e. n (sym e)), w)

-- The gap stays, and the scan goes on to the next slot.
pub kept-IsHoled :
    (table : List (Option ℕ)) (frames : List Frame) (gap i₀ j f : ℕ)
    → IsHoled table frames gap i₀
    → slot table j ≡ some f
    → steps (length table) gap j ≡ steps (length table) gap i₀ + 1
    → steps (length table) (home table frames f) j ≤ steps (length table) (home table frames f) gap
    → IsHoled table frames gap j
kept-IsHoled table frames gap i₀ j f v at_j one off_way = record {
  stale = v.stale;
  at_gap = v.at_gap;
  inside = v.inside;
  distinct = v.distinct;
  reach = v.reach;
  scanned = λ i g n h w.
      let m = length table in
      let gb = slot_bound table gap v.stale v.at_gap in
      elim (ℕ_discrete (steps m gap i) (steps m gap j)) [
        | yes e ↦
            let here =
              steps_same m gap i j gb (slot_bound table i g h) (slot_bound table j f at_j) e in
            let same : g ≡ f = ground (arith, h, at_j, ap (slot table) here) in
            rw (here, same) off_way
        | no ne ↦ v.scanned i g n h (omega (arith, w, one, ne))
      ];
}

-- the entries of the one table but for the gap are those of the other
pub record IsCleared (table : List (Option ℕ)) (gap : ℕ) (table' : List (Option ℕ)) : Type 0 where
  pub from : (i f : ℕ) → slot table' i ≡ some f → (i' : ℕ) × (i' ≢ gap) × (slot table i' ≡ some f)
  pub all : (i f : ℕ) → i ≢ gap → slot table i ≡ some f → (i' : ℕ) × (slot table' i' ≡ some f)
  pub fewer : used table' + 1 ≡ used table
  pub same_length : length table' ≡ length table

module _ (table : List (Option ℕ)) (frames : List Frame) where
  pub shift_stop :
      (gap j n : ℕ)
      → slot table (next (length table) j) ≡ none
      → shift_loop table frames gap j (suc n) ≡ some (set table gap none)
  unfolding shift_loop
  shift_stop gap j n e = ground (arith, e)

  pub shift_move :
      (gap j n f : ℕ)
      → slot table (next (length table) j) ≡ some f
      → should_move gap (next (length table) j) (home table frames f) ≡ true
      → shift_loop table frames gap j (suc n)
        ≡ shift_loop
            (set table gap (some f))
            frames
            (next (length table) j)
            (next (length table) j)
            n
  unfolding shift_loop
  shift_move gap j n f e m = ground (arith, e, m)

  pub shift_keep :
      (gap j n f : ℕ)
      → slot table (next (length table) j) ≡ some f
      → should_move gap (next (length table) j) (home table frames f) ≡ false
      → shift_loop table frames gap j (suc n)
        ≡ shift_loop table frames gap (next (length table) j) n
  unfolding shift_loop
  shift_keep gap j n f e m = ground (arith, e, m)
