-- ===== src/Buffer/Remove.antt =====
-- The removal of a page ends and takes just its entry out of the hash table.
use onion_relay.Prelude.{
  ℕ, zero, suc, ◌≤◌, ◌<◌, ◌≡◌, ◌≢◌, inl, inr, Option, none, some, List, length, set, get_or-set_ne,
  length-set, arith, Option-cases, ◌∙◌, ap, sym, ℕ_discrete,
}
use onion_relay.Buffer.{Frame, shift_loop, find_slot, hash_remove}
use onion_relay.Buffer.Cycle.{next, next-cases, steps, steps-cases, steps_next, should_move-steps}
use onion_relay.Buffer.Table.{
  slot, page_of, home, IsTable, slot_bound, home_bound, next_bound, steps_self, steps_positive,
  steps_bound,
}
use onion_relay.Buffer.Used.{used-set-some, used-set-none}
use onion_relay.Buffer.Insert.{slot-set}
use onion_relay.Buffer.Holed.{IsHoled, next_of, closed-IsTable}
use onion_relay.Buffer.Shift.{
  shifted-cases, shifted_gap, shifted_other, shifted-IsHoled, kept-IsHoled, IsCleared, shift_stop,
  shift_move, shift_keep,
}

cut-IsCleared :
    (table : List (Option ℕ)) (gap f : ℕ)
    → slot table gap ≡ some f
    → IsCleared table gap (set table gap none)
cut-IsCleared table gap f at =
    let gb = slot_bound table gap f at in
    record {
      from = λ i g h. elim (slot-set table gap i none gb) [
        | inl (here, s) ↦ absurd (ground (arith, s, h))
        | inr (other, s) ↦ (i, other, sym s ∙ h)
      ];
      all = λ i g n h. (i, get_or-set_ne table none none (λ e. n (sym e)) ∙ h);
      fewer = used-set-none table gap f at;
      same_length = length-set table gap none;
    }

shifted-IsCleared :
    {table : List (Option ℕ)} {frames : List Frame} {gap i₀ : ℕ} (v : IsHoled table frames gap i₀)
    (j f : ℕ) (at_j : slot table j ≡ some f) (away : j ≢ gap)
    (on_way : steps (length table) (home table frames f) gap
      < steps (length table) (home table frames f) j)
    (table' : List (Option ℕ))
    → IsCleared (set table gap (some f)) j table'
    → IsCleared table gap table'
shifted-IsCleared {table} {frames} {gap} {i₀} v j f at_j away on_way table' c = record {
  from = λ i g h.
      let (i', n, at) = c.from i g h in
      elim (shifted-cases v j f at_j away on_way i' g at) [
        | inl (here, e) ↦ (j, away, rw e at_j)
        | inr (other, at') ↦ (i', other, at')
      ];
  all = λ i g n h. elim (ℕ_discrete i j) [
    | yes e ↦
        let same : g ≡ f = ground (arith, h, at_j, ap (slot table) e) in
        c.all gap g (λ q. away (sym q)) (rw same (shifted_gap v j f at_j away on_way))
    | no ne ↦ c.all i g ne (shifted_other v j f at_j away on_way i n ∙ h)
  ];
  fewer = c.fewer ∙ used-set-some table gap v.stale f v.at_gap;
  same_length = c.same_length ∙ length-set table gap (some f);
}

shift_loop_lem :
    (n : ℕ) (table : List (Option ℕ)) (frames : List Frame) (gap j e : ℕ)
    → IsHoled table frames gap j
    → j < length table
    → e < length table
    → slot table e ≡ none
    → steps (length table) gap j < steps (length table) gap e
    → steps (length table) j e ≤ n
    → (table' : List (Option ℕ)) × (shift_loop table frames gap j n ≡ some table')
      × IsTable table' frames
      × IsCleared table gap table'
shift_loop_lem zero table frames gap j e v jb eb free before enough =
    absurd (omega (arith, enough, steps_positive (length table) j e jb eb (late before)))
  where
    late : steps (length table) gap j < steps (length table) gap e → j ≢ e
    late b q = ground (arith, b, ap (steps (length table) gap) q)
shift_loop_lem (suc n) table frames gap j e v jb eb free before enough =
    let m = length table in
    let j' = next m j in
    let gb = slot_bound table gap v.stale v.at_gap in
    let nb = next_bound m j jb in
    let (away, one) = next_of m gap j e gb jb eb before in
    let apart : j ≢ e = λ q. ground (arith, before, ap (steps m gap) q) in
    let less = steps_next m j e jb eb apart in
    elim (Option-cases (slot table j')) [
      | inl at ↦ (
        set table gap none,
        shift_stop table frames gap j n at,
        closed-IsTable table frames gap j e v jb eb before at nb,
        cut-IsCleared table gap v.stale v.at_gap,
      )
      | inr (f, at) ↦
          let kb = home_bound table (page_of frames f) (omega (arith, gb)) in
          let not_end : j' ≢ e = λ q. ground (arith, at, free, ap (slot table) q) in
          elim (should_move-steps m gap j' (home table frames f) gb nb kb (λ q. away (sym q))) [
            | inl (moves, on_way) ↦
                let len : length (set table gap (some f)) ≡ m = length-set table gap (some f) in
                let gap_e : e ≢ gap = λ q. ground (arith, free, v.at_gap, ap (slot table) q) in
                let (table', result, valid, cleared) =
                  shift_loop_lem n (set table gap (some f)) frames j' j' e
                    (shifted-IsHoled v j' f at away on_way) (rw len nb) (rw len eb)
                    (shifted_other v j' f at away on_way e gap_e ∙ free)
                    (rw len (omega (arith, steps_self m j', steps_positive m j' e nb eb not_end)))
                    (rw len (omega (arith, less, enough))) in
                (
                  table',
                  shift_move table frames gap j n f at moves ∙ result,
                  valid,
                  shifted-IsCleared v j' f at away on_way table' cleared,
                )
            | inr (stays, off_way) ↦
                let later : steps m gap j' < steps m gap e = ground (
                  arith,
                  steps-cases m gap j',
                  steps-cases m gap e,
                  steps-cases m gap j,
                  steps-cases m j e,
                  next-cases m j jb,
                  before,
                  not_end,
                  one,
                ) in
                let (table', result, valid, cleared) =
                  shift_loop_lem n table frames gap j' e
                    (kept-IsHoled table frames gap j j' f v at one off_way) nb eb free later
                    (omega (arith, less, enough)) in
                (table', shift_keep table frames gap j n f at stays ∙ result, valid, cleared)
          ]
    ]

remove_found :
    (table : List (Option ℕ)) (frames : List Frame) (p i : ℕ)
    → find_slot table frames p ≡ some i
    → hash_remove table frames p ≡ shift_loop table frames i i (length table)
unfolding hash_remove
remove_found table frames p i e = ground (arith, e)

-- On a table with a free slot, the removal of a page that is in it ends, and takes just the entry of
-- the page out.
pub remove_lem :
    (table : List (Option ℕ)) (frames : List Frame) (p i f e : ℕ)
    → IsTable table frames
    → find_slot table frames p ≡ some i
    → slot table i ≡ some f
    → e < length table
    → slot table e ≡ none
    → (table' : List (Option ℕ)) × (hash_remove table frames p ≡ some table')
      × IsTable table' frames
      × IsCleared table i table'
remove_lem table frames p i f e v found at eb free =
    let m = length table in
    let ib = slot_bound table i f at in
    let apart : i ≢ e = λ q. ground (arith, at, free, ap (slot table) q) in
    let holed : IsHoled table frames i i = record {
      stale = f;
      at_gap = at;
      inside = λ l g n h. v.inside l g h;
      distinct = λ l l' g g' n n' h h' q. v.distinct l l' g g' h h' q;
      reach = λ l x g n h xb xn w. v.reach l x g h xb w;
      scanned = λ l g n h w. absurd (none_before m i l ib (slot_bound table l g h) n w);
    } in
    let (table', result, valid, cleared) =
      shift_loop_lem m table frames i i e holed ib eb free
        (omega (arith, steps_self m i, steps_positive m i e ib eb apart))
        (omega (arith, steps_bound m i e ib eb)) in
    (table', remove_found table frames p i found ∙ result, valid, cleared)
  where
    none_before : (m a b : ℕ) → a < m → b < m → b ≢ a → steps m a b ≤ steps m a a → ⊥
    none_before m a b h k n w =
        omega (arith, steps_self m a, steps_positive m a b h k (λ e. n (sym e)), w)
