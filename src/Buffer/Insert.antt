-- ===== src/Buffer/Insert.antt =====
-- The insertion of a page into the hash table.
use onion_relay.Prelude.{
  ℕ, zero, suc, ◌<◌, ◌≡◌, ◌≢◌, ◌⊎◌, inl, inr, refl, Option, none, some, List, length, set,
  get_or-set_self, get_or-set_ne, length-set, arith, Option-cases, ◌∙◌, ap, sym, ℕ_discrete, subst,
}
use onion_relay.Buffer.{Frame, hash_page_id, insert_loop, hash_insert}
use onion_relay.Buffer.Cycle.{next, steps, steps-cases, steps_next}
use onion_relay.Buffer.Table.{slot, page_of, IsAbsent, IsTable, home_bound, next_bound, steps_self}

module _ (table : List (Option ℕ)) (frames : List Frame) (p frame : ℕ)
    (absent : IsAbsent table frames p) where
  insert_here :
      (idx n : ℕ)
      → slot table idx ≡ none
      → insert_loop table frames p frame idx (suc n) ≡ some (set table idx (some frame))
  unfolding insert_loop
  insert_here idx n e = ground (arith, e)

  insert_on :
      (idx f n : ℕ)
      → slot table idx ≡ some f
      → insert_loop table frames p frame idx (suc n)
        ≡ insert_loop table frames p frame (next (length table) idx) n
  unfolding insert_loop
  insert_on idx f n e = ground (arith, e, absent idx f e)

  -- The loop ends at the first free slot.
  insert_loop_lem :
      (e : ℕ)
      → e < length table
      → slot table e ≡ none
      → (n idx : ℕ) → idx < length table
      → steps (length table) idx e < n
      → (i : ℕ) × (i < length table)
        × (slot table i ≡ none)
        × (insert_loop table frames p frame idx n ≡ some (set table i (some frame)))
        × ((x : ℕ)
            → x < length table
            → steps (length table) idx x < steps (length table) idx i
            → slot table x ≢ none)
  insert_loop_lem e free_inside free zero idx inside enough = absurd (omega (arith, enough))
  insert_loop_lem e free_inside free (suc n) idx inside enough =
      elim (Option-cases (slot table idx)) [
        | inl here ↦ (
          idx,
          inside,
          here,
          insert_here idx n here,
          λ x h w. absurd (omega (arith, w, steps_self (length table) idx)),
        )
        | inr (f, there) ↦
            let m = length table in
            let far : idx ≢ e = λ q. ground (arith, there, free, ap (slot table) q) in
            let less = steps_next m idx e inside free_inside far in
            let (i, bound, at, result, full) =
              insert_loop_lem e free_inside free n (next m idx) (next_bound m idx inside)
                (omega (arith, less, enough)) in
            let away : idx ≢ i = λ q. ground (arith, there, at, ap (slot table) q) in
            (
              i,
              bound,
              at,
              insert_on idx f n there ∙ result,
              λ x h w. elim (ℕ_discrete idx x) [
                | yes same ↦ λ q. ground (arith, there, q, ap (slot table) same)
                | no other ↦ full x h (
                    omega (
                      arith,
                      w,
                      steps_next m idx x inside h other,
                      steps_next m idx i inside bound away,
                    ))
              ],
            )
      ]

-- the table with one more entry
pub record IsInserted (table : List (Option ℕ)) (frame : ℕ) (table' : List (Option ℕ))
    : Type 0 where
  pub at : ℕ
  pub bound : at < length table
  pub free : slot table at ≡ none
  pub result : table' ≡ set table at (some frame)

pub slot-set :
    (table : List (Option ℕ)) (i j : ℕ) (o : Option ℕ)
    → i < length table
    → ((j ≡ i) × (slot (set table i o) j ≡ o)) ⊎ ((j ≢ i) × (slot (set table i o) j ≡ slot table j))
slot-set table i j o h = elim (ℕ_discrete j i) [
  | yes e ↦ inl (e, ap (slot (set table i o)) e ∙ get_or-set_self table i o none h)
  | no n ↦ inr (n, get_or-set_ne table o none (λ e. n (sym e)))
]

-- An entry stays, and none appears but for the new frame.
pub inserted-cases :
    {table table' : List (Option ℕ)} {frame : ℕ} (v : IsInserted table frame table') (j f : ℕ)
    → slot table' j ≡ some f
    → ((j ≡ v.at) × (f ≡ frame)) ⊎ (slot table j ≡ some f)
inserted-cases {table} {table'} {frame} v j f e =
    let e' : slot (set table v.at (some frame)) j ≡ some f =
      ap (λ t. slot t j) (sym v.result) ∙ e in
    elim (slot-set table v.at j (some frame) v.bound) [
      | inl (here, s) ↦ inl (here, ground (arith, sym s ∙ e'))
      | inr (there, s) ↦ inr (sym s ∙ e')
    ]

pub inserted_self :
    {table table' : List (Option ℕ)} {frame : ℕ} (v : IsInserted table frame table')
    → slot table' v.at ≡ some frame
inserted_self {table} {table'} {frame} v =
    ap (λ t. slot t v.at) v.result ∙ get_or-set_self table v.at (some frame) none v.bound

pub inserted_other :
    {table table' : List (Option ℕ)} {frame : ℕ} (v : IsInserted table frame table') (j f : ℕ)
    → slot table j ≡ some f
    → slot table' j ≡ some f
inserted_other {table} {table'} {frame} v j f e =
    elim (slot-set table v.at j (some frame) v.bound) [
      | inl (here, s) ↦ absurd (ground (arith, v.free, e, ap (slot table) here))
      | inr (there, s) ↦ ap (λ t. slot t j) v.result ∙ s ∙ e
    ]

-- On a table with a free slot, the insertion of a page that is not in it gives a table with one more
-- entry.
pub insert_lem :
    (table : List (Option ℕ)) (frames : List Frame) (p frame e : ℕ)
    → IsTable table frames
    → IsAbsent table frames p
    → page_of frames frame ≡ p
    → frame < length frames
    → e < length table
    → slot table e ≡ none
    → (table' : List (Option ℕ)) × (hash_insert table frames p frame ≡ some table')
      × IsInserted table frame table'
      × IsTable table' frames
unfolding hash_insert
insert_lem table frames p frame e v absent same inside free_inside free =
    let m = length table in
    let start = home_bound table p (omega (arith, free_inside)) in
    let (i, bound, at, result, full) =
      insert_loop_lem table frames p frame absent e free_inside free m (hash_page_id p m) start
        (enough m (hash_page_id p m) e start free_inside) in
    let table' = set table i (some frame) in
    let new : IsInserted table frame table' = record {
      at = i;
      bound = bound;
      free = at;
      result = refl;
    } in
    let len : length table' ≡ m = length-set table i (some frame) in
    let kept : (x : ℕ) → slot table x ≢ none → slot table' x ≢ none = λ x h q. still new x h q in
    (
      table',
      result,
      new,
      record {
        inside = λ j f h. elim (inserted-cases new j f h) [
          | inl (here, q) ↦ rw q inside
          | inr old ↦ v.inside j f old
        ];
        distinct = λ j l f g h k q. elim (inserted-cases new j f h) [
          | inl (here, fe) ↦ elim (inserted-cases new l g k) [
            | inl (here', ge) ↦ here ∙ sym here'
            | inr old ↦ absurd (absent l g old (sym q ∙ ap (page_of frames) fe ∙ same))
          ]
          | inr old ↦ elim (inserted-cases new l g k) [
            | inl (here', ge) ↦ absurd (absent j f old (q ∙ ap (page_of frames) ge ∙ same))
            | inr old' ↦ v.distinct j l f g old old' q
          ]
        ];
        reach = λ j x f h xb w.
            let xb' : x < m = omega (arith, xb, len) in
            let w' : steps m (hash_page_id (page_of frames f) m) x
                < steps m (hash_page_id (page_of frames f) m) j =
              subst
                (λ l.
                  steps l (hash_page_id (page_of frames f) l) x
                  < steps l (hash_page_id (page_of frames f) l) j)
                len w in
            elim (inserted-cases new j f h) [
              | inr old ↦ kept x (v.reach j x f old xb' w')
              | inl (here, fe) ↦
                  let p_is : page_of frames f ≡ p = ap (page_of frames) fe ∙ same in
                  kept x (
                    full x xb' (
                      subst (λ l. steps m (hash_page_id p m) x < steps m (hash_page_id p m) l) here
                        (subst (λ q. steps m (hash_page_id q m) x < steps m (hash_page_id q m) j)
                          p_is w')))
            ];
      },
    )
  where
    enough : (m a b : ℕ) → a < m → b < m → steps m a b < m
    enough m a b h k = ground (arith, steps-cases m a b)

    still :
        {table table' : List (Option ℕ)} {frame : ℕ} (u : IsInserted table frame table') (x : ℕ)
        → slot table x ≢ none
        → slot table' x ≡ none
        → ⊥
    still {table} u x h q = elim (Option-cases (slot table x)) [
      | inl e ↦ h e
      | inr (f, e) ↦ ground (arith, q, inserted_other u x f e)
    ]
