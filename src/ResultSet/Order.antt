-- ===== src/ResultSet/Order.antt =====
-- The order of the answers: the insertion sort of a result set and the cut at the limit.
use onion_relay.Prelude.{
  ◌^◌, some, ℕ, zero, suc, ◌+◌, ◌≡◌, ◌≤◌, refl, true, false, List, [], ◌∷◌, ◌++◌, length, take,
  drop, min, All, All-imp, Bool-cases, inl, inr, ltb, arith, ap, sym, subst, length-take,
}
use mathlib.Core.List.{Perm, append-nil, perm_middle}
use mathlib.Core.List.Perm
use onion_relay.Filter.{lt_int64}
use onion_relay.ResultSet.{
  Entry, QueryResultSet, shift, sort_loop, unwind, in_order, query_result_sort,
  query_result_apply_limit,
}

-- the first entry's time is not below the second's
abbrev pub IsNotOlder : Entry → Entry → Type 0
IsNotOlder e f = lt_int64 e.created_at f.created_at ≡ false

abbrev pub IsDescending : List Entry → Type 0
IsDescending [] = Unit
IsDescending (e ∷ es) = All (IsNotOlder e) es × IsDescending es

abbrev IsAscending : List Entry → Type 0
IsAscending [] = Unit
IsAscending (e ∷ es) = All (λ f. IsNotOlder f e) es × IsAscending es

IsNotOlder-trans : (e f g : Entry) → IsNotOlder e f → IsNotOlder f g → IsNotOlder e g
IsNotOlder-trans e f g h k = ground arith

IsNotOlder-of_older : (e f : Entry) → lt_int64 e.created_at f.created_at ≡ true → IsNotOlder f e
IsNotOlder-of_older e f h = ground arith

shift-perm : (key : Entry) (es : List Entry) → Perm (shift key es) (key ∷ es)
unfolding shift
shift-perm key [] = Perm.rfl
shift-perm key (e ∷ es) = elim (Bool-cases (lt_int64 e.created_at key.created_at)) [
  | inl older ↦ rw older (Perm.trans (Perm.cons e (shift-perm key es)) (Perm.swap key e es))
  | inr newer ↦ rw newer Perm.rfl
]

sort_loop-perm : (sorted rest : List Entry) → Perm (sort_loop sorted rest) (sorted ++ rest)
unfolding sort_loop
sort_loop-perm sorted [] = rw (append-nil sorted) Perm.rfl
sort_loop-perm sorted (key ∷ rest) = Perm.trans (sort_loop-perm (shift key sorted) rest) (
    Perm.trans (Perm.append_right rest (shift-perm key sorted))
      (Perm.symm (perm_middle sorted rest)))

unwind-perm : (sorted es : List Entry) → Perm (unwind sorted es) (sorted ++ es)
unfolding unwind
unwind-perm [] es = Perm.rfl
unwind-perm (e ∷ sorted) es = Perm.trans (unwind-perm sorted (e ∷ es)) (perm_middle sorted es)

shift-All {ℓ} :
    (P : Entry → Type ℓ) (key : Entry) (es : List Entry) → P key → All P es → All P (shift key es)
unfolding shift
shift-All P key [] p h = (p, tt)
shift-All P key (e ∷ es) p h = elim (Bool-cases (lt_int64 e.created_at key.created_at)) [
  | inl older ↦ rw older (h.0, shift-All P key es p h.1)
  | inr newer ↦ rw newer (p, h)
]

shift-IsAscending : (key : Entry) (es : List Entry) → IsAscending es → IsAscending (shift key es)
unfolding shift
shift-IsAscending key [] h = (tt, tt)
shift-IsAscending key (e ∷ es) h = elim (Bool-cases (lt_int64 e.created_at key.created_at)) [
  | inl older ↦ rw older (
    shift-All (λ f. IsNotOlder f e) key es (IsNotOlder-of_older e key older) h.0,
    shift-IsAscending key es h.1,
  )
  | inr newer ↦ rw newer (
    (
      newer,
      All-imp (λ f. IsNotOlder f e) (λ f. IsNotOlder f key) es
          (λ f k. IsNotOlder-trans f e key k newer) h.0,
    ),
    h,
  )
]

sort_loop-IsAscending :
    (sorted rest : List Entry) → IsAscending sorted → IsAscending (sort_loop sorted rest)
unfolding sort_loop
sort_loop-IsAscending sorted [] h = h
sort_loop-IsAscending sorted (key ∷ rest) h =
    sort_loop-IsAscending (shift key sorted) rest (shift-IsAscending key sorted h)

All-both {ℓ κ} :
    {A : Type 0} (P : A → Type ℓ) (Q : A → Type κ) (xs : List A)
    → All P xs
    → All Q xs
    → All (λ x. P x × Q x) xs
All-both P Q [] h k = tt
All-both P Q (x ∷ xs) h k = ((h.0, k.0), All-both P Q xs h.1 k.1)

unwind-IsDescending :
    (sorted es : List Entry)
    → IsAscending sorted
    → IsDescending es
    → All (λ e. All (IsNotOlder e) es) sorted
    → IsDescending (unwind sorted es)
unfolding unwind
unwind-IsDescending [] es a d h = d
unwind-IsDescending (e ∷ sorted) es a d h =
    unwind-IsDescending sorted (e ∷ es) a.1 (h.0, d)
      (All-both (λ f. IsNotOlder f e) (λ f. All (IsNotOlder f) es) sorted a.0 h.1)

All-append {ℓ} :
    {A : Type 0} (P : A → Type ℓ) (xs ys : List A) → All P (xs ++ ys) → All P xs × All P ys
All-append P [] ys h = (tt, h)
All-append P (x ∷ xs) ys h = let rest = All-append P xs ys h.1 in ((h.0, rest.0), rest.1)

take_all : (n : ℕ) (es : List Entry) → length es ≤ n → take n es ≡ es
take_all zero [] h = refl
take_all zero (e ∷ es) h = absurd (omega arith)
take_all (suc n) [] h = refl
take_all (suc n) (e ∷ es) h = ap (λ fs. e ∷ fs) (take_all n es (omega arith))

length-shift : (key : Entry) (es : List Entry) → length (shift key es) ≡ suc (length es)
unfolding shift
length-shift key [] = refl
length-shift key (e ∷ es) = ground (arith, length-shift key es)

length-sort_loop :
    (sorted rest : List Entry) → length (sort_loop sorted rest) ≡ length sorted + length rest
unfolding sort_loop
length-sort_loop sorted [] = omega arith
length-sort_loop sorted (key ∷ rest) =
    omega (arith, length-sort_loop (shift key sorted) rest, length-shift key sorted)

length-unwind : (sorted es : List Entry) → length (unwind sorted es) ≡ length sorted + length es
unfolding unwind
length-unwind [] es = omega arith
length-unwind (e ∷ sorted) es = omega (arith, length-unwind sorted (e ∷ es))

length-sort : (rs : QueryResultSet) → length (in_order rs).entries ≡ length rs.entries
unfolding in_order
length-sort rs =
    omega (arith, length-unwind (sort_loop [] rs.entries) [], length-sort_loop [] rs.entries)

All-nothing : (sorted : List Entry) → All (λ e. All (IsNotOlder e) []) sorted
All-nothing [] = tt
All-nothing (e ∷ sorted) = (tt, All-nothing sorted)

take-drop : (n : ℕ) (es : List Entry) → take n es ++ drop n es ≡ es
take-drop zero es = refl
take-drop (suc n) [] = refl
take-drop (suc n) (e ∷ es) = ap (λ fs. e ∷ fs) (take-drop n es)

take-IsDescending :
    (n : ℕ) (es : List Entry)
    → IsDescending es
    → IsDescending (take n es) × All (λ e. All (IsNotOlder e) (drop n es)) (take n es)
take-IsDescending zero es h = (tt, tt)
take-IsDescending (suc n) [] h = (tt, tt)
take-IsDescending (suc n) (e ∷ es) h =
    let rest = take-IsDescending n es h.1 in
    let parts =
      All-append (IsNotOlder e) (take n es) (drop n es)
        (subst (All (IsNotOlder e)) (sym (take-drop n es)) h.0) in
    ((parts.0, rest.0), (parts.1, rest.1))

-- After the sort the entries are the ones that stood there before, none older than a later
-- one.
pub sort_lem :
    (rs : QueryResultSet)
    → Perm (in_order rs).entries rs.entries × IsDescending (in_order rs).entries
unfolding in_order
sort_lem rs = (
  Perm.trans (unwind-perm (sort_loop [] rs.entries) [])
      (rw (append-nil (sort_loop [] rs.entries)) (sort_loop-perm [] rs.entries)),
  unwind-IsDescending (sort_loop [] rs.entries) [] (sort_loop-IsAscending [] rs.entries tt) tt
      (All-nothing (sort_loop [] rs.entries)),
)

limit-entries :
    (rs : QueryResultSet) (limit : ℕ)
    → (query_result_apply_limit rs limit).entries ≡ take limit rs.entries
unfolding query_result_apply_limit
limit-entries rs limit = elim (Bool-cases (ltb limit (length rs.entries))) [
  | inl long ↦ rw long refl
  | inr short ↦ rw short (sym (take_all limit rs.entries (ground arith)))
]

pub newest_in_order :
    (rs : QueryResultSet) (limit : ℕ)
    → (cut : List Entry) × Perm
        ((query_result_apply_limit (in_order rs) limit).entries ++ cut)
        rs.entries
      × IsDescending (query_result_apply_limit (in_order rs) limit).entries
      × All (λ e. All (IsNotOlder e) cut) (query_result_apply_limit (in_order rs) limit).entries
      × (length (query_result_apply_limit (in_order rs) limit).entries
          ≡ min limit (length rs.entries))
newest_in_order rs limit =
    let sorted = (in_order rs).entries in
    let split = take-IsDescending limit sorted (sort_lem rs).1 in
    rw (limit-entries (in_order rs) limit) (
      drop limit sorted,
      rw (take-drop limit sorted) (sort_lem rs).0,
      split.0,
      split.1,
      rw (length-take limit sorted, length-sort rs) refl,
    )

pub sort_succeeds :
    (rs : QueryResultSet) → length rs.entries ≤ 2 ^ 31 → query_result_sort rs ≡ some (in_order rs)
unfolding query_result_sort
sort_succeeds rs h = ground (arith, h)

-- For a set of at most 2 ^ 31 entries, query_result_sort writes only inside the arrays, and after it and
-- query_result_apply_limit the set holds as many of its entries as the limit admits, newest first, and
-- none of them is older than one that was cut.
pub newest :
    (rs : QueryResultSet) (limit : ℕ)
    → length rs.entries ≤ 2 ^ 31
    → (sorted : QueryResultSet) × (query_result_sort rs ≡ some sorted)
      × (cut : List Entry) × Perm
          ((query_result_apply_limit sorted limit).entries ++ cut)
          rs.entries
      × IsDescending (query_result_apply_limit sorted limit).entries
      × All (λ e. All (IsNotOlder e) cut) (query_result_apply_limit sorted limit).entries
      × (length (query_result_apply_limit sorted limit).entries ≡ min limit (length rs.entries))
newest rs limit h =
    let (cut, perm, ordered, kept, many) = newest_in_order rs limit in
    (in_order rs, sort_succeeds rs h, cut, perm, ordered, kept, many)

sort_loop-All {ℓ} :
    (P : Entry → Type ℓ) (sorted rest : List Entry)
    → All P sorted
    → All P rest
    → All P (sort_loop sorted rest)
unfolding sort_loop
sort_loop-All P sorted [] h k = h
sort_loop-All P sorted (key ∷ rest) h k =
    sort_loop-All P (shift key sorted) rest (shift-All P key sorted k.0 h) k.1

unwind-All {ℓ} :
    (P : Entry → Type ℓ) (sorted es : List Entry)
    → All P sorted
    → All P es
    → All P (unwind sorted es)
unfolding unwind
unwind-All P [] es h k = k
unwind-All P (e ∷ sorted) es h k = unwind-All P sorted (e ∷ es) h.1 (h.0, k)

-- what holds of every entry holds of those that are left after the sort and the limit
pub limited-All {ℓ} :
    (P : Entry → Type ℓ) (rs : QueryResultSet) (limit : ℕ)
    → All P rs.entries
    → All P (query_result_apply_limit (in_order rs) limit).entries
limited-All P rs limit h =
    let sorted = (in_order rs).entries in
    let all_sorted : All P sorted =
      unfold in_order in
      (unwind-All P (sort_loop [] rs.entries) [] (sort_loop-All P [] rs.entries tt h) tt) in
    rw (limit-entries (in_order rs) limit)
      (All-append P (take limit sorted) (drop limit sorted)
        (subst (All P) (sym (take-drop limit sorted)) all_sorted)).0
