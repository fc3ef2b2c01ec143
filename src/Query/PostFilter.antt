-- ===== src/Query/PostFilter.antt =====
-- The tests of the records that an index has found, and the lookup of ids.
use onion_relay.Prelude.{
  ℕ, ◌≤◌, ◌≡◌, refl, true, false, Option, List, [], ◌∷◌, ◌++◌, length, All, Bool-cases, inl, inr,
  arith,
}
use mathlib.Core.List.{Perm, perm_middle}
use mathlib.Core.List.Perm
use onion_relay.ResultSet.{RecordId, Entry, QueryResultSet, is_listed, bloom_test}
use onion_relay.ResultSet.Add.{IsDistinct, IsValid}
use onion_relay.Query.{DbFilter, passes, keep_passing, query_post_filter}

module _ (read : RecordId → Option ((ℕ → ℕ) × ℕ)) (f : DbFilter) where
  keep-All {ℓ} : (P : Entry → Type ℓ) (es : List Entry) → All P es → All P (keep_passing read f es)
  unfolding keep_passing
  keep-All P [] h = tt
  keep-All P (e ∷ es) h = elim (Bool-cases (passes read f e.rid)) [
    | inl kept ↦ rw kept (h.0, keep-All P es h.1)
    | inr cut ↦ rw cut (keep-All P es h.1)
  ]

  length-keep : (es : List Entry) → length (keep_passing read f es) ≤ length es
  unfolding keep_passing
  length-keep [] = omega arith
  length-keep (e ∷ es) = ground (arith, length-keep es)

  keep-unlisted :
      (es : List Entry) (rid : RecordId)
      → is_listed es rid ≡ false
      → is_listed (keep_passing read f es) rid ≡ false
  unfolding keep_passing is_listed
  keep-unlisted [] rid h = refl
  keep-unlisted (e ∷ es) rid h = ground (arith, keep-unlisted es rid)

  keep-IsDistinct : (es : List Entry) → IsDistinct es → IsDistinct (keep_passing read f es)
  unfolding keep_passing
  keep-IsDistinct [] h = tt
  keep-IsDistinct (e ∷ es) h = elim (Bool-cases (passes read f e.rid)) [
    | inl kept ↦ rw kept (keep-unlisted es e.rid h.0, keep-IsDistinct es h.1)
    | inr cut ↦ rw cut (keep-IsDistinct es h.1)
  ]

  -- query_post_filter keeps a valid result set valid.
  pub query_post_filter-IsValid :
      (rs : QueryResultSet) → IsValid rs → IsValid (query_post_filter read rs f)
  unfolding query_post_filter
  query_post_filter-IsValid rs v = record {
    room = omega (arith, v.room, length-keep rs.entries);
    bloom = v.bloom;
    known = keep-All (λ e. bloom_test rs.bloom e.rid ≡ true) rs.entries v.known;
    distinct = keep-IsDistinct rs.entries v.distinct;
  }

  keep_lem :
      (es : List Entry)
      → (cut : List Entry) × Perm (keep_passing read f es ++ cut) es
        × All (λ e. passes read f e.rid ≡ true) (keep_passing read f es)
        × All (λ e. passes read f e.rid ≡ false) cut
  unfolding keep_passing
  keep_lem [] = ([], Perm.rfl, tt, tt)
  keep_lem (e ∷ es) = elim (Bool-cases (passes read f e.rid)) [
    | inl kept ↦
        let (cut, perm, good, bad) = keep_lem es in
        rw kept (cut, Perm.cons e perm, (kept, good), bad)
    | inr lost ↦
        let (cut, perm, good, bad) = keep_lem es in
        rw lost (
          e ∷ cut,
          Perm.trans (perm_middle (keep_passing read f es) cut) (Perm.cons e perm),
          good,
          (lost, bad),
        )
  ]

  -- query_post_filter keeps exactly the entries whose records pass the filter's tests.
  pub query_post_filter_lem :
      (rs : QueryResultSet)
      → (cut : List Entry) × Perm ((query_post_filter read rs f).entries ++ cut) rs.entries
        × All (λ e. passes read f e.rid ≡ true) (query_post_filter read rs f).entries
        × All (λ e. passes read f e.rid ≡ false) cut
  unfolding query_post_filter
  query_post_filter_lem rs = keep_lem rs.entries
