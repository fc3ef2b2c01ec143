-- ===== src/Query/Search/Bounds.antt =====
-- The searches by key stay within the limits and keep what a result set must satisfy.
use onion_relay.Prelude.{
  ℕ, ◌+◌, ◌-◌, ◌%◌, ◌^◌, ◌≤◌, ◌<◌, ◌≡◌, refl, Bool, Option, some, List, [], ◌∷◌, ltb, ◌==◌, length,
  take, Bool-cases, inl, inr, arith, ltb→lt,
}
use onion_relay.ResultSet.{RecordId, QueryResultSet}
use onion_relay.Query.{DbFilter, DbFilterId, DbFilterTag, stop_of}
use onion_relay.Query.Ids.{IsCollected, collect_lem}
use onion_relay.Query.Search.{
  is_enough, scan_collect, scan_keys, author_keys, kind_keys, query_by_pubkey, query_by_kind,
  pubkey_kind_loop, query_by_pubkey_kind, tag_keys, tag_values_loop, tags_scan_loop, collect_limit,
  query_by_tag,
}

-- a search that writes within the arrays, keeps the set valid and its entries within the times of
-- the filter, and holds at most `limit` entries at its end
abbrev pub IsBounded : DbFilter → ℕ → Option QueryResultSet → Type 0
IsBounded f limit result =
    (rs' : QueryResultSet) × (result ≡ some rs') × IsCollected f rs' × (length rs'.entries ≤ limit)

module _ (scan : List ℕ → List RecordId) (time_of : RecordId → ℕ) (mapped : RecordId → Bool)
    (f : DbFilter) where
  scan_collect_lem :
      (bound limit : ℕ) (rids : List RecordId) (rs : QueryResultSet)
      → IsCollected f rs
      → 0 < limit
      → limit ≤ bound
      → length rs.entries ≤ bound
      → bound ≤ 2 ^ 30
      → IsBounded f bound (scan_collect scan time_of mapped f limit rids rs)
  unfolding scan_collect
  scan_collect_lem bound limit [] rs c positive within few small = (rs, refl, c, few)
  scan_collect_lem bound limit (rid ∷ rids) rs c positive within few small =
      elim (Bool-cases (is_enough limit rs)) [
        | inl enough ↦ rw enough (rs, refl, c, few)
        | inr more ↦
            let short : length rs.entries < limit = unfold is_enough in ground arith in
            let (rs₁, e, c₁, n) = collect_lem time_of mapped f rs rid c (omega arith) in
            rw (more, e)
              (elim (Bool-cases (is_enough limit rs₁)) [
                | inl enough ↦ rw enough (rs₁, refl, c₁, omega arith)
                | inr left ↦
                    rw left
                      (scan_collect_lem bound limit rids rs₁ c₁ positive within (omega arith) small)
              ])
      ]

  scan_keys_lem :
      (limit : ℕ) (keys : List (List ℕ)) (rs : QueryResultSet)
      → IsCollected f rs
      → length rs.entries ≤ limit
      → limit ≤ 2 ^ 30
      → IsBounded f limit (scan_keys scan time_of mapped f limit keys rs)
  unfolding scan_keys
  scan_keys_lem limit [] rs c few small = (rs, refl, c, few)
  scan_keys_lem limit (key ∷ keys) rs c few small =
      elim (Bool-cases (ltb (length rs.entries) limit)) [
        | inr full ↦ rw full (rs, refl, c, few)
        | inl more ↦
            let lt = ltb→lt (length rs.entries) limit more in
            let (rs₁, e, c₁, n) =
              scan_collect_lem limit (limit - length rs.entries) (scan key) rs c (omega arith)
                (omega arith) few small in
            rw (more, e) (scan_keys_lem limit keys rs₁ c₁ n small)
      ]

  -- With a limit of at most 2 ^ 30 that is not yet exceeded, query_by_pubkey and query_by_kind write
  -- within the arrays of a valid result set, keep it valid and its entries within the times of the
  -- filter, and stop at the limit, whatever the index offers.
  pub one_key_lem :
      (rs : QueryResultSet)
      → IsCollected f rs
      → length rs.entries ≤ stop_of f
      → stop_of f ≤ 2 ^ 30
      → IsBounded f (stop_of f) (query_by_pubkey scan time_of mapped f rs)
        × IsBounded f (stop_of f) (query_by_kind scan time_of mapped f rs)
  unfolding query_by_pubkey query_by_kind
  one_key_lem rs c few small = (
    scan_keys_lem (stop_of f) (author_keys f.authors) rs c few small,
    scan_keys_lem (stop_of f) (kind_keys [] f.kinds) rs c few small,
  )

  pubkey_kind_loop_lem :
      (authors : List DbFilterId) (rs : QueryResultSet)
      → IsCollected f rs
      → length rs.entries ≤ stop_of f
      → stop_of f ≤ 2 ^ 30
      → IsBounded f (stop_of f) (pubkey_kind_loop scan time_of mapped f authors rs)
  unfolding pubkey_kind_loop
  pubkey_kind_loop_lem [] rs c few small = (rs, refl, c, few)
  pubkey_kind_loop_lem (a ∷ authors) rs c few small =
      elim (Bool-cases (ltb (length rs.entries) (stop_of f))) [
        | inr full ↦ rw full (rs, refl, c, few)
        | inl more ↦
            let (rs₁, e, c₁, n) =
              scan_keys_lem (stop_of f) (kind_keys (take 32 a.value) f.kinds) rs c few small in
            rw (more, e) (pubkey_kind_loop_lem authors rs₁ c₁ n small)
      ]

  tag_values_lem :
      (limit : ℕ) (keys : List (List ℕ)) (rs : QueryResultSet)
      → IsCollected f rs
      → length rs.entries ≤ limit
      → limit ≤ 2 ^ 30
      → IsBounded f limit (tag_values_loop scan time_of mapped f limit keys rs)
  unfolding tag_values_loop
  tag_values_lem limit [] rs c few small = (rs, refl, c, few)
  tag_values_lem limit (key ∷ keys) rs c few small =
      let left = (limit + (2 ^ 32 - length rs.entries % 2 ^ 32)) % 2 ^ 32 in
      elim (Bool-cases (left == 0)) [
        | inl nothing ↦ rw nothing (rs, refl, c, few)
        | inr some_left ↦
            let (rs₁, e, c₁, n) =
              scan_collect_lem limit left (scan key) rs c (ground arith) (omega arith) few small in
            rw (some_left, e) (tag_values_lem limit keys rs₁ c₁ n small)
      ]

  tags_scan_step :
      (limit : ℕ) (tag : DbFilterTag) (tags : List DbFilterTag) (rs rs₁ : QueryResultSet)
      → tag_values_loop scan time_of mapped f limit (tag_keys tag.name tag.values) rs ≡ some rs₁
      → tags_scan_loop scan time_of mapped f limit (tag ∷ tags) rs
        ≡ tags_scan_loop scan time_of mapped f limit tags rs₁
  unfolding tags_scan_loop
  tags_scan_step limit tag tags rs rs₁ e = ground (arith, e)

  tags_scan_lem :
      (limit : ℕ) (tags : List DbFilterTag) (rs : QueryResultSet)
      → IsCollected f rs
      → length rs.entries ≤ limit
      → limit ≤ 2 ^ 30
      → IsBounded f limit (tags_scan_loop scan time_of mapped f limit tags rs)
  tags_scan_lem limit [] rs c few small = (rs, unfold tags_scan_loop in refl, c, few)
  tags_scan_lem limit (tag ∷ tags) rs c few small =
      let (rs₁, e, c₁, n) = tag_values_lem limit (tag_keys tag.name tag.values) rs c few small in
      rw (tags_scan_step limit tag tags rs rs₁ e) (tags_scan_lem limit tags rs₁ c₁ n small)

  -- With a limit of at most 2 ^ 30 that is not yet exceeded, query_by_pubkey_kind writes within the
  -- arrays of a valid result set, keeps it valid and its entries within the times of the filter, and
  -- stops at the limit, whatever the index offers.
  pub query_by_pubkey_kind_lem :
      (rs : QueryResultSet)
      → IsCollected f rs
      → length rs.entries ≤ stop_of f
      → stop_of f ≤ 2 ^ 30
      → IsBounded f (stop_of f) (query_by_pubkey_kind scan time_of mapped f rs)
  unfolding query_by_pubkey_kind
  query_by_pubkey_kind_lem rs c few small = pubkey_kind_loop_lem f.authors rs c few small

  -- With a limit for the collection of at most 2 ^ 30 that is not yet exceeded, query_by_tag writes
  -- within the arrays of a valid result set, keeps it valid and its entries within the times of the
  -- filter, and stops at that limit, whatever the index offers.
  pub query_by_tag_lem :
      (rs : QueryResultSet)
      → IsCollected f rs
      → length rs.entries ≤ collect_limit f f.tags
      → collect_limit f f.tags ≤ 2 ^ 30
      → IsBounded f (collect_limit f f.tags) (query_by_tag scan time_of mapped f rs)
  unfolding query_by_tag
  query_by_tag_lem rs c few small = tags_scan_lem (collect_limit f f.tags) f.tags rs c few small
