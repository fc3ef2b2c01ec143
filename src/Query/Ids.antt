-- ===== src/Query/Ids.antt =====
-- The lookup of a filter's ids.
use onion_relay.Prelude.{
  ℕ, suc, ◌^◌, ◌≤◌, ◌<◌, ◌≡◌, refl, Bool, true, Option, some, List, [], ◌∷◌, ltb, length, All,
  All-snoc, Bool-cases, Option-cases, inl, inr, arith, length-append, ltb→lt,
}
use onion_relay.ResultSet.{
  RecordId, Entry, QueryResultSet, AddCode, append, grow_and_append, query_result_add,
}
use onion_relay.ResultSet.Add.{IsValid, add_lem}
use onion_relay.Query.{DbFilter, DbFilterId, is_in_time, collect, ids_loop, query_by_ids, stop_of}

-- a valid set whose capacity can double in 32 bits and whose entries lie within the filter's times
pub record IsCollected (f : DbFilter) (rs : QueryResultSet) : Type 0 where
  pub valid : IsValid rs
  pub small : rs.capacity ≤ 2 ^ 31
  pub timely : All (λ e. is_in_time f e.created_at ≡ true) rs.entries

pub add-capacity :
    (rs rs' : QueryResultSet) (rid : RecordId) (t : ℕ) (mapped : Bool) (code : AddCode)
    → rs.capacity ≤ 2 ^ 31
    → length rs.entries < 2 ^ 30
    → query_result_add rs rid t mapped ≡ some (code, rs')
    → rs'.capacity ≤ 2 ^ 31
unfolding query_result_add grow_and_append append
add-capacity rs rs' rid t mapped code small few h = ground arith

module _ (time_of : RecordId → ℕ) (mapped : RecordId → Bool) (f : DbFilter) where
  pub collect_lem :
      (rs : QueryResultSet) (rid : RecordId)
      → IsCollected f rs
      → length rs.entries < 2 ^ 30
      → (rs' : QueryResultSet) × (collect time_of mapped f rs rid ≡ some rs')
        × IsCollected f rs'
        × (length rs'.entries ≤ suc (length rs.entries))
  unfolding collect
  collect_lem rs rid c few = elim (Bool-cases (is_in_time f (time_of rid))) [
    | inr late ↦ rw late (rs, refl, c, omega arith)
    | inl timely ↦ elim (add_lem rs rid (time_of rid) (mapped rid) c.valid c.small) [
      | inl (listed, e) ↦ (rs, ground (arith, timely, e), c, omega arith)
      | inr (free, inr (full, e, why)) ↦ (rs, ground (arith, timely, e), c, omega arith)
      | inr (free, inl (rs', e, entries, v)) ↦
          let new : Entry = record { rid = rid; created_at = time_of rid } in
          (
            rs',
            ground (arith, timely, e),
            record {
              valid = v;
              small =
                  add-capacity rs rs' rid (time_of rid) (mapped rid) AddCode.added c.small few e;
              timely =
                  rw entries (
                    All-snoc (λ e. is_in_time f e.created_at ≡ true) rs.entries new c.timely
                      timely);
            },
            rw entries (omega (arith, length-append rs.entries (new ∷ []))),
          )
    ]
  ]

module _ (id_lookup : List ℕ → Option RecordId) (time_of : RecordId → ℕ) (mapped : RecordId → Bool)
    (f : DbFilter) where
  ids_loop_lem :
      (ids : List DbFilterId) (rs : QueryResultSet)
      → IsCollected f rs
      → length rs.entries ≤ stop_of f
      → stop_of f ≤ 2 ^ 30
      → (rs' : QueryResultSet) × (ids_loop id_lookup time_of mapped f ids rs ≡ some rs')
        × IsCollected f rs'
        × (length rs'.entries ≤ stop_of f)
  unfolding ids_loop
  ids_loop_lem [] rs c few limit = (rs, refl, c, few)
  ids_loop_lem (i ∷ ids) rs c few limit = elim (Bool-cases (ltb (length rs.entries) (stop_of f))) [
    | inr full ↦ rw full (rs, refl, c, few)
    | inl more ↦ elim (Option-cases (id_lookup i.value)) [
      | inl missing ↦ rw (more, missing) (ids_loop_lem ids rs c few limit)
      | inr (rid, found) ↦
          let lt = ltb→lt (length rs.entries) (stop_of f) more in
          let (rs₁, e, c₁, n) = collect_lem time_of mapped f rs rid c (omega arith) in
          rw (more, found, e) (ids_loop_lem ids rs₁ c₁ (omega arith) limit)
    ]
  ]

  -- With a limit of at most 2 ^ 30, query_by_ids never writes outside the arrays of a valid result
  -- set, keeps the set valid and its entries within the times of the filter, and stops at the limit.
  pub query_by_ids_lem :
      (rs : QueryResultSet)
      → IsCollected f rs
      → length rs.entries ≤ stop_of f
      → stop_of f ≤ 2 ^ 30
      → (rs' : QueryResultSet) × (query_by_ids id_lookup time_of mapped f rs ≡ some rs')
        × IsCollected f rs'
        × (length rs'.entries ≤ stop_of f)
  unfolding query_by_ids
  query_by_ids_lem rs c few limit = ids_loop_lem f.ids rs c few limit
