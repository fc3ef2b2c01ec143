-- ===== src/Tests/ResultSet.antt =====
-- The theorems about result sets at a set that holds one record, and at two to be ordered.
use onion_relay.Prelude.{
  ◌*◌, ◌%◌, ◌^◌, ◌≡◌, ◌⊎◌, true, false, some, List, [], ◌∷◌, ◌++◌, length, min, All, arith,
}
use mathlib.Core.List.{Perm}
use onion_relay.ResultSet.{
  RecordId, Entry, QueryResultSet, AddCode, is_listed, no_bits, query_result_add, query_result_sort,
  query_result_apply_limit,
}
use onion_relay.ResultSet.Bloom.{no_bits-IsBloom}
use onion_relay.ResultSet.Add.{IsValid, add_lem}
use onion_relay.ResultSet.Order.{IsDescending, IsNotOlder, newest}

abbrev empty_set : QueryResultSet
empty_set = record { entries = []; capacity = 1; bloom = no_bits }

abbrev rid : RecordId
rid = record { page_id = 7; slot_index = 2 }

empty_set-IsValid : IsValid empty_set
empty_set-IsValid = record {
  room = omega arith;
  bloom = no_bits-IsBloom;
  known = tt;
  distinct = tt;
}

abbrev two : QueryResultSet
two = record {
  entries =
      record { rid = rid; created_at = 5 }
      ∷ record { rid = record { page_id = 8; slot_index = 0 }; created_at = 9 }
      ∷ [];
  capacity = 2;
  bloom = no_bits;
}

add_example :
    ((is_listed empty_set.entries rid ≡ true)
      × (query_result_add empty_set rid 5 true ≡ some (AddCode.duplicate, empty_set)))
    ⊎ ((is_listed empty_set.entries rid ≡ false)
        × (((rs' : QueryResultSet) × (query_result_add empty_set rid 5 true
                ≡ some (AddCode.added, rs'))
              × (rs'.entries ≡ empty_set.entries ++ (record { rid = rid; created_at = 5 } ∷ []))
              × IsValid rs')
            ⊎ ((empty_set.capacity ≡ length empty_set.entries)
                × (query_result_add empty_set rid 5 true ≡ some (AddCode.failed, empty_set))
                × ((true ≡ false) ⊎ (empty_set.capacity * 2 % 2 ^ 32 ≡ 0)))))
add_example = add_lem empty_set rid 5 true empty_set-IsValid (omega arith)

newest_example :
    (sorted : QueryResultSet) × (query_result_sort two ≡ some sorted)
    × (cut : List Entry) × Perm ((query_result_apply_limit sorted 1).entries ++ cut) two.entries
    × IsDescending (query_result_apply_limit sorted 1).entries
    × All (λ e. All (IsNotOlder e) cut) (query_result_apply_limit sorted 1).entries
    × (length (query_result_apply_limit sorted 1).entries ≡ min 1 (length two.entries))
newest_example = newest two 1 (omega arith)
