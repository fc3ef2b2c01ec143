-- ===== src/ResultSet/Add.antt =====
-- Adding to a result set: the bloom filter only saves the scan for a duplicate.
use onion_relay.Prelude.{
  ℕ, ◌*◌, ◌%◌, ◌^◌, ◌≤◌, ◌<◌, ◌≡◌, ◌⊎◌, refl, Bool, true, false, ◌&&◌, ◌||◌, none, some, List, [],
  ◌∷◌, ◌++◌, leb, ◌==◌, if◌then◌else◌, length, All, All-imp, All-snoc, Bool-cases, inl, inr, arith,
  length-append, sym, lt→ltb, ◌≢◌,
}
use onion_relay.ResultSet.{
  RecordId, Entry, QueryResultSet, AddCode, same_record, is_listed, append, grow_and_append,
  query_result_add, query_result_create, no_bits, bloom_test, bloom_set, default_capacity,
}
use onion_relay.ResultSet.Bloom.{
  IsBloom, no_bits-IsBloom, bloom_set-IsBloom, bloom_test-set_self, bloom_test-set_keep,
}

abbrev pub IsDistinct : List Entry → Type 0
IsDistinct [] = Unit
IsDistinct (e ∷ es) = (is_listed es e.rid ≡ false) × IsDistinct es

-- No record stands twice, and the bloom filter knows every record.
pub record IsValid (rs : QueryResultSet) : Type 0 where
  pub room : length rs.entries ≤ rs.capacity
  pub bloom : IsBloom rs.bloom
  pub known : All (λ e. bloom_test rs.bloom e.rid ≡ true) rs.entries
  pub distinct : IsDistinct rs.entries

same_record-eq : (r s : RecordId) → same_record r s ≡ true → r ≡ s
unfolding same_record
same_record-eq r s h = ground arith

same_record_comm : (r s : RecordId) → same_record r s ≡ same_record s r
unfolding same_record
same_record_comm r s = ground arith

is_listed-append :
    (es : List Entry) (e : Entry) (rid : RecordId)
    → is_listed (es ++ (e ∷ [])) rid ≡ (is_listed es rid || same_record e.rid rid)
unfolding is_listed
is_listed-append [] e rid = ground arith
is_listed-append (f ∷ es) e rid = ground (arith, is_listed-append es e rid)

append-IsDistinct :
    (es : List Entry) (e : Entry)
    → is_listed es e.rid ≡ false
    → IsDistinct es
    → IsDistinct (es ++ (e ∷ []))
unfolding is_listed
append-IsDistinct [] e h d = (refl, tt)
append-IsDistinct (f ∷ es) e h d = (
  ground (arith, is_listed-append es e f.rid, same_record_comm f.rid e.rid, d.0),
  append-IsDistinct es e (ground arith) d.1,
)

-- a listed record is known to the filter
is_listed-known :
    (bloom : List (List Bool)) (es : List Entry) (rid : RecordId)
    → All (λ e. bloom_test bloom e.rid ≡ true) es
    → is_listed es rid ≡ true
    → bloom_test bloom rid ≡ true
unfolding is_listed
is_listed-known bloom [] rid k h = absurd cc
is_listed-known bloom (e ∷ es) rid k h = elim (Bool-cases (same_record e.rid rid)) [
  | inl same ↦ rw (sym (same_record-eq e.rid rid same)) k.0
  | inr other ↦ is_listed-known bloom es rid k.1 (rw other at h)
]

-- the test with the filter is the scan alone
scan_lem :
    (rs : QueryResultSet) (rid : RecordId)
    → IsValid rs
    → (bloom_test rs.bloom rid && is_listed rs.entries rid) ≡ is_listed rs.entries rid
scan_lem rs rid v = elim (Bool-cases (is_listed rs.entries rid)) [
  | inl listed ↦ rw (is_listed-known rs.bloom rs.entries rid v.known listed, listed) refl
  | inr free ↦ ground arith
]

append-IsValid :
    (rs : QueryResultSet) (rid : RecordId) (t : ℕ)
    → IsValid rs
    → length rs.entries < rs.capacity
    → is_listed rs.entries rid ≡ false
    → IsValid (append rs rid t)
unfolding append
append-IsValid rs rid t v room free =
    let e : Entry = record { rid = rid; created_at = t } in
    record {
      room = omega (arith, length-append rs.entries (e ∷ []));
      bloom = bloom_set-IsBloom rs.bloom rid v.bloom;
      known =
          All-snoc (λ f. bloom_test (bloom_set rs.bloom rid) f.rid ≡ true) rs.entries e
            (All-imp (λ f. bloom_test rs.bloom f.rid ≡ true)
              (λ f. bloom_test (bloom_set rs.bloom rid) f.rid ≡ true) rs.entries
              (λ f known. bloom_test-set_keep rs.bloom rid f.rid v.bloom known) v.known)
            (bloom_test-set_self rs.bloom rid v.bloom);
      distinct = append-IsDistinct rs.entries e free v.distinct;
    }

-- Where the kernel gives the memory, query_result_create returns a valid empty set of the capacity
-- asked for, or of a positive one if that is 0; otherwise it returns NULL.
pub create_lem :
    (capacity : ℕ) (a b c : Bool)
    → ((rs : QueryResultSet) × (query_result_create capacity (a, b, c) ≡ some rs)
        × IsValid rs
        × (rs.entries ≡ [])
        × (0 < rs.capacity)
        × (capacity ≢ 0 → rs.capacity ≡ capacity))
      ⊎ ((query_result_create capacity (a, b, c) ≡ none) × ((a && b && c) ≡ false))
unfolding query_result_create
create_lem capacity a b c = elim (Bool-cases (a && b && c)) [
  | inr refused ↦ inr (rw refused refl, refused)
  | inl given ↦ inl (
    record {
      entries = [];
      capacity = if capacity == 0 then default_capacity else capacity;
      bloom = no_bits;
    },
    rw given refl,
    record { room = omega arith; bloom = no_bits-IsBloom; known = tt; distinct = tt },
    refl,
    ground arith,
    λ nonzero. ground arith,
  )
]

grow_lem :
    (rs : QueryResultSet) (rid : RecordId) (t : ℕ) (mapped : Bool)
    → IsValid rs
    → rs.capacity ≤ 2 ^ 31
    → rs.capacity ≤ length rs.entries
    → is_listed rs.entries rid ≡ false
    → ((rs' : QueryResultSet) × (grow_and_append rs rid t mapped ≡ some (AddCode.added, rs'))
        × (rs'.entries ≡ rs.entries ++ (record { rid = rid; created_at = t } ∷ []))
        × IsValid rs')
      ⊎ ((grow_and_append rs rid t mapped ≡ some (AddCode.failed, rs))
          × ((mapped ≡ false) ⊎ (rs.capacity * 2 % 2 ^ 32 ≡ 0)))
unfolding grow_and_append
grow_lem rs rid t false v small full free = inr (ground arith, inl refl)
grow_lem rs rid t true v small full free = elim (Bool-cases (rs.capacity * 2 % 2 ^ 32 == 0)) [
  | inl wrapped ↦ inr (rw wrapped refl, inr (ground arith))
  | inr grown ↦
      let wide : length rs.entries < rs.capacity * 2 % 2 ^ 32 = ground (arith, v.room) in
      inl (
        append (record rs { capacity = rs.capacity * 2 % 2 ^ 32 }) rid t,
        rw (grown, lt→ltb (length rs.entries) (rs.capacity * 2 % 2 ^ 32) wide) refl,
        unfold append in refl,
        append-IsValid (record rs { capacity = rs.capacity * 2 % 2 ^ 32 }) rid t
            (record { room = omega arith; bloom = v.bloom; known = v.known; distinct = v.distinct })
            wide free,
      )
]

add_free :
    (rs : QueryResultSet) (rid : RecordId) (t : ℕ) (mapped : Bool)
    → is_listed rs.entries rid ≡ false
    → query_result_add rs rid t mapped ≡ (
        if leb rs.capacity (length rs.entries)
        then grow_and_append rs rid t mapped
        else some (AddCode.added, append rs rid t))
unfolding query_result_add
add_free rs rid t mapped free = ground arith

-- On a valid set of a capacity of at most 2 ^ 31, query_result_add returns 1 and leaves the set
-- alone if the record is in it; otherwise it returns 0, puts the record at the end and keeps the
-- set valid, unless the arrays are full and either memory is refused or the doubled capacity is 0
-- in 32 bits: it then returns -1 and leaves the set alone.
pub add_lem :
    (rs : QueryResultSet) (rid : RecordId) (t : ℕ) (mapped : Bool)
    → IsValid rs
    → rs.capacity ≤ 2 ^ 31
    → ((is_listed rs.entries rid ≡ true)
        × (query_result_add rs rid t mapped ≡ some (AddCode.duplicate, rs)))
      ⊎ ((is_listed rs.entries rid ≡ false)
          × (((rs' : QueryResultSet) × (query_result_add rs rid t mapped
                  ≡ some (AddCode.added, rs'))
                × (rs'.entries ≡ rs.entries ++ (record { rid = rid; created_at = t } ∷ []))
                × IsValid rs')
              ⊎ ((rs.capacity ≡ length rs.entries)
                  × (query_result_add rs rid t mapped ≡ some (AddCode.failed, rs))
                  × ((mapped ≡ false) ⊎ (rs.capacity * 2 % 2 ^ 32 ≡ 0)))))
add_lem rs rid t mapped v small = elim (Bool-cases (is_listed rs.entries rid)) [
  | inl listed ↦ inl (listed, unfold query_result_add in (rw (scan_lem rs rid v, listed) refl))
  | inr free ↦ inr (
    free,
    rw (add_free rs rid t mapped free) (elim (Bool-cases (leb rs.capacity (length rs.entries))) [
      | inl full ↦ rw full (elim (grow_lem rs rid t mapped v small (ground arith) free) [
        | inl grown ↦ inl grown
        | inr refused ↦ inr (ground (arith, v.room), refused.0, refused.1)
      ])
      | inr roomy ↦ rw roomy (
          inl (
            append rs rid t,
            refl,
            unfold append in refl,
            append-IsValid rs rid t v (ground arith) free,
          ))
    ]),
  )
]
