-- ===== src/Tests/SlotPage.antt =====
-- The theorems about slot pages at an empty page and at one with two records of which the first is
-- deleted.
use onion_relay.Prelude.{
  ℕ, ◌+◌, ◌≡◌, ◌≢◌, ◌⊎◌, ◌<◌, refl, inl, inr, true, false, none, some, List, [], ◌∷◌, length, arith,
}
use onion_relay.SlotPage.{
  SlotPage, InsertResult, is_deleted, slot_page_init, slot_page_insert, slot_page_delete,
  slot_page_compact, slot_page_free_space, needed,
}
use onion_relay.SlotPage.Invariant.{view, used, IsValid}
use onion_relay.SlotPage.Compact.{compact_lem}
use onion_relay.SlotPage.InsertCases.{IsPut, insert_lem}
use onion_relay.SlotPage.Delete.{delete_lem}

abbrev zeros : ℕ → ℕ
zeros a = 0

abbrev new_page : SlotPage
new_page = slot_page_init 3

abbrev record_bytes : List ℕ
record_bytes = 5 ∷ 6 ∷ []

abbrev fragmented : SlotPage
fragmented = record {
  page_id = 3;
  overflow_page = 0;
  free_space_start = 32;
  free_space_end = 4086;
  fragmented_space = 6;
  slots = record { offset = 0; length = 0 } ∷ record { offset = 4086; length = 4 } ∷ [];
  page_data = λ a. a;
}

fragmented-IsValid : IsValid fragmented
fragmented-IsValid = record {
  directory = refl;
  room = omega arith;
  placed = (
    inl (unfold is_deleted in refl),
    (inr (unfold is_deleted in refl, omega arith, omega arith, omega arith), tt),
  );
  accounted = unfold used in refl;
}

insert_example :
    ((length record_bytes ≡ 0)
      × (slot_page_insert zeros fragmented record_bytes ≡ (InsertResult.null_param, fragmented)))
    ⊎ (((slot_page_free_space fragmented < needed fragmented (length record_bytes))
          × (slot_page_insert zeros fragmented record_bytes ≡ (InsertResult.full, fragmented)))
        ⊎ IsPut zeros fragmented record_bytes)
insert_example = insert_lem zeros fragmented record_bytes fragmented-IsValid (omega arith)

delete_example :
    ((view fragmented 1 ≡ none) × (slot_page_delete fragmented 1 ≡ (false, fragmented)))
    ⊎ ((bytes : List ℕ) × (page' : SlotPage) × (view fragmented 1 ≡ some bytes)
        × (slot_page_delete fragmented 1 ≡ (true, page'))
        × (view page' 1 ≡ none)
        × ((j : ℕ) → j ≢ 1 → view page' j ≡ view fragmented j)
        × (slot_page_free_space page' ≡ slot_page_free_space fragmented + length bytes)
        × IsValid page')
delete_example = delete_lem fragmented 1 fragmented-IsValid

compact_example :
    IsValid (slot_page_compact zeros fragmented)
    × ((i : ℕ) → view (slot_page_compact zeros fragmented) i ≡ view fragmented i)
    × (length (slot_page_compact zeros fragmented).slots ≡ length fragmented.slots)
    × ((slot_page_compact zeros fragmented).free_space_start ≡ fragmented.free_space_start)
    × ((slot_page_compact zeros fragmented).fragmented_space ≡ 0)
    × ((slot_page_compact zeros fragmented).free_space_end
        ≡ fragmented.free_space_end + fragmented.fragmented_space)
compact_example = compact_lem zeros fragmented fragmented-IsValid
