-- ===== src/SlotPage/Insert.antt =====
-- Inserting a record into a slot page.
use onion_relay.Prelude.{
  ℕ, ◌+◌, ◌^◌, ◌≤◌, ◌<◌, ◌≡◌, ◌≢◌, ◌⊎◌, inl, inr, refl, false, Option, none, some, List, [], ◌∷◌,
  length, All, All-set, All-snoc, All-imp, arith, ap, ◌∙◌, length-append, length-set,
}
use onion_relay.SlotPage.{
  SlotEntry, SlotPage, InsertResult, load, store, is_deleted, available, place, sub16,
  slot_entry_size,
}
use onion_relay.SlotPage.Bytes.{load-store, store-above}
use onion_relay.SlotPage.Invariant.{
  content, view, IsPlaced, IsPlaced-lower, IsValid, live_of_length, content_congr,
}
use onion_relay.SlotPage.Slots.{
  content-set_self, content-set_ne, content-append_self, content-append_ne, used-append,
  used-set_free, content_end,
}

-- a result that puts the bytes into a free slot and keeps the other records
pub record IsInserted (page : SlotPage) (bytes : List ℕ) (i : ℕ) (page' : SlotPage) : Type 0 where
  pub free : view page i ≡ none
  pub written : view page' i ≡ some bytes
  pub others : (j : ℕ) → j ≢ i → view page' j ≡ view page j
  pub valid : IsValid page'

-- the new record's slot, and the bytes with the record
new_slot : SlotPage → List ℕ → SlotEntry
new_slot page bytes = record {
  offset = sub16 page.free_space_end (length bytes);
  length = length bytes;
}

new_bytes : SlotPage → List ℕ → ℕ → ℕ
new_bytes page bytes = store page.page_data (sub16 page.free_space_end (length bytes)) bytes

module _ (page : SlotPage) (bytes : List ℕ) (v : IsValid page) (some_bytes : 0 < length bytes)
    (fits : page.free_space_start + length bytes ≤ page.free_space_end) where
  new_slot-live : is_deleted (new_slot page bytes) ≡ false
  new_slot-live = live_of_length (new_slot page bytes) (unfold new_slot in some_bytes)

  new_record :
      load (new_bytes page bytes) (new_slot page bytes).offset (new_slot page bytes).length ≡ bytes
  unfolding new_slot new_bytes
  new_record = load-store page.page_data (sub16 page.free_space_end (length bytes)) bytes

  old_records :
      (i : ℕ) → content (new_bytes page bytes) page.slots i ≡ content page.page_data page.slots i
  unfolding new_bytes
  old_records i =
      content_congr (new_bytes page bytes) page.page_data page.slots page.free_space_end i v.placed
        (λ a h k.
          store-above page.page_data (sub16 page.free_space_end (length bytes)) bytes a
            (omega (arith, v.accounted)))

  old-IsPlaced : All (IsPlaced (sub16 page.free_space_end (length bytes))) page.slots
  old-IsPlaced =
      All-imp (IsPlaced page.free_space_end) (IsPlaced (sub16 page.free_space_end (length bytes)))
        page.slots
        (λ slot.
          IsPlaced-lower page.free_space_end (sub16 page.free_space_end (length bytes)) slot
            (omega (arith, v.accounted)))
        v.placed

  new-IsPlaced : IsPlaced (sub16 page.free_space_end (length bytes)) (new_slot page bytes)
  new-IsPlaced = inr (
    new_slot-live,
    unfold new_slot in some_bytes,
    unfold new_slot in omega arith,
    unfold new_slot in omega (arith, v.accounted),
  )

  -- a free slot is used again
  place_reused :
      (i : ℕ)
      → i < length page.slots
      → view page i ≡ none
      → (page' : SlotPage) × (place page bytes (some i) ≡ (InsertResult.inserted i, page'))
        × IsInserted page bytes i page'
  unfolding place view new_slot new_bytes
  place_reused i h free = (
    _,
    refl,
    record {
      free = free;
      written =
          content-set_self (new_bytes page bytes) (new_slot page bytes) page.slots i h new_slot-live
          ∙ ap some new_record;
      others = λ j other.
          content-set_ne (new_bytes page bytes) (new_slot page bytes) page.slots i j other
          ∙ old_records j;
      valid = record {
        directory = rw (length-set page.slots i (new_slot page bytes)) v.directory;
        room = omega (arith, v.accounted);
        placed =
            All-set (IsPlaced (sub16 page.free_space_end (length bytes))) page.slots i
              (new_slot page bytes) old-IsPlaced new-IsPlaced;
        accounted = omega (
          arith,
          v.accounted,
          used-set_free page.page_data (new_slot page bytes) page.slots i h free,
        );
      };
    },
  )

  -- a slot is added to the directory
  place_added :
      page.free_space_start + slot_entry_size + length bytes ≤ page.free_space_end
      → (page' : SlotPage) × (place page bytes none
          ≡ (InsertResult.inserted (length page.slots), page'))
        × IsInserted page bytes (length page.slots) page'
  unfolding place view new_slot new_bytes
  place_added wide = (
    _,
    refl,
    record {
      free = content_end page.page_data page.slots;
      written =
          content-append_self (new_bytes page bytes) (new_slot page bytes) page.slots new_slot-live
          ∙ ap some new_record;
      others = λ j other.
          content-append_ne (new_bytes page bytes) (new_slot page bytes) page.slots j other
          ∙ old_records j;
      valid = record {
        directory =
            omega (
              arith,
              v.directory,
              v.accounted,
              length-append page.slots (new_slot page bytes ∷ []),
            );
        room = omega (arith, v.accounted);
        placed =
            All-snoc (IsPlaced (sub16 page.free_space_end (length bytes))) page.slots
              (new_slot page bytes) old-IsPlaced new-IsPlaced;
        accounted =
            omega (arith, v.accounted, used-append page.page_data (new_slot page bytes) page.slots);
      };
    },
  )

pub available_lem :
    (page : SlotPage) → IsValid page → available page + page.free_space_start ≡ page.free_space_end
unfolding available
available_lem page v = omega (arith, v.room, v.accounted)

-- the slot that the search has found is free, and the space that is needed is there
pub place_lem :
    (page : SlotPage) (bytes : List ℕ) (reuse : Option ℕ)
    → IsValid page
    → 0 < length bytes
    → length bytes + slot_entry_size < 2 ^ 16
    → ((reuse ≡ none) × (length bytes + slot_entry_size ≤ available page))
      ⊎ ((i : ℕ) × (reuse ≡ some i)
          × (i < length page.slots)
          × (view page i ≡ none)
          × (length bytes ≤ available page))
    → (i : ℕ) × (page' : SlotPage) × (place page bytes reuse ≡ (InsertResult.inserted i, page'))
      × IsInserted page bytes i page'
place_lem page bytes reuse v positive short (inl (e, wide)) =
    let (page', eq, done) =
      place_added page bytes v positive (omega (arith, available_lem page v))
        (omega (arith, available_lem page v)) in
    rw e (length page.slots, page', eq, done)
place_lem page bytes reuse v positive short (inr (i, e, h, free, wide)) =
    let (page', eq, done) =
      place_reused page bytes v positive (omega (arith, available_lem page v)) i h free in
    rw e (i, page', eq, done)
