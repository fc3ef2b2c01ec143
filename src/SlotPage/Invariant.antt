-- ===== src/SlotPage/Invariant.antt =====
-- What a slot page stands for, and when it is well formed.
use onion_relay.Prelude.{
  ℕ, zero, suc, ◌+◌, ◌*◌, ◌≤◌, ◌<◌, ◌≡◌, ◌⊎◌, inl, inr, refl, true, false, Option, none, some, List,
  [], ◌∷◌, if◌then◌else◌, length, All, arith, ap,
}
use onion_relay.SlotPage.Bytes.{load_congr}
use onion_relay.SlotPage.{
  SlotEntry, SlotPage, load, is_deleted, slot_page_init, page_size, header_size, slot_entry_size,
}

-- the record of a slot, if the slot is in use
unfoldable pub content : (ℕ → ℕ) → List SlotEntry → ℕ → Option (List ℕ)
content page_data [] i = none
content page_data (slot ∷ slots) zero =
    if is_deleted slot then none else some (load page_data slot.offset slot.length)
content page_data (slot ∷ slots) (suc i) = content page_data slots i

unfoldable pub view : SlotPage → ℕ → Option (List ℕ)
view page = content page.page_data page.slots

-- a slot that is free, or whose record lies between an address and the end of the page
abbrev pub IsPlaced : ℕ → SlotEntry → Type 0
IsPlaced low slot =
    (is_deleted slot ≡ true)
    ⊎ ((is_deleted slot ≡ false)
        × (0 < slot.length)
        × (low ≤ slot.offset)
        × (slot.offset + slot.length ≤ page_size))

-- the bytes of all the records
unfoldable pub used : List SlotEntry → ℕ
used [] = 0
used (slot ∷ slots) = slot.length + used slots

-- The directory ends where the free space starts, the records lie above the free space, and the
-- bytes below the end of the page are free, fragmented or used.
pub record IsValid (page : SlotPage) : Type 0 where
  pub directory : page.free_space_start ≡ header_size + slot_entry_size * length page.slots
  pub room : page.free_space_start ≤ page.free_space_end
  pub placed : All (IsPlaced page.free_space_end) page.slots
  pub accounted : used page.slots + page.fragmented_space + page.free_space_end ≡ page_size

pub init-IsValid : (id : ℕ) → IsValid (slot_page_init id)
unfolding slot_page_init used
init-IsValid id = record {
  directory = refl;
  room = omega arith;
  placed = tt;
  accounted = omega arith;
}

pub IsPlaced-lower :
    (low low' : ℕ) (slot : SlotEntry) → low' ≤ low → IsPlaced low slot → IsPlaced low' slot
IsPlaced-lower low low' slot h (inl gone) = inl gone
IsPlaced-lower low low' slot h (inr (live, positive, above, within)) =
    inr (live, positive, omega arith, within)

pub deleted-length : (slot : SlotEntry) → is_deleted slot ≡ true → slot.length ≡ 0
unfolding is_deleted
deleted-length slot h = ground arith

pub live_of_length : (slot : SlotEntry) → 0 < slot.length → is_deleted slot ≡ false
unfolding is_deleted
live_of_length slot h = ground arith

-- the records depend on the bytes from the lowest of them to the end of the page
pub content_congr :
    (d d' : ℕ → ℕ) (slots : List SlotEntry) (low i : ℕ)
    → All (IsPlaced low) slots
    → ((a : ℕ) → low ≤ a → a < page_size → d a ≡ d' a)
    → content d slots i ≡ content d' slots i
unfolding content
content_congr d d' [] low i p h = refl
content_congr d d' (slot ∷ slots) low (suc i) p h = content_congr d d' slots low i p.1 h
content_congr d d' (slot ∷ slots) low zero (inl gone, p) h = rw gone refl
content_congr d d' (slot ∷ slots) low zero (inr (live, positive, above, within), p) h =
    rw live
      (ap some (load_congr d d' slot.offset slot.length (λ a l k. h a (omega arith) (omega arith))))
