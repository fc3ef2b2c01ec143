-- ===== src/SlotPage/Delete.antt =====
-- Reading and deleting the records of a slot page.
use onion_relay.Prelude.{
  ℕ, zero, suc, ◌+◌, ◌%◌, ◌^◌, ◌<◌, ◌≡◌, ◌≢◌, ◌⊎◌, inl, inr, refl, true, false, Option, none, some,
  List, [], ◌∷◌, length, set, All-set, arith, Bool-cases, get_elem?, length-set, min, take,
  take-length,
}
use onion_relay.SlotPage.{
  SlotEntry, SlotPage, load, is_deleted, slot_page_read, slot_page_delete, deleted_slot,
  slot_page_free_space, available,
}
use onion_relay.SlotPage.Invariant.{content, view, IsPlaced, used, IsValid}
use native.Mathlib.Nat.{suc-min-suc, zero-min, min-zero}
use onion_relay.SlotPage.Bytes.{length-load}
use onion_relay.SlotPage.Slots.{content-set_free, content-set_ne}

take-load : (d : ℕ → ℕ) (o n capacity : ℕ) → take capacity (load d o n) ≡ load d o (min capacity n)
unfolding load
take-load d o n zero = rw (zero-min n) refl
take-load d o zero (suc capacity) = rw (min-zero (suc capacity)) refl
take-load d o (suc n) (suc capacity) =
    rw (suc-min-suc capacity n, take-load d (o + 1) n capacity) refl

slot-cases :
    (d : ℕ → ℕ) (slots : List SlotEntry) (i : ℕ)
    → ((content d slots i ≡ none)
        × ((get_elem? slots i ≡ none)
            ⊎ ((s : SlotEntry) × (get_elem? slots i ≡ some s) × (is_deleted s ≡ true))))
      ⊎ ((s : SlotEntry) × (get_elem? slots i ≡ some s)
          × (is_deleted s ≡ false)
          × (content d slots i ≡ some (load d s.offset s.length))
          × (i < length slots)
          × (used (set slots i deleted_slot) + s.length ≡ used slots))
unfolding content used
slot-cases d [] i = inl (refl, inl refl)
slot-cases d (s ∷ slots) zero = elim (Bool-cases (is_deleted s)) [
  | inl gone ↦ inl (rw gone refl, inr (s, refl, gone))
  | inr live ↦ inr (s, refl, live, rw live refl, omega arith, omega arith)
]
slot-cases d (s ∷ slots) (suc i) = elim (slot-cases d slots i) [
  | inl free ↦ inl free
  | inr (t, e, live, c, h, u) ↦ inr (t, e, live, c, omega arith, omega arith)
]

-- slot_page_read copies as much of the slot's record as the buffer holds and reports the record's
-- length, or finds nothing where the slot is free or outside the directory.
pub read_lem :
    (page : SlotPage) (i : ℕ) (out : Option ℕ)
    → ((view page i ≡ none) × (slot_page_read page i out ≡ none))
      ⊎ ((bytes : List ℕ) × (view page i ≡ some bytes)
          × (slot_page_read page i out
              ≡ some (elim out [ none ↦ [] | some capacity ↦ take capacity bytes ], length bytes)))
unfolding slot_page_read view
read_lem page i out = elim (slot-cases page.page_data page.slots i) [
  | inl (free, inl e) ↦ inl (free, ground (arith, e))
  | inl (free, inr (s, e, gone)) ↦ inl (free, ground (arith, e, gone))
  | inr (s, e, live, c, h, u) ↦ inr (
    load page.page_data s.offset s.length,
    c,
    ground (arith, e, live, length-load page.page_data s.offset s.length, copied s out),
  )
]
  where
    copied :
        (s : SlotEntry) (out : Option ℕ)
        → Path
            (Option (List ℕ × ℕ))
            (some (
              elim out [
                | none ↦ []
                | some capacity ↦ load page.page_data s.offset (min capacity s.length)
              ],
              s.length,
            ))
            (some (
              elim out [
                | none ↦ []
                | some capacity ↦ take capacity (load page.page_data s.offset s.length)
              ],
              s.length,
            ))
    copied s none = refl
    copied s (some capacity) = rw (take-load page.page_data s.offset s.length capacity) refl

pub read_whole :
    (page : SlotPage) (i : ℕ) (bytes : List ℕ)
    → view page i ≡ some bytes
    → slot_page_read page i (some (length bytes)) ≡ some (bytes, length bytes)
read_whole page i bytes h = elim (read_lem page i (some (length bytes))) [
  | inl (free, e) ↦ absurd cc
  | inr (bytes', e, r) ↦ let same : bytes' ≡ bytes = cc in rw (r, same, take-length bytes) refl
]

-- On a valid page, slot_page_delete finds nothing and leaves the page alone where the slot holds no
-- record; otherwise the slot is free afterwards, the other slots keep their records, the free space
-- grows by the record's length and the page stays valid.
pub delete_lem :
    (page : SlotPage) (i : ℕ)
    → IsValid page
    → ((view page i ≡ none) × (slot_page_delete page i ≡ (false, page)))
      ⊎ ((bytes : List ℕ) × (page' : SlotPage) × (view page i ≡ some bytes)
          × (slot_page_delete page i ≡ (true, page'))
          × (view page' i ≡ none)
          × ((j : ℕ) → j ≢ i → view page' j ≡ view page j)
          × (slot_page_free_space page' ≡ slot_page_free_space page + length bytes)
          × IsValid page')
unfolding slot_page_delete view
delete_lem page i v = elim (slot-cases page.page_data page.slots i) [
  | inl (free, inl e) ↦ inl (free, ground (arith, e))
  | inl (free, inr (s, e, gone)) ↦ inl (free, ground (arith, e, gone))
  | inr (s, e, live, c, h, u) ↦ inr (
    load page.page_data s.offset s.length,
    record page {
      fragmented_space = (page.fragmented_space + s.length) % 2 ^ 16;
      slots = set page.slots i deleted_slot;
    },
    c,
    ground (arith, e, live),
    content-set_free page.page_data deleted_slot page.slots i h (unfold is_deleted in refl),
    (λ j other. content-set_ne page.page_data deleted_slot page.slots i j other),
    unfold slot_page_free_space available in
        omega (arith, v.room, v.accounted, u, length-load page.page_data s.offset s.length),
    record {
      directory = rw (length-set page.slots i deleted_slot) v.directory;
      room = v.room;
      placed =
          All-set (IsPlaced page.free_space_end) page.slots i deleted_slot v.placed
            (inl (unfold is_deleted in refl));
      accounted = omega (arith, v.accounted, u);
    },
  )
]
