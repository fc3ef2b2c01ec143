-- ===== src/SlotPage/InsertCases.antt =====
-- Every outcome of an insertion.
use onion_relay.Prelude.{
  ℕ, ◌+◌, ◌^◌, ◌≤◌, ◌<◌, ◌≡◌, ◌⊎◌, inl, inr, refl, none, some, List, length, arith, Option-cases,
  dec_lt, sym, ◌∙◌, ap₂,
}
use onion_relay.SlotPage.{
  SlotPage, InsertResult, reuse_slot, slot_page_compact, slot_page_insert, slot_page_read,
  slot_page_free_space, available, place, needed, slot_entry_size,
}
use onion_relay.SlotPage.Invariant.{view, IsValid}
use onion_relay.SlotPage.Compact.{compact_lem}
use onion_relay.SlotPage.Slots.{reuse_slot_lem}
use onion_relay.SlotPage.Insert.{IsInserted, available_lem, place_lem}
use onion_relay.SlotPage.Delete.{read_whole}

pub free_space_lem :
    (page : SlotPage)
    → IsValid page
    → slot_page_free_space page ≡ available page + page.fragmented_space
unfolding slot_page_free_space
free_space_lem page v = omega (arith, v.accounted, available_lem page v)

module _ (stack : ℕ → ℕ) (page : SlotPage) (bytes : List ℕ) where
  insert_null :
      length bytes ≡ 0 → slot_page_insert stack page bytes ≡ (InsertResult.null_param, page)
  unfolding slot_page_insert
  insert_null h = ground arith

  insert_roomy :
      0 < length bytes
      → needed page (length bytes) ≤ available page
      → slot_page_insert stack page bytes ≡ place page bytes (reuse_slot page.slots)
  unfolding slot_page_insert
  insert_roomy h k = ground arith

  insert_compacted :
      0 < length bytes
      → available page < needed page (length bytes)
      → needed page (length bytes) ≤ available page + page.fragmented_space
      → needed page (length bytes) ≤ available (slot_page_compact stack page)
      → slot_page_insert stack page bytes
        ≡ place (slot_page_compact stack page) bytes (reuse_slot page.slots)
  unfolding slot_page_insert
  insert_compacted h k l m = ground arith

  insert_full :
      0 < length bytes
      → available page + page.fragmented_space < needed page (length bytes)
      → slot_page_insert stack page bytes ≡ (InsertResult.full, page)
  unfolding slot_page_insert
  insert_full h k = ground arith

-- the slot that the search found in a page, in a page with the same records
found :
    (page page' : SlotPage) (n : ℕ)
    → n + slot_entry_size < 2 ^ 16
    → length page'.slots ≡ length page.slots
    → ((i : ℕ) → view page' i ≡ view page i)
    → needed page n ≤ available page'
    → ((reuse_slot page.slots ≡ none) × (n + slot_entry_size ≤ available page'))
      ⊎ ((i : ℕ) × (reuse_slot page.slots ≡ some i)
          × (i < length page'.slots)
          × (view page' i ≡ none)
          × (n ≤ available page'))
unfolding needed
found page page' n short same records room = elim (Option-cases (reuse_slot page.slots)) [
  | inl e ↦ inl (e, ground (arith, e))
  | inr (i, e) ↦
      let (h, free) = reuse_slot_lem page.page_data page.slots i e in
      inr (i, e, omega arith, records i ∙ unfold view in free, ground (arith, e))
]

-- the record is put somewhere, and there was space for it
abbrev pub IsPut : (ℕ → ℕ) → SlotPage → List ℕ → Type 0
IsPut stack page bytes =
    (i : ℕ) × (page' : SlotPage) × (needed page (length bytes) ≤ slot_page_free_space page)
    × (slot_page_insert stack page bytes ≡ (InsertResult.inserted i, page'))
    × IsInserted page bytes i page'

IsPut-compacted :
    (stack : ℕ → ℕ) (page : SlotPage) (bytes : List ℕ)
    → IsValid page
    → length bytes + slot_entry_size < 2 ^ 16
    → 0 < length bytes
    → available page < needed page (length bytes)
    → needed page (length bytes) ≤ available page + page.fragmented_space
    → IsPut stack page bytes
IsPut-compacted stack page bytes v short positive tight enough =
    let (v', records, same, start, joined, last) = compact_lem stack page v in
    let page₁ = slot_page_compact stack page in
    let room : needed page (length bytes) ≤ available page₁ =
      omega (arith, available_lem page v, available_lem page₁ v') in
    let (i, page', e, done) =
      place_lem page₁ bytes (reuse_slot page.slots) v' positive short
        (found page page₁ (length bytes) short same records room) in
    (
      i,
      page',
      omega (arith, free_space_lem page v),
      insert_compacted stack page bytes positive tight enough room ∙ e,
      record {
        free = sym (records i) ∙ done.free;
        written = done.written;
        others = λ j other. done.others j other ∙ records j;
        valid = done.valid;
      },
    )

-- On a valid page and for a record of less than 2 ^ 16 - 4 bytes, slot_page_insert refuses the
-- empty record; it reports a full page and leaves it alone exactly if the free space is less than
-- the record and the slot that it may need; otherwise it puts the record into a free slot, keeps
-- the records of the other slots, through compaction too, and keeps the page valid.
pub insert_lem :
    (stack : ℕ → ℕ) (page : SlotPage) (bytes : List ℕ)
    → IsValid page
    → length bytes + slot_entry_size < 2 ^ 16
    → ((length bytes ≡ 0) × (slot_page_insert stack page bytes ≡ (InsertResult.null_param, page)))
      ⊎ (((slot_page_free_space page < needed page (length bytes))
            × (slot_page_insert stack page bytes ≡ (InsertResult.full, page)))
          ⊎ IsPut stack page bytes)
insert_lem stack page bytes v short = elim (dec_lt 0 (length bytes)) [
  | no empty ↦ inl (omega arith, insert_null stack page bytes (omega arith))
  | yes positive ↦ inr (elim (dec_lt (available page) (needed page (length bytes))) [
    | no roomy ↦
        let (i, page', e, done) =
          place_lem page bytes (reuse_slot page.slots) v positive short
            (found page page (length bytes) short refl (λ j. refl) (omega arith)) in
        inr (
          i,
          page',
          omega (arith, free_space_lem page v),
          insert_roomy stack page bytes positive (omega arith) ∙ e,
          done,
        )
    | yes tight ↦
        elim (dec_lt (available page + page.fragmented_space) (needed page (length bytes))) [
          | yes over ↦
              inl (omega (arith, free_space_lem page v), insert_full stack page bytes positive over)
          | no enough ↦ inr (IsPut-compacted stack page bytes v short positive tight (omega arith))
        ]
  ])
]

-- On a valid page, the record that slot_page_insert has put into a slot is the one that
-- slot_page_read copies from that slot into a buffer of its length, with that length.
read-insert :
    (stack : ℕ → ℕ) (page page' : SlotPage) (bytes : List ℕ) (i : ℕ)
    → IsValid page
    → length bytes + slot_entry_size < 2 ^ 16
    → slot_page_insert stack page bytes ≡ (InsertResult.inserted i, page')
    → slot_page_read page' i (some (length bytes)) ≡ some (bytes, length bytes)
read-insert stack page page' bytes i v short h = elim (insert_lem stack page bytes v short) [
  | inl (empty, e) ↦ absurd cc
  | inr (inl (over, e)) ↦ absurd cc
  | inr (inr (k, page₁, room, e, done)) ↦
      let slot : k ≡ i = cc in
      let result : page₁ ≡ page' = cc in
      read_whole page' i bytes (ap₂ view (sym result) (sym slot) ∙ done.written)
]
