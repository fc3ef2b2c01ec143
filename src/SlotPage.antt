-- ===== src/SlotPage.antt =====
-- src/nostr/db/record/slot_page.c and record_types.h: a page of 4096 bytes with a directory of slots
-- that grows up and records that grow down. The fields of the header and the directory stand apart
-- from the bytes, as lists; `slot_count` is the length of the directory. The bytes of a page are a
-- function of the address. Pointers are not null.
pub mod Bytes
pub mod Invariant
pub mod CompactLoop
pub mod Compact
pub mod Slots
pub mod Insert
pub mod InsertCases
pub mod Delete
use onion_relay.Prelude.{
  ℕ, zero, suc, ◌+◌, ◌-◌, ◌*◌, ◌%◌, ◌^◌, Bool, true, false, ◌&&◌, ◌||◌, not, Option, none, some,
  List, [], ◌∷◌, ◌++◌, ltb, leb, ◌==◌, if◌then◌else◌, length, get_or, get_elem?, set, min,
}

abbrev pub page_size : ℕ
page_size = 4096

abbrev pub header_size : ℕ
header_size = 24

abbrev pub slot_entry_size : ℕ
slot_entry_size = 4

pub record SlotEntry : Type 0 where
  pub offset : ℕ
  pub length : ℕ

pub record SlotPage : Type 0 where
  pub page_id : ℕ
  pub overflow_page : ℕ
  pub free_space_start : ℕ
  pub free_space_end : ℕ
  pub fragmented_space : ℕ
  pub slots : List SlotEntry
  pub page_data : ℕ → ℕ

-- subtraction on `uint16_t`
abbrev pub sub16 : ℕ → ℕ → ℕ
sub16 a b = (a + (2 ^ 16 - b % 2 ^ 16)) % 2 ^ 16

abbrev pub deleted_slot : SlotEntry
deleted_slot = record { offset = 0; length = 0 }

-- the bytes from an address on, and their copy to an address
unfoldable pub load : (ℕ → ℕ) → ℕ → ℕ → List ℕ
load page_data offset zero = []
load page_data offset (suc n) = page_data offset ∷ load page_data (offset + 1) n

unfoldable pub store : (ℕ → ℕ) → ℕ → List ℕ → ℕ → ℕ
store page_data offset bytes a =
    if leb offset a && ltb a (offset + length bytes)
    then get_or bytes (a - offset) 0
    else page_data a

unfoldable pub slot_page_init : ℕ → SlotPage
slot_page_init page_id = record {
  page_id = page_id;
  overflow_page = 0;
  free_space_start = header_size;
  free_space_end = page_size;
  fragmented_space = 0;
  slots = [];
  page_data = λ a. 0;
}

unfoldable pub is_deleted : SlotEntry → Bool
is_deleted slot = slot.offset == 0 && slot.length == 0

-- the search for a slot to use again
unfoldable pub reuse_slot : List SlotEntry → Option ℕ
reuse_slot [] = none
reuse_slot (slot ∷ slots) =
    if is_deleted slot
    then some 0
    else elim (reuse_slot slots) [ none ↦ none | some i ↦ some (i + 1) ]

-- The loop of slot_page_compact, with `new_end` and `temp`; `page_data` holds the page's bytes.
unfoldable pub compact_loop :
    (page_data : ℕ → ℕ) → List SlotEntry → ℕ → (temp : ℕ → ℕ) → List SlotEntry × ℕ × (ℕ → ℕ)
compact_loop page_data [] new_end temp = ([], new_end, temp)
compact_loop page_data (slot ∷ slots) new_end temp =
    let gone = is_deleted slot in
    let end' = if gone then new_end else sub16 new_end slot.length in
    let temp' = if gone then temp else store temp end' (load page_data slot.offset slot.length) in
    let (slots', last, filled) = compact_loop page_data slots end' temp' in
    ((if gone then slot else record slot { offset = end' }) ∷ slots', last, filled)

-- `stack` is what stands in the buffer `temp` at first.
unfoldable pub slot_page_compact : (stack : ℕ → ℕ) → SlotPage → SlotPage
slot_page_compact stack page =
    let (slots, new_end, temp) = compact_loop page.page_data page.slots page_size stack in
    if page.fragmented_space == 0 then page else record page {
      free_space_end = new_end;
      fragmented_space = 0;
      slots = slots;
      page_data =
          if ltb new_end page_size
          then store page.page_data new_end (load temp new_end (page_size - new_end))
          else page.page_data;
    }

pub data InsertResult : Type 0 where
  inserted : (slot_index : ℕ) → InsertResult
  full : InsertResult
  null_param : InsertResult

unfoldable pub available : SlotPage → ℕ
available page = sub16 page.free_space_end page.free_space_start

-- the record's place and its slot, where the space has been found
unfoldable pub place : SlotPage → List ℕ → Option ℕ → InsertResult × SlotPage
place page bytes reuse =
    let record_offset = sub16 page.free_space_end (length bytes) in
    let slot : SlotEntry = record { offset = record_offset; length = length bytes } in
    let page' : SlotPage = record page {
      free_space_end = record_offset;
      page_data = store page.page_data record_offset bytes;
    } in
    elim reuse [
      | some i ↦ (InsertResult.inserted i, record page' { slots = set page.slots i slot })
      | none ↦ (
        InsertResult.inserted (length page.slots),
        record page' {
          slots = page.slots ++ (slot ∷ []);
          free_space_start = (page.free_space_start + slot_entry_size) % 2 ^ 16;
        },
      )
    ]

-- the space that a record of `n` bytes takes
unfoldable pub needed : SlotPage → ℕ → ℕ
needed page n = elim (reuse_slot page.slots) [ none ↦ (n + slot_entry_size) % 2 ^ 16 | some i ↦ n ]

-- `length` is the length of the bytes.
unfoldable pub slot_page_insert : (stack : ℕ → ℕ) → SlotPage → List ℕ → InsertResult × SlotPage
slot_page_insert stack page bytes =
    let n = needed page (length bytes) in
    let tight = ltb (available page) n in
    let page' =
      if tight && leb n (available page + page.fragmented_space)
      then slot_page_compact stack page
      else page in
    if length bytes == 0
    then (InsertResult.null_param, page)
    else if tight && ltb (available page') n
    then (InsertResult.full, page')
    else place page' bytes (reuse_slot page.slots)

-- Nothing is returned for NOSTR_DB_ERROR_NOT_FOUND, else the bytes copied and the record's length.
-- `out` is the buffer's capacity, if there is a buffer.
unfoldable pub slot_page_read : SlotPage → ℕ → (out : Option ℕ) → Option (List ℕ × ℕ)
slot_page_read page i out = elim (get_elem? page.slots i) [
  | none ↦ none
  | some slot ↦
      if is_deleted slot
      then none
      else some (
        elim out [
          | none ↦ []
          | some capacity ↦ load page.page_data slot.offset (min capacity slot.length)
        ],
        slot.length,
      )
]

-- whether the record was there (NOSTR_DB_OK) or not (NOSTR_DB_ERROR_NOT_FOUND), and the page
unfoldable pub slot_page_delete : SlotPage → ℕ → Bool × SlotPage
slot_page_delete page i = elim (get_elem? page.slots i) [
  | none ↦ (false, page)
  | some slot ↦ if is_deleted slot then (false, page) else (
    true,
    record page {
      fragmented_space = (page.fragmented_space + slot.length) % 2 ^ 16;
      slots = set page.slots i deleted_slot;
    },
  )
]

unfoldable pub slot_page_free_space : SlotPage → ℕ
slot_page_free_space page = (available page + page.fragmented_space) % 2 ^ 16

unfoldable pub slot_page_slot_count : SlotPage → ℕ
slot_page_slot_count page = length page.slots
