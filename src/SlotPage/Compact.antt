-- ===== src/SlotPage/Compact.antt =====
-- Compaction of a page.
use onion_relay.SlotPage.CompactLoop.{loop-end, loop-length, loop-IsPlaced, loop-content}
use onion_relay.Prelude.{
  ℕ, ◌+◌, ◌-◌, ◌≤◌, ◌<◌, ◌≡◌, ◌⊎◌, inl, inr, refl, ◌==◌, if◌then◌else◌, length, arith, Bool-cases,
  ltb, ap, lt→ltb, ◌≢◌, ◌∙◌,
}
use onion_relay.SlotPage.{SlotPage, load, store, compact_loop, slot_page_compact, page_size}
use onion_relay.SlotPage.Bytes.{length-load, store-in, get_or-load}
use onion_relay.SlotPage.Invariant.{view, content_congr, used, IsValid}

-- the page where there is something to compact
compacted : (ℕ → ℕ) → SlotPage → SlotPage
compacted stack page =
    let new_end = (compact_loop page.page_data page.slots page_size stack).1 in
    record page {
      free_space_end = new_end;
      fragmented_space = 0;
      slots = (compact_loop page.page_data page.slots page_size stack).0;
      page_data =
          if ltb new_end page_size
          then store page.page_data new_end (
              load (compact_loop page.page_data page.slots page_size stack).2 new_end
                (page_size - new_end))
          else page.page_data;
    }

compact-cases :
    (stack : ℕ → ℕ) (page : SlotPage)
    → ((page.fragmented_space ≡ 0) × (slot_page_compact stack page ≡ page))
      ⊎ ((page.fragmented_space ≢ 0) × (slot_page_compact stack page ≡ compacted stack page))
unfolding slot_page_compact compacted
compact-cases stack page = elim (Bool-cases (page.fragmented_space == 0)) [
  | inl nothing ↦ inl (ground arith, rw nothing refl)
  | inr some_space ↦ inr ((λ e. ground arith), rw some_space refl)
]

compacted-start :
    (stack : ℕ → ℕ) (page : SlotPage)
    → (compacted stack page).free_space_start ≡ page.free_space_start
unfolding compacted
compacted-start stack page = refl

compacted-end :
    (stack : ℕ → ℕ) (page : SlotPage)
    → IsValid page
    → (compacted stack page).free_space_end ≡ page.free_space_end + page.fragmented_space
unfolding compacted
compacted-end stack page v = omega (
  arith,
  v.accounted,
  loop-end page.page_data page.slots page.free_space_end page_size stack v.placed
      (omega (arith, v.accounted)) (omega arith),
)

compacted-slots :
    (stack : ℕ → ℕ) (page : SlotPage)
    → ((compacted stack page).fragmented_space ≡ 0)
      × (used (compacted stack page).slots
          ≡ used (compact_loop page.page_data page.slots page_size stack).0)
unfolding compacted
compacted-slots stack page = (refl, refl)

compacted-byte :
    (stack : ℕ → ℕ) (page : SlotPage) (a : ℕ)
    → (compacted stack page).free_space_end ≤ a
    → a < page_size
    → (compacted stack page).page_data a
      ≡ (compact_loop page.page_data page.slots page_size stack).2 a
unfolding compacted
compacted-byte stack page a h k =
    let new_end = (compact_loop page.page_data page.slots page_size stack).1 in
    let temp = (compact_loop page.page_data page.slots page_size stack).2 in
    rw (lt→ltb new_end page_size (omega arith)) (
      store-in page.page_data new_end (load temp new_end (page_size - new_end)) a h
        (omega (arith, length-load temp new_end (page_size - new_end)))
      ∙ get_or-load temp new_end (page_size - new_end) (a - new_end) (omega arith)
      ∙ ap temp (omega arith))

compacted-IsValid :
    (stack : ℕ → ℕ) (page : SlotPage) → IsValid page → IsValid (compacted stack page)
compacted-IsValid stack page v =
    let lengths = loop-length page.page_data page.slots page_size stack in
    record {
      directory = unfold compacted in rw lengths.0 v.directory;
      room = omega (arith, compacted-end stack page v, v.room, compacted-start stack page);
      placed =
          unfold compacted in
          loop-IsPlaced page.page_data page.slots page.free_space_end page_size stack v.placed
            (omega (arith, v.accounted)) (omega arith);
      accounted =
          omega
            (arith, compacted-end stack page v, v.accounted, lengths.1, compacted-slots stack page);
    }

compacted-view :
    (stack : ℕ → ℕ) (page : SlotPage) (i : ℕ)
    → IsValid page
    → view (compacted stack page) i ≡ view page i
unfolding view
compacted-view stack page i v =
    content_congr (compacted stack page).page_data
      (compact_loop page.page_data page.slots page_size stack).2 (compacted stack page).slots
      (compacted stack page).free_space_end i (compacted-IsValid stack page v).placed
      (compacted-byte stack page)
    ∙ unfold compacted in
      (loop-content page.page_data page.slots page.free_space_end page_size stack i v.placed
        (omega (arith, v.accounted)) (omega arith))

-- slot_page_compact keeps a valid page valid and every slot's record, and joins all the free bytes:
-- the directory does not move, and nothing is fragmented afterwards.
pub compact_lem :
    (stack : ℕ → ℕ) (page : SlotPage)
    → IsValid page
    → IsValid (slot_page_compact stack page)
      × ((i : ℕ) → view (slot_page_compact stack page) i ≡ view page i)
      × (length (slot_page_compact stack page).slots ≡ length page.slots)
      × ((slot_page_compact stack page).free_space_start ≡ page.free_space_start)
      × ((slot_page_compact stack page).fragmented_space ≡ 0)
      × ((slot_page_compact stack page).free_space_end
          ≡ page.free_space_end + page.fragmented_space)
compact_lem stack page v = elim (compact-cases stack page) [
  | inl (nothing, e) ↦ rw e (v, (λ i. refl), refl, refl, nothing, omega arith)
  | inr (some_space, e) ↦ rw e (
    compacted-IsValid stack page v,
    (λ i. compacted-view stack page i v),
    unfold compacted in (loop-length page.page_data page.slots page_size stack).0,
    compacted-start stack page,
    unfold compacted in refl,
    compacted-end stack page v,
  )
]
