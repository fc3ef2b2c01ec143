-- ===== src/SlotPage/CompactLoop.antt =====
-- The loop of the compaction moves the records and loses none.
use onion_relay.Prelude.{
  ℕ, zero, suc, ◌+◌, ◌≤◌, ◌≡◌, inl, inr, refl, true, false, some, List, [], ◌∷◌, length, All, arith,
  Bool-cases, ap, subst, ◌∙◌,
}
use onion_relay.SlotPage.{SlotEntry, load, store, is_deleted, compact_loop, page_size, sub16}
use onion_relay.SlotPage.Bytes.{length-load, load_congr, load-store, store-above}
use onion_relay.SlotPage.Invariant.{content, IsPlaced, used, deleted-length, live_of_length}

-- the loop's steps at a free slot and at a slot in use
loop_gone :
    (d : ℕ → ℕ) (slot : SlotEntry) (slots : List SlotEntry) (e : ℕ) (temp : ℕ → ℕ)
    → is_deleted slot ≡ true
    → compact_loop d (slot ∷ slots) e temp ≡ (
      slot ∷ (compact_loop d slots e temp).0,
      (compact_loop d slots e temp).1,
      (compact_loop d slots e temp).2,
    )
unfolding compact_loop
loop_gone d slot slots e temp gone = rw gone refl

moved : (ℕ → ℕ) → SlotEntry → ℕ → (ℕ → ℕ) → ℕ → ℕ
moved d slot e temp = store temp (sub16 e slot.length) (load d slot.offset slot.length)

loop_live :
    (d : ℕ → ℕ) (slot : SlotEntry) (slots : List SlotEntry) (e : ℕ) (temp : ℕ → ℕ)
    → is_deleted slot ≡ false
    → compact_loop d (slot ∷ slots) e temp ≡ (
      record slot { offset = sub16 e slot.length }
          ∷ (compact_loop d slots (sub16 e slot.length) (moved d slot e temp)).0,
      (compact_loop d slots (sub16 e slot.length) (moved d slot e temp)).1,
      (compact_loop d slots (sub16 e slot.length) (moved d slot e temp)).2,
    )
unfolding compact_loop moved
loop_live d slot slots e temp live = rw live refl

module _ (d : ℕ → ℕ) where
  pub loop-end :
      (slots : List SlotEntry) (low e : ℕ) (temp : ℕ → ℕ)
      → All (IsPlaced low) slots
      → used slots ≤ e
      → e ≤ page_size
      → (compact_loop d slots e temp).1 + used slots ≡ e
  unfolding used
  loop-end [] low e temp p u l = unfold compact_loop in omega arith
  loop-end (slot ∷ slots) low e temp (inl gone, p) u l = rw (loop_gone d slot slots e temp gone) (
      omega (
        arith,
        deleted-length slot gone,
        loop-end slots low e temp p (omega (arith, deleted-length slot gone)) l,
      ))
  loop-end (slot ∷ slots) low e temp (inr (live, positive, above, within), p) u l =
      rw (loop_live d slot slots e temp live) (
        omega (
          arith,
          loop-end slots low (sub16 e slot.length) (moved d slot e temp) p (omega arith)
              (omega arith),
        ))

  pub loop-length :
      (slots : List SlotEntry) (e : ℕ) (temp : ℕ → ℕ)
      → (length (compact_loop d slots e temp).0 ≡ length slots)
        × (used (compact_loop d slots e temp).0 ≡ used slots)
  unfolding used
  loop-length [] e temp = unfold compact_loop in (refl, refl)
  loop-length (slot ∷ slots) e temp = elim (Bool-cases (is_deleted slot)) [
    | inl gone ↦
        let rest = loop-length slots e temp in
        rw (loop_gone d slot slots e temp gone) (ap suc rest.0, ap (λ n. slot.length + n) rest.1)
    | inr live ↦
        let rest = loop-length slots (sub16 e slot.length) (moved d slot e temp) in
        rw (loop_live d slot slots e temp live) (ap suc rest.0, ap (λ n. slot.length + n) rest.1)
  ]

  pub loop-IsPlaced :
      (slots : List SlotEntry) (low e : ℕ) (temp : ℕ → ℕ)
      → All (IsPlaced low) slots
      → used slots ≤ e
      → e ≤ page_size
      → All (IsPlaced (compact_loop d slots e temp).1) (compact_loop d slots e temp).0
  unfolding used
  loop-IsPlaced [] low e temp p u l = unfold compact_loop in tt
  loop-IsPlaced (slot ∷ slots) low e temp (inl gone, p) u l =
      rw (loop_gone d slot slots e temp gone)
        (inl gone, loop-IsPlaced slots low e temp p (omega (arith, deleted-length slot gone)) l)
  loop-IsPlaced (slot ∷ slots) low e temp (inr (live, positive, above, within), p) u l =
      rw (loop_live d slot slots e temp live) (
        inr (
          live_of_length (record slot { offset = sub16 e slot.length }) positive,
          positive,
          omega (
            arith,
            loop-end slots low (sub16 e slot.length) (moved d slot e temp) p (omega arith)
                (omega arith),
          ),
          omega arith,
        ),
        loop-IsPlaced slots low (sub16 e slot.length) (moved d slot e temp) p (omega arith)
            (omega arith),
      )

  -- what stands above the records that are still to move is kept
  loop-keep :
      (slots : List SlotEntry) (low e : ℕ) (temp : ℕ → ℕ) (a : ℕ)
      → All (IsPlaced low) slots
      → used slots ≤ e
      → e ≤ page_size
      → e ≤ a
      → (compact_loop d slots e temp).2 a ≡ temp a
  unfolding used
  loop-keep [] low e temp a p u l h = unfold compact_loop in refl
  loop-keep (slot ∷ slots) low e temp a (inl gone, p) u l h =
      rw (loop_gone d slot slots e temp gone)
        (loop-keep slots low e temp a p (omega (arith, deleted-length slot gone)) l h)
  loop-keep (slot ∷ slots) low e temp a (inr (live, positive, above, within), p) u l h =
      rw (loop_live d slot slots e temp live) (
        loop-keep slots low (sub16 e slot.length) (moved d slot e temp) a p (omega arith)
          (omega arith) (omega arith)
        ∙ unfold moved in
          (store-above temp (sub16 e slot.length) (load d slot.offset slot.length) a
            (omega (arith, length-load d slot.offset slot.length))))

  load-moved :
      (slot : SlotEntry) (e : ℕ) (temp : ℕ → ℕ)
      → load (moved d slot e temp) (sub16 e slot.length) slot.length
        ≡ load d slot.offset slot.length
  unfolding moved
  load-moved slot e temp =
      subst
        (λ n. load (moved d slot e temp) (sub16 e slot.length) n ≡ load d slot.offset slot.length)
        (length-load d slot.offset slot.length)
        (load-store temp (sub16 e slot.length) (load d slot.offset slot.length))

  pub loop-content :
      (slots : List SlotEntry) (low e : ℕ) (temp : ℕ → ℕ) (i : ℕ)
      → All (IsPlaced low) slots
      → used slots ≤ e
      → e ≤ page_size
      → content (compact_loop d slots e temp).2 (compact_loop d slots e temp).0 i
        ≡ content d slots i
  unfolding used content
  loop-content [] low e temp i p u l = unfold compact_loop in refl
  loop-content (slot ∷ slots) low e temp zero (inl gone, p) u l =
      rw (loop_gone d slot slots e temp gone, gone) refl
  loop-content (slot ∷ slots) low e temp (suc i) (inl gone, p) u l =
      rw (loop_gone d slot slots e temp gone)
        (loop-content slots low e temp i p (omega (arith, deleted-length slot gone)) l)
  loop-content (slot ∷ slots) low e temp (suc i) (inr (live, positive, above, within), p) u l =
      rw (loop_live d slot slots e temp live) (
        loop-content slots low (sub16 e slot.length) (moved d slot e temp) i p (omega arith)
          (omega arith))
  loop-content (slot ∷ slots) low e temp zero (inr (live, positive, above, within), p) u l =
      rw
        (
          loop_live d slot slots e temp live,
          live,
          live_of_length (record slot { offset = sub16 e slot.length }) positive,
        )
        (ap some (
          load_congr (compact_loop d slots (sub16 e slot.length) (moved d slot e temp)).2
            (moved d slot e temp) (sub16 e slot.length) slot.length
            (λ a h k.
              loop-keep slots low (sub16 e slot.length) (moved d slot e temp) a p (omega arith)
                (omega arith) h)
          ∙ load-moved slot e temp))
