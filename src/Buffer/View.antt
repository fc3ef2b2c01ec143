-- ===== src/Buffer/View.antt =====
-- What the pool stands for: the content of each page, from its frame or from the disk.
use onion_relay.Prelude.{
  ℕ, zero, suc, ◌*◌, ◌^◌, ◌<◌, ◌≡◌, ◌≢◌, ◌⊎◌, inl, inr, refl, true, false, Option, none, some, List,
  [], ◌∷◌, ◌==◌, if◌then◌else◌, length, arith, ◌∙◌, ap, sym, subst,
}
use onion_relay.DbTypes.{PageData}
use onion_relay.Disk.{is_page}
use onion_relay.Buffer.{Frame, BufferPool, frame_at, hash_page_id, hash_lookup}
use onion_relay.Buffer.Cycle.{steps}
use onion_relay.Buffer.Table.{slot, page_of, IsTable, find-cases, lookup-some, lookup-none}
use onion_relay.Buffer.Used.{used}

-- the frames that have a page
unfoldable pub occupied : List Frame → ℕ
occupied [] = 0
occupied (f ∷ frames) = if f.page_id == 0 then occupied frames else suc (occupied frames)

-- Each page has one frame at most, which the hash table knows, and a frame that is not dirty has the
-- page as it is on the disk.
pub record IsPool (pool : BufferPool) : Type 0 where
  pub table : IsTable pool.hash_table pool.frames
  pub meant : (i f : ℕ) → slot pool.hash_table i ≡ some f → page_of pool.frames f ≢ 0
  pub complete :
      (f : ℕ)
      → f < length pool.frames
      → page_of pool.frames f ≢ 0
      → (i : ℕ) × (slot pool.hash_table i ≡ some f)
  pub counted : used pool.hash_table ≡ occupied pool.frames
  pub room : length pool.frames < length pool.hash_table
  pub hand : pool.clock_hand < length pool.frames
  pub small : length pool.frames * 2 < 2 ^ 32
  pub on_disk :
      (f : ℕ)
      → f < length pool.frames
      → page_of pool.frames f ≢ 0
      → is_page pool.disk (page_of pool.frames f) ≡ true
  pub clean :
      (f : ℕ)
      → f < length pool.frames
      → page_of pool.frames f ≢ 0
      → (frame_at pool.frames f).is_dirty ≡ false
      → (frame_at pool.frames f).page ≡ pool.disk.file (page_of pool.frames f)
  pub is_open : pool.disk.is_open ≡ true

-- the content of a page, as the pool gives it
unfoldable pub view : BufferPool → ℕ → PageData
view pool p = elim (hash_lookup pool.hash_table pool.frames p) [
  | none ↦ pool.disk.file p
  | some f ↦ (frame_at pool.frames f).page
]

pub view_frame :
    (pool : BufferPool) (p f : ℕ)
    → hash_lookup pool.hash_table pool.frames p ≡ some f
    → view pool p ≡ (frame_at pool.frames f).page
unfolding view
view_frame pool p f e = ground (arith, e)

pub view_disk :
    (pool : BufferPool) (p : ℕ)
    → hash_lookup pool.hash_table pool.frames p ≡ none
    → view pool p ≡ pool.disk.file p
unfolding view
view_disk pool p e = ground (arith, e)

pub page_bound : (frames : List Frame) (f : ℕ) → page_of frames f ≢ 0 → f < length frames
page_bound [] f h = absurd (h refl)
page_bound (x ∷ frames) zero h = omega arith
page_bound (x ∷ frames) (suc f) h = omega (arith, page_bound frames f h)

module _ {pool : BufferPool} (v : IsPool pool) where
  pub lookup_frame :
      (f : ℕ)
      → page_of pool.frames f ≢ 0
      → hash_lookup pool.hash_table pool.frames (page_of pool.frames f) ≡ some f
  lookup_frame f h =
      let (i, at) = v.complete f (page_bound pool.frames f h) h in
      lookup-some v.table (page_of pool.frames f) i f at refl

  pub view_cached :
      (p f : ℕ) → p ≢ 0 → page_of pool.frames f ≡ p → view pool p ≡ (frame_at pool.frames f).page
  view_cached p f h e = view_frame pool p f (
      subst (λ q. hash_lookup pool.hash_table pool.frames q ≡ some f) e
        (lookup_frame f (λ z. h (sym e ∙ z))))

  pub view_missing :
      (p : ℕ)
      → p ≢ 0
      → ((f : ℕ) → f < length pool.frames → page_of pool.frames f ≢ p)
      → (hash_lookup pool.hash_table pool.frames p ≡ none) × (view pool p ≡ pool.disk.file p)
  view_missing p h missing =
      let e : hash_lookup pool.hash_table pool.frames p ≡ none =
        lookup-none pool.hash_table pool.frames p (λ i f at. missing f (v.table.inside i f at)) in
      (e, view_disk pool p e)

  -- A page is in a frame or in none.
  pub cached-cases :
      (p : ℕ)
      → p ≢ 0
      → ((f : ℕ) × (f < length pool.frames) × (page_of pool.frames f ≡ p))
        ⊎ ((f : ℕ) → f < length pool.frames → page_of pool.frames f ≢ p)
  cached-cases p h = elim (find-cases pool.hash_table pool.frames p v.table) [
    | inl (i, f, found, at, same) ↦ inl (f, v.table.inside i f at, same)
    | inr (not_found, absent) ↦
        inr (λ f b same. let (i, at) = v.complete f b (λ z. h (sym same ∙ z)) in absent i f at same)
  ]

  -- Two frames with one page are the same.
  pub one_frame :
      (f g : ℕ) → page_of pool.frames f ≢ 0 → page_of pool.frames f ≡ page_of pool.frames g → f ≡ g
  one_frame f g h e = ground (
    arith,
    lookup_frame f h,
    lookup_frame g (λ z. h (e ∙ z)),
    ap (hash_lookup pool.hash_table pool.frames) e,
  )

-- A table does not depend on the frames but for the pages of its entries.
pub frames-IsTable :
    (table : List (Option ℕ)) (frames frames' : List Frame)
    → IsTable table frames
    → length frames' ≡ length frames
    → ((i f : ℕ) → slot table i ≡ some f → page_of frames' f ≡ page_of frames f)
    → IsTable table frames'
frames-IsTable table frames frames' v len same = record {
  inside = λ i f h. omega (arith, v.inside i f h, len);
  distinct = λ i j f g h k e. v.distinct i j f g h k (sym (same i f h) ∙ e ∙ same j g k);
  reach = λ i x f h xb w. v.reach i x f h xb (
      subst
        (λ q.
          steps (length table) (hash_page_id q (length table)) x
          < steps (length table) (hash_page_id q (length table)) i)
        (same i f h) w);
}
