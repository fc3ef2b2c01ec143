-- ===== src/Buffer/Alloc.antt =====
-- buffer_pool_alloc_page: a new page comes into a frame.
use onion_relay.Prelude.{
  ℕ, ◌+◌, ◌≤◌, ◌<◌, ◌≡◌, ◌≢◌, ◌⊎◌, inl, inr, true, false, none, some, List, [], length, set-set,
  get_or-set_self, length-set, arith, ◌∙◌, ap, sym,
}
use onion_relay.DbTypes.{zero_page}
use onion_relay.Disk.{
  DiskManager, Kernel, is_page, disk_alloc_page, disk_free_page, max_pages, extend_pages,
}
use onion_relay.Disk.FreeList.{is_in, IsValid}
use onion_relay.Disk.Alloc.{IsReliable}
use onion_relay.Disk.Life.{IsFresh, alloc_lem}
use onion_relay.Buffer.{Frame, BufferPool, empty_frame, frame_at}
use onion_relay.Buffer.Frames.{acquire_frame, install}
use onion_relay.Buffer.Calls.{buffer_pool_alloc_page}
use onion_relay.Buffer.Table.{page_of}
use onion_relay.Buffer.View.{IsPool, view, view_cached, view_missing, cached-cases}
use onion_relay.Buffer.Evict.{emptied, empty_self}
use onion_relay.Buffer.Acquire.{IsAcquired, IsPinned}
use onion_relay.Buffer.Room.{acquire_lem}
use onion_relay.Buffer.Install.{install-emptied, install_lem}
use onion_relay.Buffer.Pin.{acquired_missing}

abbrev fresh_frame : ℕ → Frame
fresh_frame p = record {
  page_id = p;
  pin_count = 1;
  is_dirty = true;
  ref_bit = true;
  page = zero_page;
  lsn = 0;
}

-- the pool over a file in which only pages have changed that are in no frame
module _ (pool : BufferPool) (v : IsPool pool) (d : DiskManager) (p : ℕ) (o : d.is_open ≡ true)
    (grown : pool.disk.total_pages ≤ d.total_pages)
    (others : (q : ℕ) → q < pool.disk.total_pages → q ≢ p → d.file q ≡ pool.disk.file q)
    (missing : (g : ℕ) → g < length pool.frames → page_of pool.frames g ≢ p) where
  abbrev moved : BufferPool
  moved = record pool { disk = d }

  page_cases :
      (q : ℕ) → is_page pool.disk q ≡ true → (q < pool.disk.total_pages) × (is_page d q ≡ true)
  page_cases q h = (ground (arith, h), ground (arith, h, grown))

  moved-IsPool : IsPool moved
  moved-IsPool = record {
    table = v.table;
    meant = v.meant;
    complete = v.complete;
    counted = v.counted;
    room = v.room;
    hand = v.hand;
    small = v.small;
    on_disk = λ f b n. (page_cases (page_of pool.frames f) (v.on_disk f b n)).1;
    clean = λ f b n c.
        v.clean f b n c
        ∙ sym (
            others (page_of pool.frames f) (page_cases (page_of pool.frames f) (v.on_disk f b n)).0
              (missing f b));
    is_open = o;
  }

  moved-view : (q : ℕ) → q ≢ 0 → q < pool.disk.total_pages → q ≢ p → view moved q ≡ view pool q
  moved-view q h b other = elim (cached-cases v q h) [
    | inl (f, fb, e) ↦ view_cached moved-IsPool q f h e ∙ sym (view_cached v q f h e)
    | inr gone ↦
        (view_missing moved-IsPool q h gone).1 ∙ others q b other ∙ sym (view_missing v q h gone).1
  ]

-- a page that is zeroed and in a frame, and the other pages with the content that they had
pub record IsNewPage (pool : BufferPool) (p f : ℕ) (pool' : BufferPool) : Type 0 where
  pub valid : IsPool pool'
  pub page_id : page_of pool'.frames f ≡ p
  pub zeroed : (frame_at pool'.frames f).page ≡ zero_page
  pub others : (q : ℕ) → q ≢ 0 → q < pool.disk.total_pages → q ≢ p → view pool' q ≡ view pool q

alloc_of :
    (k : Kernel) (pool pool₁ pool₂ : BufferPool) (d : DiskManager) (p f : ℕ)
    → disk_alloc_page k pool.disk ≡ (p, d)
    → p ≢ 0
    → acquire_frame k (record pool { disk = d }) ≡ some (some f, pool₁)
    → install pool₁ f (fresh_frame p) ≡ some pool₂
    → buffer_pool_alloc_page k pool ≡ some (p, f, pool₂)
unfolding buffer_pool_alloc_page
alloc_of k pool pool₁ pool₂ d p f e n a i = ground (arith, e, n, a, i)

alloc_pinned :
    (k : Kernel) (pool pool₁ : BufferPool) (d : DiskManager) (p : ℕ)
    → disk_alloc_page k pool.disk ≡ (p, d)
    → p ≢ 0
    → acquire_frame k (record pool { disk = d }) ≡ some (none, pool₁)
    → buffer_pool_alloc_page k pool
      ≡ some (0, 0, record pool₁ { disk = (disk_free_page k pool₁.disk p).1 })
unfolding buffer_pool_alloc_page
alloc_pinned k pool pool₁ d p e n a = ground (arith, e, n, a)

alloc_full :
    (k : Kernel) (pool : BufferPool)
    → disk_alloc_page k pool.disk ≡ (0, pool.disk)
    → buffer_pool_alloc_page k pool ≡ some (0, 0, pool)
unfolding buffer_pool_alloc_page
alloc_full k pool e = ground (arith, e)

filled_lem :
    (k : Kernel) (pool pool₁ : BufferPool) (ids : List ℕ) (p f : ℕ) (d : DiskManager)
    → IsPool pool
    → disk_alloc_page k pool.disk ≡ (p, d)
    → IsFresh pool.disk ids p d
    → ((g : ℕ) → g < length pool.frames → page_of pool.frames g ≢ p)
    → acquire_frame k (record pool { disk = d }) ≡ some (some f, pool₁)
    → IsAcquired (record pool { disk = d }) f pool₁
    → (pool' : BufferPool) × (buffer_pool_alloc_page k pool ≡ some (p, f, pool'))
      × IsNewPage pool p f pool'
filled_lem k pool pool₁ ids p f d v e fresh missing a got =
    let n : p ≢ 0 = λ z. omega (arith, fresh.inside, z) in
    let gone = acquired_missing (record pool { disk = d }) pool₁ p f n missing got in
    let on : is_page pool₁.disk p ≡ true = ground (arith, fresh.inside, got.total) in
    let (pool₂, result, inst) =
      install_lem (emptied pool₁ f) f (fresh_frame p) got.valid
        (omega (arith, got.bound, length-set pool₁.frames f empty_frame))
        (ap (λ x. x.page_id) (empty_self pool₁ f got.bound)) n gone on (λ c. ground (arith, c)) in
    let at : frame_at pool₂.frames f ≡ fresh_frame p =
      ap (λ x. frame_at x f) inst.frames
      ∙ ap (λ x. frame_at x f) (set-set pool₁.frames f empty_frame (fresh_frame p))
      ∙ get_or-set_self pool₁.frames f (fresh_frame p) empty_frame got.bound in
    (
      pool₂,
      alloc_of k pool pool₁ pool₂ d p f e n a
          (sym (install-emptied pool₁ f (fresh_frame p)) ∙ result),
      record {
        valid = inst.valid;
        page_id = ap (λ x. x.page_id) at;
        zeroed = ap (λ x. x.page) at;
        others = λ q h b other.
            inst.others q h other
            ∙ got.same_view q h
            ∙ moved-view pool v d p fresh.valid.is_open fresh.grown fresh.others missing q h b
                other;
      },
    )

-- With a reliable kernel, on a valid pool over a valid file with its list of free pages, of which none
-- is in a frame, buffer_pool_alloc_page ends. It gives a page that was free or beyond the end of the
-- file, zeroed, in a frame, and the pool stays valid and stands for the same content of the other
-- pages of the file; or it gives no page, and all frames are pinned, or there is no free page and the
-- file cannot be extended.
pub buffer_pool_alloc_page_lem :
    (k : Kernel) (pool : BufferPool) (ids : List ℕ)
    → IsReliable k
    → IsPool pool
    → IsValid pool.disk ids
    → 0 < pool.disk.total_pages
    → ((g : ℕ) → g < length pool.frames → is_in (page_of pool.frames g) ids ≡ false)
    → ((p : ℕ) × (f : ℕ) × (pool' : BufferPool) × (buffer_pool_alloc_page k pool
          ≡ some (p, f, pool'))
        × ((is_in p ids ≡ true) ⊎ (pool.disk.total_pages ≤ p))
        × IsNewPage pool p f pool')
      ⊎ ((pool' : BufferPool) × (buffer_pool_alloc_page k pool ≡ some (0, 0, pool'))
          × (IsPinned pool ⊎ (ids ≡ []) × (max_pages < pool.disk.total_pages + extend_pages)))
buffer_pool_alloc_page_lem k pool ids r v w positive apart =
    elim (alloc_lem k pool.disk ids r w positive) [
      | inr (none_free, over, e) ↦ inr (pool, alloc_full k pool e, inr (none_free, over))
      | inl (p, d, e, fresh) ↦
          let n : p ≢ 0 = λ z. omega (arith, fresh.inside, z) in
          let missing = absent p n fresh.unused in
          let moved_valid =
            moved-IsPool pool v d p fresh.valid.is_open fresh.grown fresh.others missing in
          elim (acquire_lem k (record pool { disk = d }) r moved_valid) [
            | inl (pool₁, a, refused) ↦ inr (
              record pool₁ { disk = (disk_free_page k pool₁.disk p).1 },
              alloc_pinned k pool pool₁ d p e n a,
              inl refused.2,
            )
            | inr (f, pool₁, a, got) ↦
                let (pool₂, result, new) =
                  filled_lem k pool pool₁ ids p f d v e fresh missing a got in
                inl (p, f, pool₂, result, fresh.unused, new)
          ]
    ]
  where
    absent :
        (p : ℕ)
        → p ≢ 0
        → (is_in p ids ≡ true) ⊎ (pool.disk.total_pages ≤ p)
        → (g : ℕ) → g < length pool.frames
        → page_of pool.frames g ≢ p
    absent p n unused g b e = elim unused [
      | inl free ↦ ground (arith, free, apart g b, ap (λ q. is_in q ids) e)
      | inr beyond ↦ ground (arith, v.on_disk g b (λ z. n (sym e ∙ z)), beyond, e)
    ]
