-- ===== src/Disk/Alloc.antt =====
-- Allocation takes the head of the free list, extends the file where the list is empty, and a freed
-- page is the next that is allocated.
use onion_relay.Prelude.{
  ℕ, ◌+◌, ◌-◌, ◌%◌, ◌^◌, ◌≤◌, ◌<◌, ◌≡◌, ◌≢◌, refl, true, false, List, [], ◌∷◌, All, arith, ==_refl,
  ◌∙◌, ap,
}
use onion_relay.DbTypes.{DbError, PageData, zero_page}
use onion_relay.Disk.{
  DiskManager, Kernel, put_page, free_page, next_free, pread, pwrite, take_head, disk_alloc_page,
  disk_free_page,
}
use onion_relay.Disk.FreeList.{
  is_in, Chain, IsValid, next_free_page, Chain-put, put_ne, Chain-cons, Chain-nil, cons,
}

pub put_self : (file : ℕ → PageData) (a : ℕ) (page : PageData) → put_page file a page a ≡ page
put_self file a page = ground (arith, ==_refl a)

pub head_bound : {d : DiskManager} {ids : List ℕ} → IsValid d ids → d.free_list_head < 2 ^ 32
head_bound {d} {ids} v =
    chain_bound d.file d.free_list_head ids d.total_pages v.chain v.inside (omega (arith, v.total))
  where
    chain_bound :
        (file : ℕ → PageData) (h : ℕ) (ids : List ℕ) (n : ℕ)
        → Chain file h ids
        → All (λ p. p < n) ids
        → n ≤ 2 ^ 32
        → h < 2 ^ 32
    chain_bound file h [] n c i l = omega (arith, Chain-nil c)
    chain_bound file h (p ∷ ids) n c i l = omega (arith, (Chain-cons c).0, i.0)

-- a kernel that does what it is asked
pub record IsReliable (k : Kernel) : Type 0 where
  pub reading : (n : ℕ) → k.reads n ≡ true
  pub writing : (n : ℕ) → k.writes n ≡ true
  pub resizing : (n : ℕ) → k.resizes n ≡ true

-- what an allocation leaves: the page is off the list and zeroed, and the other pages are as before
pub record IsAllocated (d : DiskManager) (p : ℕ) (rest : List ℕ) (d' : DiskManager) : Type 0 where
  pub valid : IsValid d' rest
  pub zeroed : d'.file p ≡ zero_page
  pub others : (q : ℕ) → q ≢ p → d'.file q ≡ d.file q
  pub total : d'.total_pages ≡ d.total_pages

module _ (k : Kernel) (r : IsReliable k) where
  pub take_head_lem :
      (d : DiskManager) (p : ℕ) (rest : List ℕ)
      → IsValid d (p ∷ rest)
      → (d' : DiskManager) × (take_head k d ≡ (p, d')) × IsAllocated d p rest d'
  take_head_lem d p rest v =
      let (head, positive, out, c) = Chain-cons v.chain in
      let d' : DiskManager = record d {
        free_list_head = next_free (d.file p);
        free_page_count = (d.free_page_count + (2 ^ 32 - 1)) % 2 ^ 32;
        file = put_page d.file p zero_page;
        calls = d.calls + 1 + 1;
      } in
      (
        d',
        unfold take_head pread pwrite in
            ground (arith, r.reading d.calls, r.writing (d.calls + 1), head),
        record {
          valid = record {
            is_open = v.is_open;
            chain = Chain-put p zero_page c out;
            counted = omega (arith, v.counted);
            inside = v.inside.1;
            total = v.total;
          };
          zeroed = put_self d.file p zero_page;
          others = λ q other. put_ne d.file p q zero_page other;
          total = refl;
        },
      )

  -- With a reliable kernel and a free page at the head of the list, disk_alloc_page returns that page,
  -- zeroed and taken off the list, and changes no other page.
  pub alloc_head :
      (d : DiskManager) (p : ℕ) (rest : List ℕ)
      → IsValid d (p ∷ rest)
      → (d' : DiskManager) × (disk_alloc_page k d ≡ (p, d')) × IsAllocated d p rest d'
  unfolding disk_alloc_page
  alloc_head d p rest v =
      let (head, positive, out, c) = Chain-cons v.chain in
      let (d', e, done) = take_head_lem d p rest v in
      (d', ground (arith, v.is_open, head, positive, e), done)

  pub free_lem :
      (d : DiskManager) (p : ℕ) (ids : List ℕ)
      → IsValid d ids
      → 0 < p
      → p < d.total_pages
      → is_in p ids ≡ false
      → (d' : DiskManager) × (disk_free_page k d p ≡ (DbError.ok, d'))
        × IsValid d' (p ∷ ids)
        × ((q : ℕ) → q ≢ p → d'.file q ≡ d.file q)
  free_lem d p ids v positive inside out =
      let d' : DiskManager = record d {
        free_list_head = p;
        free_page_count = (d.free_page_count + 1) % 2 ^ 32;
        file = put_page d.file p (free_page d.free_list_head);
        calls = d.calls + 1;
      } in
      (
        d',
        unfold disk_free_page pwrite in ground (arith, r.writing d.calls, v.is_open),
        record {
          is_open = v.is_open;
          chain =
              cons positive
                (ap next_free (put_self d.file p (free_page d.free_list_head))
                  ∙ next_free_page d.free_list_head (head_bound v))
                out (Chain-put p (free_page d.free_list_head) v.chain out);
          counted = omega (arith, v.counted);
          inside = (inside, v.inside);
          total = v.total;
        },
        λ q other. put_ne d.file p q (free_page d.free_list_head) other,
      )

  -- With a reliable kernel, disk_free_page of a page of a valid file that is not free succeeds; the
  -- next disk_alloc_page returns that page, zeroed, and leaves a valid file with the free list of
  -- before and with its other pages as before.
  pub free_alloc :
      (d : DiskManager) (p : ℕ) (ids : List ℕ)
      → IsValid d ids
      → 0 < p
      → p < d.total_pages
      → is_in p ids ≡ false
      → (d₁ : DiskManager) × (d₂ : DiskManager) × (disk_free_page k d p ≡ (DbError.ok, d₁))
        × IsValid d₁ (p ∷ ids)
        × (disk_alloc_page k d₁ ≡ (p, d₂))
        × IsValid d₂ ids
        × (d₂.file p ≡ zero_page)
        × ((q : ℕ) → q ≢ p → d₂.file q ≡ d.file q)
  free_alloc d p ids v positive inside out =
      let (d₁, freed, v₁, kept) = free_lem d p ids v positive inside out in
      let (d₂, taken, done) = alloc_head d₁ p ids v₁ in
      (d₁, d₂, freed, v₁, taken, done.valid, done.zeroed, λ q h. done.others q h ∙ kept q h)
