-- ===== src/Disk/Life.antt =====
-- Creation of a file, and allocation until it is full.
use onion_relay.Prelude.{
  ℕ, zero, suc, ◌+◌, ◌-◌, ◌≤◌, ◌<◌, ◌≡◌, ◌≢◌, ◌⊎◌, inl, inr, refl, true, false, List, [], ◌∷◌, ◌++◌,
  All, arith, ◌∙◌, subst, dec_lt,
}
use mathlib.Core.List.{append-nil}
use onion_relay.DbTypes.{DbError, is_ok, PageData, zero_page}
use onion_relay.Disk.{
  DiskManager, Kernel, put_page, max_pages, extend_pages, pwrite, closed, disk_alloc_page,
  disk_extend, extend_loop, disk_manager_create, header_page, take_head,
}
use onion_relay.Disk.FreeList.{is_in, Chain, IsValid, nil, Chain-nil, Chain-cons}
use onion_relay.Disk.Alloc.{IsReliable, take_head_lem, alloc_head}
use onion_relay.Disk.Extend.{up_to, start_of, extend_lem, loop_lem, up_to-bound, length-up_to}

-- a page that was free, or that the file has got since
pub record IsFresh (d : DiskManager) (ids : List ℕ) (p : ℕ) (d' : DiskManager) : Type 0 where
  pub rest : List ℕ
  pub valid : IsValid d' rest
  pub taken : is_in p rest ≡ false
  pub unused : (is_in p ids ≡ true) ⊎ (d.total_pages ≤ p)
  pub inside : (0 < p) × (p < d'.total_pages)
  pub grown : d.total_pages ≤ d'.total_pages
  pub zeroed : d'.file p ≡ zero_page
  pub others : (q : ℕ) → q < d.total_pages → q ≢ p → d'.file q ≡ d.file q

alloc_extended :
    (k : Kernel) (d d₁ : DiskManager) (p : ℕ) (d' : DiskManager)
    → d.is_open ≡ true
    → d.free_list_head ≡ 0
    → disk_extend k d extend_pages ≡ (DbError.ok, d₁)
    → take_head k d₁ ≡ (p, d')
    → disk_alloc_page k d ≡ (p, d')
unfolding disk_alloc_page
alloc_extended k d d₁ p d' o h e t = rw (e, o, h) t

alloc_refused :
    (k : Kernel) (d d₁ : DiskManager) (err : DbError)
    → d.is_open ≡ true
    → d.free_list_head ≡ 0
    → disk_extend k d extend_pages ≡ (err, d₁)
    → is_ok err ≡ false
    → disk_alloc_page k d ≡ (0, d₁)
unfolding disk_alloc_page
alloc_refused k d d₁ err o h e n = rw (e, o, h, n) refl

-- With a reliable kernel, disk_alloc_page on a valid file with a free page, or with at most
-- 2 ^ 24 - 128 pages, returns a page that was free or beyond the end of the file, zeroed and no
-- longer free; the file stays valid and its other pages are as before. On a valid file without free
-- pages that cannot be extended, it returns 0 and changes nothing.
pub alloc_lem :
    (k : Kernel) (d : DiskManager) (ids : List ℕ)
    → IsReliable k
    → IsValid d ids
    → 0 < d.total_pages
    → ((p : ℕ) × (d' : DiskManager) × (disk_alloc_page k d ≡ (p, d')) × IsFresh d ids p d')
      ⊎ ((ids ≡ []) × (max_pages < d.total_pages + extend_pages) × (disk_alloc_page k d ≡ (0, d)))
alloc_lem k d (p ∷ rest) r v positive =
    let (head, p_positive, out, c) = Chain-cons v.chain in
    let (d', e, done) = alloc_head k r d p rest v in
    inl (
      p,
      d',
      e,
      record {
        rest = rest;
        valid = done.valid;
        taken = out;
        unused = inl (unfold is_in in ground arith);
        inside = (p_positive, omega (arith, v.inside.0, done.total));
        grown = omega (arith, done.total);
        zeroed = done.zeroed;
        others = λ q h other. done.others q other;
      },
    )
alloc_lem k d [] r v positive = elim (dec_lt max_pages (d.total_pages + extend_pages)) [
  | yes over ↦ inr (
    refl,
    over,
    alloc_refused k d d DbError.full v.is_open (Chain-nil v.chain)
        (unfold disk_extend in ground (arith, v.is_open, v.total)) refl,
  )
  | no fits ↦
      let t = d.total_pages in
      let (d₁, e, v₁, total, kept) =
        extend_lem k r d [] extend_pages v positive (omega arith) (omega arith) in
      let v₂ : IsValid d₁ (t ∷ (up_to (t + 1) 127 ++ [])) = subst (IsValid d₁) (first t) v₁ in
      let (d', e', done) = take_head_lem k r d₁ t (up_to (t + 1) 127 ++ []) v₂ in
      inl (
        t,
        d',
        alloc_extended k d d₁ t d' v.is_open (Chain-nil v.chain) e e',
        record {
          rest = up_to (t + 1) 127 ++ [];
          valid = done.valid;
          taken = (Chain-cons v₂.chain).2;
          unused = inr (omega arith);
          inside = (positive, omega (arith, total, done.total));
          grown = omega (arith, total, done.total);
          zeroed = done.zeroed;
          others = λ q h other. done.others q other ∙ kept q h;
        },
      )
]
  where
    first : (t : ℕ) → up_to t extend_pages ++ [] ≡ t ∷ (up_to (t + 1) 127 ++ [])
    first t = unfold up_to in refl

-- With a reliable kernel, a file that disk_manager_create makes with 2 to 2 ^ 24 pages is valid, and
-- all its pages but the header are free, in order.
disk_manager_create_lem :
    (k : Kernel) (file : ℕ → PageData) (calls n : ℕ)
    → IsReliable k
    → 2 ≤ n
    → n ≤ max_pages
    → (d : DiskManager) × (disk_manager_create k true file calls n ≡ (DbError.ok, d))
      × IsValid d (up_to 1 (n - 1))
      × (d.total_pages ≡ n)
disk_manager_create_lem k file calls n r two small =
    let d₁ : DiskManager = record (closed (put_page file 0 (header_page n 1 (n - 1))) (calls + 1)) {
      is_open = true;
    } in
    let (file', calls', e, chain, kept) =
      loop_lem k r n 0 [] small (omega arith) (n - 1) 1 d₁ (omega arith) (omega arith) nil tt in
    (
      record (closed file' calls') {
        is_open = true;
        total_pages = n;
        free_list_head = 1;
        free_page_count = n - 1;
      },
      created n file calls file' calls' two e,
      record {
        is_open = refl;
        chain =
            subst (λ ids. Chain file' 1 ids) (append-nil (up_to 1 (n - 1)))
              (subst (λ h. Chain file' h (up_to 1 (n - 1) ++ [])) (starts (n - 1) (omega arith))
                chain);
        counted = omega (arith, length-up_to 1 (n - 1));
        inside =
            subst (All (λ p. p < n)) (append-nil (up_to 1 (n - 1)))
              (up_to-bound 1 (n - 1) n [] (omega arith) tt);
        total = small;
      },
      refl,
    )
  where
    starts : (m : ℕ) → 0 < m → start_of 0 1 m ≡ 1
    starts zero h = absurd (omega arith)
    starts (suc m) h = unfold start_of in refl

    created :
        (n : ℕ) (file : ℕ → PageData) (calls : ℕ) (file' : ℕ → PageData) (calls' : ℕ)
        → 2 ≤ n
        → extend_loop k n 0
            (record (closed (put_page file 0 (header_page n 1 (n - 1))) (calls + 1)) {
              is_open = true;
            })
            1
            (n - 1)
          ≡ (true, record (closed file' calls') { is_open = true })
        → disk_manager_create k true file calls n ≡ (
          DbError.ok,
          record (closed file' calls') {
            is_open = true;
            total_pages = n;
            free_list_head = 1;
            free_page_count = n - 1;
          },
        )
    created n file calls file' calls' two e =
        unfold disk_manager_create pwrite in ground (arith, r.writing calls, e)
