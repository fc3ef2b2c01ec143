-- ===== src/Disk/Extend.antt =====
-- The chain of new free pages, when a file is extended or created.
use onion_relay.Prelude.{
  ℕ, zero, suc, ◌+◌, ◌-◌, ◌%◌, ◌^◌, ◌≤◌, ◌<◌, ◌≡◌, refl, true, false, List, [], ◌∷◌, ◌++◌, ◌==◌,
  ltb, if◌then◌else◌, length, All, All-imp, arith, ◌∙◌, ap, subst, length-append,
}
use onion_relay.DbTypes.{DbError, PageData}
use onion_relay.Disk.{
  DiskManager, Kernel, put_page, free_page, next_free, max_pages, pwrite, disk_extend, extend_loop,
  called,
}
use onion_relay.Disk.FreeList.{
  is_in, Chain, IsValid, next_free_page, Chain-put, not_in_of_bound, put_ne, cons,
}
use onion_relay.Disk.Alloc.{IsReliable, put_self, head_bound}

-- `n` pages from `i` on
unfoldable pub up_to : ℕ → ℕ → List ℕ
up_to i zero = []
up_to i (suc n) = i ∷ up_to (i + 1) n

pub not_in_later :
    (i m n : ℕ) (ids : List ℕ) → i < m → is_in i ids ≡ false → is_in i (up_to m n ++ ids) ≡ false
unfolding up_to is_in
not_in_later i m zero ids h k = k
not_in_later i m (suc n) ids h k = ground (arith, not_in_later i (m + 1) n ids (omega arith) k)

pub length-up_to : (i n : ℕ) → length (up_to i n) ≡ n
unfolding up_to
length-up_to i zero = refl
length-up_to i (suc n) = omega (arith, length-up_to (i + 1) n)

pub up_to-bound :
    (i n bound : ℕ) (ids : List ℕ)
    → i + n ≤ bound
    → All (λ p. p < bound) ids
    → All (λ p. p < bound) (up_to i n ++ ids)
unfolding up_to
up_to-bound i zero bound ids h k = k
up_to-bound i (suc n) bound ids h k = (omega arith, up_to-bound (i + 1) n bound ids (omega arith) k)

unfoldable pub start_of : ℕ → ℕ → ℕ → ℕ
start_of head i zero = head
start_of head i (suc n) = i

added : (t n : ℕ) → t + n - t ≡ n
added t n = omega arith

start_eq :
    (new_total head n i : ℕ)
    → i + 1 + n ≡ new_total
    → (if ltb (i + 1) new_total then i + 1 else head) ≡ start_of head (i + 1) n
unfolding start_of
start_eq new_total head zero i e = ground arith
start_eq new_total head (suc n) i e = ground arith

module _ (k : Kernel) (r : IsReliable k) (new_total head : ℕ) (ids : List ℕ)
    (small : new_total ≤ max_pages) (head_small : head < 2 ^ 32) where
  pub loop_lem :
      (n i : ℕ) (d : DiskManager)
      → i + n ≡ new_total
      → 0 < i
      → Chain d.file head ids
      → All (λ p. p < i) ids
      → (file : ℕ → PageData) × (calls : ℕ) × (extend_loop k new_total head d i n
          ≡ (true, record d { file = file; calls = calls }))
        × Chain file (start_of head i n) (up_to i n ++ ids)
        × ((q : ℕ) → q < i → file q ≡ d.file q)
  unfolding extend_loop up_to start_of pwrite
  loop_lem zero i d total positive c below = (d.file, d.calls, refl, c, λ q h. refl)
  loop_lem (suc n) i d total positive c below =
      let next = if ltb (i + 1) new_total then i + 1 else head in
      let out = not_in_of_bound i ids i below (omega arith) in
      let d₁ : DiskManager = record d {
        file = put_page d.file i (free_page next);
        calls = d.calls + 1;
      } in
      let (file, calls, e, chain, kept) =
        loop_lem n (i + 1) d₁ (omega arith) (omega arith) (Chain-put i (free_page next) c out)
          (All-imp (λ p. p < i) (λ p. p < i + 1) ids (λ p h. omega arith) below) in
      (
        file,
        calls,
        rw (r.writing d.calls) e,
        cons positive
            (ap next_free (kept i (omega arith) ∙ put_self d.file i (free_page next))
              ∙ next_free_page next (ground arith)
              ∙ start_eq new_total head n i (omega arith))
            (not_in_later i (i + 1) n ids (omega arith) out) chain,
        λ q h. kept q (omega arith) ∙ put_ne d.file i q (free_page next) (λ e. omega arith),
      )

module _ (k : Kernel) (r : IsReliable k) where
  -- With a reliable kernel, disk_extend by at least one page, up to 2 ^ 24 pages in all, puts the new
  -- pages in order before the free pages of a valid file and changes no old page.
  pub extend_lem :
      (d : DiskManager) (ids : List ℕ) (n : ℕ)
      → IsValid d ids
      → 0 < d.total_pages
      → 0 < n
      → d.total_pages + n ≤ max_pages
      → (d' : DiskManager) × (disk_extend k d n ≡ (DbError.ok, d'))
        × IsValid d' (up_to d.total_pages n ++ ids)
        × (d'.total_pages ≡ d.total_pages + n)
        × ((q : ℕ) → q < d.total_pages → d'.file q ≡ d.file q)
  extend_lem d ids n v positive some_pages fits =
      let new_total = d.total_pages + n in
      let (file, calls, e, chain, kept) =
        loop_lem k r new_total d.free_list_head ids fits (head_bound v) n d.total_pages (called d)
          refl positive v.chain v.inside in
      (
        record d {
          file = file;
          calls = calls;
          free_list_head = d.total_pages;
          free_page_count = (d.free_page_count + n) % 2 ^ 32;
          total_pages = new_total;
        },
        extend_result d n file calls v.is_open fits some_pages e,
        record {
          is_open = v.is_open;
          chain =
              subst (λ h. Chain file h (up_to d.total_pages n ++ ids))
                (start_some d.free_list_head d.total_pages n some_pages) chain;
          counted = omega (
            arith,
            v.counted,
            length-append (up_to d.total_pages n) ids,
            length-up_to d.total_pages n,
          );
          inside = up_to-bound d.total_pages n new_total ids (omega arith) (
              All-imp (λ p. p < d.total_pages) (λ p. p < new_total) ids (λ p h. omega arith)
                v.inside);
          total = fits;
        },
        refl,
        kept,
      )
    where
      start_some : (head i n : ℕ) → 0 < n → start_of head i n ≡ i
      start_some head i zero h = absurd (omega arith)
      start_some head i (suc n) h = unfold start_of in refl

      extend_result :
          (d : DiskManager) (n : ℕ) (file : ℕ → PageData) (calls : ℕ)
          → d.is_open ≡ true
          → d.total_pages + n ≤ max_pages
          → 0 < n
          → extend_loop k (d.total_pages + n) d.free_list_head (called d) d.total_pages n
            ≡ (true, record d { file = file; calls = calls })
          → disk_extend k d n ≡ (
            DbError.ok,
            record d {
              file = file;
              calls = calls;
              free_list_head = d.total_pages;
              free_page_count = (d.free_page_count + n) % 2 ^ 32;
              total_pages = d.total_pages + n;
            },
          )
      extend_result d n file calls open_file fits some_pages e =
          unfold disk_extend in
          (rw (wraps, added d.total_pages n, e, open_file, r.resizing d.calls, within, nonzero)
            refl)
        where
          wraps : (d.total_pages + n) % 2 ^ 32 ≡ d.total_pages + n
          wraps = omega (arith, fits)

          within : ltb max_pages (d.total_pages + n) ≡ false
          within = ground arith

          nonzero : (n == 0) ≡ false
          nonzero = ground arith
