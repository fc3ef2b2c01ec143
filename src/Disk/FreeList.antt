-- ===== src/Disk/FreeList.antt =====
-- The list of free pages that is linked through the file.
use onion_relay.Prelude.{
  ℕ, ◌%◌, ◌^◌, ◌≤◌, ◌<◌, ◌≡◌, ◌≢◌, refl, Bool, true, false, ◌||◌, List, [], ◌∷◌, ◌==◌, length, All,
  arith, bytes_of, number, subst, sym,
}
use onion_relay.DbTypes.{PageData}
use onion_relay.SlotPage.{load}
use onion_relay.Disk.{DiskManager, put_page, free_page, next_free, max_pages}

unfoldable pub is_in : ℕ → List ℕ → Bool
is_in p [] = false
is_in p (q ∷ ids) = (p == q) || is_in p ids

-- from a head the pages `ids`, which are distinct, lead to 0
pub data Chain (file : ℕ → PageData) : ℕ → List ℕ → Type 0 where
  nil : Chain file 0 []
  cons :
      {p q : ℕ} {ids : List ℕ}
      → 0 < p
      → next_free (file p) ≡ q
      → is_in p ids ≡ false
      → Chain file q ids
      → Chain file p (p ∷ ids)

-- an open file whose free pages are `ids`, in this order; the counter has 32 bits
pub record IsValid (d : DiskManager) (ids : List ℕ) : Type 0 where
  pub is_open : d.is_open ≡ true
  pub chain : Chain d.file d.free_list_head ids
  pub counted : d.free_page_count ≡ length ids % 2 ^ 32
  pub inside : All (λ p. p < d.total_pages) ids
  pub total : d.total_pages ≤ max_pages

pub next_free_page : (next : ℕ) → next < 2 ^ 32 → next_free (free_page next) ≡ next
unfolding next_free free_page load bytes_of number
next_free_page next h = omega arith

-- a chain does not depend on the other pages
pub Chain-frame :
    {file file' : ℕ → PageData} {p : ℕ} {ids : List ℕ}
    → Chain file p ids
    → ((q : ℕ) → is_in q ids ≡ true → file' q ≡ file q)
    → Chain file' p ids
unfolding is_in
Chain-frame nil same = nil
Chain-frame (cons {p} positive e out c) same =
    cons positive (rw (same p (ground arith)) e) out (Chain-frame c (λ q i. same q (ground arith)))

pub put_ne :
    (file : ℕ → PageData) (a q : ℕ) (page : PageData) → q ≢ a → put_page file a page q ≡ file q
put_ne file a q page h = ground arith

pub Chain-put :
    {file : ℕ → PageData} {p : ℕ} {ids : List ℕ} (a : ℕ) (page : PageData)
    → Chain file p ids
    → is_in a ids ≡ false
    → Chain (put_page file a page) p ids
Chain-put {file} {p} {ids} a page c out =
    Chain-frame c (λ q i. put_ne file a q page (λ e. cc (e, i, out)))

pub not_in_of_bound :
    (a : ℕ) (ids : List ℕ) (n : ℕ) → All (λ p. p < n) ids → n ≤ a → is_in a ids ≡ false
unfolding is_in
not_in_of_bound a [] n h k = refl
not_in_of_bound a (p ∷ ids) n h k = ground (arith, h.0, not_in_of_bound a ids n h.1)

pub Chain-cons :
    {file : ℕ → PageData} {h p : ℕ} {ids : List ℕ}
    → Chain file h (p ∷ ids)
    → (h ≡ p) × (0 < p) × (is_in p ids ≡ false) × Chain file (next_free (file p)) ids
Chain-cons {file} {ids = ids} (cons positive e out c) =
    (refl, positive, out, subst (λ q. Chain file q ids) (sym e) c)

pub Chain-nil : {file : ℕ → PageData} {h : ℕ} → Chain file h [] → h ≡ 0
Chain-nil nil = refl

pub Chain-zero :
    {file : ℕ → PageData} {h : ℕ} {ids : List ℕ} → Chain file h ids → is_in 0 ids ≡ false
unfolding is_in
Chain-zero nil = refl
Chain-zero (cons positive e out c) = ground (arith, Chain-zero c)
