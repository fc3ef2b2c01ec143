-- ===== src/Buffer/Session.antt =====
-- Runs of calls of a pool, next to a memory of pages that they stand for.
use onion_relay.Prelude.{
  ℕ, ◌^◌, ◌≤◌, ◌<◌, ◌≡◌, ◌≢◌, ◌⊎◌, inl, inr, true, Option, none, some, arith, Option-cases, ◌∙◌, ap,
  sym, ℕ_discrete, subst,
}
use onion_relay.DbTypes.{DbError, PageData}
use onion_relay.Disk.{DiskManager, Kernel, is_page, put_page}
use onion_relay.Disk.Alloc.{IsReliable}
use onion_relay.Buffer.{BufferPool, frame_at, hash_lookup}
use onion_relay.Buffer.Frames.{flush_frame}
use onion_relay.Buffer.Calls.{
  buffer_pool_init, buffer_pool_pin, buffer_pool_unpin, buffer_pool_mark_dirty, buffer_pool_flush,
  buffer_pool_flush_all, buffer_pool_shutdown,
}
use onion_relay.Buffer.Table.{page_of}
use onion_relay.Buffer.View.{IsPool, view}
use onion_relay.Buffer.Relabel.{IsSameView}
use onion_relay.Buffer.Flush.{flush_frame_lem}
use onion_relay.Buffer.FlushAll.{flush_all_lem, shutdown_lem}
use onion_relay.Buffer.Acquire.{IsPinned}
use onion_relay.Buffer.Pin.{buffer_pool_pin_lem}
use onion_relay.Buffer.Write.{store, write_lem, unpin_lem}
use onion_relay.Buffer.Start.{init_pool, buffer_pool_init_lem}

-- what the callers keep in the pages, if they had memory for all of them
abbrev pub Memory : Type 0
Memory = ℕ → PageData

-- A caller of the pool pins pages, writes to pages that are pinned and marks them as dirty, gives pins
-- back, and has pages written to the disk. Only a write changes the memory.
pub data Step (k : Kernel) : BufferPool → Memory → BufferPool → Memory → Type 0 where
  pin :
      {pool pool' : BufferPool} {memory : Memory}
      → (p : ℕ) (found : Option ℕ) → is_page pool.disk p ≡ true
      → buffer_pool_pin k pool p ≡ some (found, pool')
      → Step k pool memory pool' memory
  write :
      {pool : BufferPool} {memory : Memory}
      → (f lsn : ℕ) (page : PageData) → page_of pool.frames f ≢ 0
      → (frame_at pool.frames f).pin_count ≢ 0
      → Step k pool memory
          (buffer_pool_mark_dirty (store pool f page) (page_of pool.frames f) lsn)
          (put_page memory (page_of pool.frames f) page)
  unpin :
      {pool : BufferPool} {memory : Memory}
      → (p : ℕ) → Step k pool memory (buffer_pool_unpin pool p) memory
  flush :
      {pool : BufferPool} {memory : Memory}
      → (p : ℕ) → Step k pool memory (buffer_pool_flush k pool p).1 memory
  flush_all :
      {pool : BufferPool} {memory : Memory}
      → (synced : DbError) → Step k pool memory (buffer_pool_flush_all k synced pool).1 memory

pub data Run (k : Kernel) : BufferPool → Memory → BufferPool → Memory → Type 0 where
  done : {pool : BufferPool} {memory : Memory} → Run k pool memory pool memory
  after : {a b c : BufferPool} {l m n : Memory} → Run k a l b m → Step k b m c n → Run k a l c n

-- the pool is valid and stands for the memory
abbrev pub IsBacked : BufferPool → Memory → Type 0
IsBacked pool memory = IsPool pool × ((p : ℕ) → p ≢ 0 → view pool p ≡ memory p)

same-IsBacked :
    {pool pool' : BufferPool} {memory : Memory}
    → IsBacked pool memory
    → IsPool pool'
    → IsSameView pool pool'
    → IsBacked pool' memory
same-IsBacked w v s = (v, λ p h. s p h ∙ w.1 p h)

flush_cases :
    (k : Kernel) (pool : BufferPool) (p : ℕ)
    → ((buffer_pool_flush k pool p).1 ≡ pool)
      ⊎ ((f : ℕ) × ((buffer_pool_flush k pool p).1 ≡ (flush_frame k pool f).1))
unfolding buffer_pool_flush
flush_cases k pool p = elim (ℕ_discrete p 0) [
  | yes z ↦ inl (ground (arith, z))
  | no n ↦ elim (Option-cases (hash_lookup pool.hash_table pool.frames p)) [
    | inl e ↦ inl (ground (arith, n, e))
    | inr (f, e) ↦ inr (f, ground (arith, n, e))
  ]
]

pin_outcome :
    (k : Kernel) (pool pool' : BufferPool) (p : ℕ) (found : Option ℕ)
    → IsReliable k
    → IsPool pool
    → is_page pool.disk p ≡ true
    → buffer_pool_pin k pool p ≡ some (found, pool')
    → IsPool pool' × IsSameView pool pool'
pin_outcome k pool pool' p found r v on e = elim (buffer_pool_pin_lem k pool p r v on) [
  | inl (pool₁, e₁, refused) ↦
      subst (λ x. IsPool x × IsSameView pool x) (same pool₁ none e₁) (refused.0, refused.1)
  | inr (f, pool₁, e₁, at) ↦
      subst (λ x. IsPool x × IsSameView pool x) (same pool₁ (some f) e₁) (at.valid, at.same_view)
]
  where
    same :
        (pool₁ : BufferPool) (found₁ : Option ℕ)
        → buffer_pool_pin k pool p ≡ some (found₁, pool₁)
        → pool₁ ≡ pool'
    same pool₁ found₁ e₁ = ground (arith, e, e₁)

step_lem :
    {k : Kernel} {pool pool' : BufferPool} {memory memory' : Memory}
    → IsReliable k
    → IsBacked pool memory
    → Step k pool memory pool' memory'
    → IsBacked pool' memory'
step_lem {k} r w (pin {pool} {pool'} p found on e) =
    let (v, s) = pin_outcome k pool pool' p found r w.0 on e in same-IsBacked w v s
step_lem r w (write {pool} {memory} f lsn page n pinned) =
    let (v, s) = write_lem pool f lsn page w.0 n in
    (v, λ p h. s p h ∙ stored (page_of pool.frames f) page p (w.1 p h))
  where
    stored :
        (q : ℕ) (page : PageData) (p : ℕ)
        → view pool p ≡ memory p
        → put_page (view pool) q page p ≡ put_page memory q page p
    stored q page p e = ground (arith, e)
step_lem r w (unpin {pool} p) = let (v, s) = unpin_lem pool p w.0 in same-IsBacked w v s
step_lem {k} r w (flush {pool} {memory} p) = elim (flush_cases k pool p) [
  | inl e ↦ subst (λ x. IsBacked x memory) (sym e) w
  | inr (f, e) ↦
      let u = flush_frame_lem k pool f r w.0 in
      subst (λ x. IsBacked x memory) (sym e) (same-IsBacked w u.valid u.same_view)
]
step_lem {k} r w (flush_all {pool} synced) =
    let (ok, v, s, file) = flush_all_lem k synced pool r w.0 in same-IsBacked w v s

pub run_lem :
    {k : Kernel} {pool pool' : BufferPool} {memory memory' : Memory}
    → IsReliable k
    → IsBacked pool memory
    → Run k pool memory pool' memory'
    → IsBacked pool' memory'
run_lem r w done = w
run_lem r w (after rest step) = step_lem r (run_lem r w rest) step

module _ (k : Kernel) (disk : DiskManager) (size : ℕ) (pool' : BufferPool) (memory : Memory)
    (r : IsReliable k) (is_open : disk.is_open ≡ true) (positive : 0 < size) (small : size ≤ 2 ^ 20)
    (run : Run k (init_pool disk size) disk.file pool' memory) where
  backed : IsBacked pool' memory
  backed =
      let (made, valid, content) = buffer_pool_init_lem disk size is_open positive small in
      run_lem r (valid, content) run

  -- With a reliable kernel and an open file, buffer_pool_init makes a pool for 1 to 2 ^ 20 frames. Take
  -- any run of calls on it in which the pages that are pinned lie in the file and only pinned pages are
  -- written. Then buffer_pool_pin on a page of the file ends and gives a frame that has the content last
  -- written to the page, or that of the file if there is none, unless all frames are pinned.
  pub session_pin_lem :
      (p : ℕ)
      → is_page pool'.disk p ≡ true
      → (buffer_pool_init true disk size ≡ some (DbError.ok, some (init_pool disk size)))
        × (((pool₁ : BufferPool) × (buffer_pool_pin k pool' p ≡ some (none, pool₁))
              × IsPinned pool')
            ⊎ ((f : ℕ) × (pool₁ : BufferPool) × (buffer_pool_pin k pool' p ≡ some (some f, pool₁))
                × (page_of pool₁.frames f ≡ p)
                × ((frame_at pool₁.frames f).page ≡ memory p)))
  session_pin_lem p on = (
    (buffer_pool_init_lem disk size is_open positive small).0,
    elim (buffer_pool_pin_lem k pool' p r backed.0 on) [
      | inl (pool₁, e, refused) ↦ inl (pool₁, e, refused.2)
      | inr (f, pool₁, e, at) ↦
          inr (f, pool₁, e, at.page_id, at.content ∙ backed.1 p (λ z. ground (arith, on, z)))
    ],
  )

  -- Under the same conditions, buffer_pool_init makes a pool, and after the run buffer_pool_flush_all and
  -- buffer_pool_shutdown leave on the disk, for every page, the content last written to it, or that of
  -- the file if there is none.
  pub session_flush_lem :
      (synced : DbError) (p : ℕ)
      → p ≢ 0
      → (buffer_pool_init true disk size ≡ some (DbError.ok, some (init_pool disk size)))
        × ((buffer_pool_flush_all k synced pool').1.disk.file p ≡ memory p)
        × ((buffer_pool_shutdown k pool').file p ≡ memory p)
  session_flush_lem synced p h =
      let flushed = (flush_all_lem k synced pool' r backed.0).3 p h ∙ backed.1 p h in
      (
        (buffer_pool_init_lem disk size is_open positive small).0,
        flushed,
        ap (λ d. d.file p) (shutdown_lem k synced pool' r backed.0) ∙ flushed,
      )
