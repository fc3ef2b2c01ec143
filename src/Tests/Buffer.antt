-- ===== src/Tests/Buffer.antt =====
-- The theorems about the buffer pool at a file of two pages, a pool of one frame, and a kernel that
-- never fails.
use onion_relay.Prelude.{
  ℕ, zero, suc, ◌+◌, ◌≤◌, ◌<◌, ◌≡◌, ◌⊎◌, inl, inr, refl, true, false, Option, none, some, List, [],
  ◌∷◌, arith, ap, sym, ◌∙◌,
}
use onion_relay.DbTypes.{DbError, PageData, zero_page}
use onion_relay.Disk.{
  max_pages, extend_pages, DiskManager, Kernel, is_page, put_page, pread, disk_read_page,
}
use onion_relay.Disk.Alloc.{IsReliable}
use onion_relay.Disk.FreeList.{is_in, nil, IsValid}
use onion_relay.Buffer.Alloc.{IsNewPage, buffer_pool_alloc_page_lem}
use onion_relay.Buffer.{
  Frame, BufferPool, frame_at, has_divisor, prime_loop, next_prime, hash_page_id, probe, find_slot,
  hash_lookup, insert_loop, hash_insert, hash_remove,
}
use onion_relay.Buffer.Frames.{free_frame, acquire_frame, install}
use onion_relay.Buffer.Calls.{
  buffer_pool_init, buffer_pool_alloc_page, buffer_pool_pin, buffer_pool_mark_dirty,
  buffer_pool_unpin, buffer_pool_flush_all, buffer_pool_shutdown,
}
use onion_relay.Buffer.Cycle.{steps}
use onion_relay.Buffer.Table.{slot, page_of, home, IsTable}
use onion_relay.Buffer.View.{IsPool}
use onion_relay.Buffer.Start.{init_pool, buffer_pool_init_lem}
use onion_relay.Buffer.Acquire.{IsPinned}
use onion_relay.Buffer.Shift.{IsCleared}
use onion_relay.Buffer.Remove.{remove_lem}
use onion_relay.Buffer.Room.{IsRefused, IsRoom, acquire_lem}
use onion_relay.Buffer.Pin.{IsPinnedAt, buffer_pool_pin_lem}
use onion_relay.Buffer.Write.{store}
use onion_relay.Buffer.Session.{
  Memory, Run, done, after, pin, write, unpin, run_lem, session_pin_lem, session_flush_lem,
}

abbrev kernel : Kernel
kernel = record {
  reads = λ n. true;
  writes = λ n. true;
  resizes = λ n. true;
  torn = λ n. zero_page;
}

kernel-IsReliable : IsReliable kernel
kernel-IsReliable = record { reading = λ n. refl; writing = λ n. refl; resizing = λ n. refl }

abbrev disk : DiskManager
disk = record {
  is_open = true;
  total_pages = 3;
  free_list_head = 0;
  free_page_count = 0;
  file = λ p. zero_page;
  calls = 0;
}

abbrev pool : BufferPool
pool = init_pool disk 1

default_size : next_prime 2048 ≡ some 2053
unfolding next_prime prime_loop has_divisor
default_size = refl

abbrev ones : PageData
ones = λ i. 1

abbrev page_frame : ℕ → Frame
page_frame p = record {
  page_id = p;
  pin_count = 1;
  is_dirty = false;
  ref_bit = true;
  page = zero_page;
  lsn = 0;
}

abbrev pinned_pool : BufferPool
pinned_pool = record {
  frames = page_frame 1 ∷ [];
  clock_hand = 0;
  hash_table = none ∷ some 0 ∷ [];
  disk = record disk { calls = 1 };
}

pin_first : buffer_pool_pin kernel pool 1 ≡ some (some 0, pinned_pool)
unfolding buffer_pool_pin hash_lookup find_slot probe hash_page_id acquire_frame free_frame
    disk_read_page pread install hash_insert insert_loop next_prime
pin_first = refl

abbrev dirty_pool : BufferPool
dirty_pool = buffer_pool_mark_dirty (store pinned_pool 0 ones) (page_of pinned_pool.frames 0) 7

abbrev last_pool : BufferPool
last_pool = buffer_pool_unpin dirty_pool 1

abbrev memory : Memory
memory = put_page disk.file 1 ones

dirty_run : Run kernel pool disk.file dirty_pool memory
dirty_run =
    after (after done (pin 1 (some 0) refl pin_first))
      (write 0 7 ones (λ e. omega (arith, e)) (λ e. omega (arith, e)))

last_run : Run kernel pool disk.file last_pool memory
last_run = after dirty_run (unpin 1)

-- the one frame is written back for another page
session_pin_example :
    (buffer_pool_init true disk 1 ≡ some (DbError.ok, some (init_pool disk 1)))
    × (((pool₁ : BufferPool) × (buffer_pool_pin kernel last_pool 2 ≡ some (none, pool₁))
          × IsPinned last_pool)
        ⊎ ((f : ℕ) × (pool₁ : BufferPool) × (buffer_pool_pin kernel last_pool 2
              ≡ some (some f, pool₁))
            × (page_of pool₁.frames f ≡ 2)
            × ((frame_at pool₁.frames f).page ≡ memory 2)))
session_pin_example =
    session_pin_lem kernel disk 1 last_pool memory kernel-IsReliable refl (omega arith)
      (omega arith) last_run 2 last_page
  where
    last_page : is_page last_pool.disk 2 ≡ true
    last_page =
        unfold buffer_pool_unpin buffer_pool_mark_dirty hash_lookup find_slot probe hash_page_id in
        refl

session_flush_example :
    (buffer_pool_init true disk 1 ≡ some (DbError.ok, some (init_pool disk 1)))
    × ((buffer_pool_flush_all kernel DbError.ok last_pool).1.disk.file 1 ≡ ones)
    × ((buffer_pool_shutdown kernel last_pool).file 1 ≡ ones)
session_flush_example =
    session_flush_lem kernel disk 1 last_pool memory kernel-IsReliable refl (omega arith)
      (omega arith) last_run DbError.ok 1 (λ e. omega (arith, e))

-- a pool in which the pages 1 and 2 have the same home
abbrev both : List Frame
both = page_frame 1 ∷ page_frame 2 ∷ []

abbrev table : List (Option ℕ)
table = none ∷ some 0 ∷ some 1 ∷ []

same_home : (home table both 0 ≡ 1) × (home table both 1 ≡ 1)
unfolding hash_page_id
same_home = (refl, refl)

found : find_slot table both 1 ≡ some 1
unfolding find_slot probe hash_page_id
found = refl

in_table : (i f : ℕ) → slot table i ≡ some f → f < 2
in_table zero f h = ground (arith, h)
in_table (suc zero) f h = ground (arith, h)
in_table (suc (suc zero)) f h = ground (arith, h)
in_table (suc (suc (suc i))) f h = ground (arith, h)

entries : (i f : ℕ) → slot table i ≡ some f → ((i ≡ 1) × (f ≡ 0)) ⊎ ((i ≡ 2) × (f ≡ 1))
entries zero f h = absurd (ground (arith, h))
entries (suc zero) f h = inl (refl, ground (arith, h))
entries (suc (suc zero)) f h = inr (refl, ground (arith, h))
entries (suc (suc (suc i))) f h = absurd (ground (arith, h))

way :
    (x i f : ℕ)
    → x < 3
    → ((i ≡ 1) × (f ≡ 0)) ⊎ ((i ≡ 2) × (f ≡ 1))
    → steps 3 (home table both f) x < steps 3 (home table both f) i
    → x ≡ 1
unfolding steps
way x i f b at h = elim at [
  | inl (e, z) ↦ ground (arith, same_home, b, h, e, ap (home table both) z)
  | inr (e, z) ↦ ground (arith, same_home, b, h, e, ap (home table both) z)
]

distinct_pages :
    (i j f g : ℕ)
    → slot table i ≡ some f
    → slot table j ≡ some g
    → page_of both f ≡ page_of both g
    → i ≡ j
distinct_pages i j f g h k e = elim (entries i f h) [
  | inl (a, b) ↦ elim (entries j g k) [
    | inl (c, d) ↦ a ∙ sym c
    | inr (c, d) ↦ absurd (ground (arith, ap (page_of both) b, ap (page_of both) d, e))
  ]
  | inr (a, b) ↦ elim (entries j g k) [
    | inl (c, d) ↦ absurd (ground (arith, ap (page_of both) b, ap (page_of both) d, e))
    | inr (c, d) ↦ a ∙ sym c
  ]
]

table-IsTable : IsTable table both
table-IsTable = record {
  inside = λ i f h. in_table i f h;
  distinct = distinct_pages;
  reach = λ i x f h b w e. ground (arith, ap (slot table) (way x i f b (entries i f h) w), e);
}

remove_example :
    (table' : List (Option ℕ)) × (hash_remove table both 1 ≡ some table')
    × IsTable table' both
    × IsCleared table 1 table'
remove_example = remove_lem table both 1 1 0 0 table-IsTable found refl (omega arith) refl

pin_example :
    ((pool' : BufferPool) × (buffer_pool_pin kernel pool 1 ≡ some (none, pool'))
      × IsRefused pool pool')
    ⊎ ((f : ℕ) × (pool' : BufferPool) × (buffer_pool_pin kernel pool 1 ≡ some (some f, pool'))
        × IsPinnedAt pool 1 f pool')
pin_example =
    buffer_pool_pin_lem kernel pool 1 kernel-IsReliable
      (buffer_pool_init_lem disk 1 refl (omega arith) (omega arith)).1 refl

last-IsPool : IsPool last_pool
last-IsPool =
    (run_lem kernel-IsReliable
      (
        (buffer_pool_init_lem disk 1 refl (omega arith) (omega arith)).1,
        (buffer_pool_init_lem disk 1 refl (omega arith) (omega arith)).2,
      )
      last_run).0

acquire_example : IsRoom last_pool (acquire_frame kernel last_pool)
acquire_example = acquire_lem kernel last_pool kernel-IsReliable last-IsPool

abbrev free_pages : List ℕ
free_pages = []

disk-IsValid : IsValid disk free_pages
disk-IsValid = record {
  is_open = refl;
  chain = nil;
  counted = refl;
  inside = tt;
  total = omega arith;
}

alloc_page_example :
    ((p : ℕ) × (f : ℕ) × (pool' : BufferPool) × (buffer_pool_alloc_page kernel pool
        ≡ some (p, f, pool'))
      × ((is_in p free_pages ≡ true) ⊎ (3 ≤ p))
      × IsNewPage pool p f pool')
    ⊎ ((pool' : BufferPool) × (buffer_pool_alloc_page kernel pool ≡ some (0, 0, pool'))
        × (IsPinned pool ⊎ (free_pages ≡ []) × (max_pages < 3 + extend_pages)))
alloc_page_example =
    buffer_pool_alloc_page_lem kernel pool free_pages kernel-IsReliable
      (buffer_pool_init_lem disk 1 refl (omega arith) (omega arith)).1 disk-IsValid (omega arith)
      (λ g b. unfold is_in in refl)
