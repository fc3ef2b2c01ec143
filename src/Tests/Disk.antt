-- ===== src/Tests/Disk.antt =====
-- The theorems about the disk manager at a file of three pages, of which two are free, and a kernel
-- that never fails.
use onion_relay.Prelude.{
  ℕ, ◌+◌, ◌<◌, ◌≡◌, ◌≢◌, ◌⊎◌, refl, true, List, [], ◌∷◌, ◌==◌, if◌then◌else◌, arith,
}
use onion_relay.DbTypes.{DbError, PageData, zero_page}
use onion_relay.Disk.{
  DiskManager, Kernel, free_page, max_pages, extend_pages, disk_alloc_page, disk_free_page,
  disk_manager_open, disk_manager_close,
}
use onion_relay.Disk.FreeList.{is_in, nil, cons, IsValid, next_free_page}
use onion_relay.Disk.Alloc.{IsReliable, free_alloc}
use onion_relay.Disk.Header.{reopen_lem}
use onion_relay.Disk.Life.{IsFresh, alloc_lem}

abbrev kernel : Kernel
kernel = record {
  reads = λ n. true;
  writes = λ n. true;
  resizes = λ n. true;
  torn = λ n. zero_page;
}

kernel-IsReliable : IsReliable kernel
kernel-IsReliable = record { reading = λ n. refl; writing = λ n. refl; resizing = λ n. refl }

abbrev file : ℕ → PageData
file p = if p == 1 then free_page 2 else if p == 2 then free_page 0 else zero_page

abbrev disk : DiskManager
disk = record {
  is_open = true;
  total_pages = 4;
  free_list_head = 1;
  free_page_count = 2;
  file = file;
  calls = 0;
}

abbrev free_pages : List ℕ
free_pages = 1 ∷ 2 ∷ []

disk-IsValid : IsValid disk free_pages
unfolding is_in
disk-IsValid = record {
  is_open = refl;
  chain =
      cons (omega arith) (next_free_page 2 (omega arith)) refl
        (cons (omega arith) (next_free_page 0 (omega arith)) refl nil);
  counted = refl;
  inside = (omega arith, (omega arith, tt));
  total = omega arith;
}

alloc_example :
    ((p : ℕ) × (d' : DiskManager) × (disk_alloc_page kernel disk ≡ (p, d'))
      × IsFresh disk free_pages p d')
    ⊎ ((free_pages ≡ [])
        × (max_pages < disk.total_pages + extend_pages)
        × (disk_alloc_page kernel disk ≡ (0, disk)))
alloc_example = alloc_lem kernel disk free_pages kernel-IsReliable disk-IsValid (omega arith)

free_alloc_example :
    (d₁ : DiskManager) × (d₂ : DiskManager) × (disk_free_page kernel disk 3 ≡ (DbError.ok, d₁))
    × IsValid d₁ (3 ∷ free_pages)
    × (disk_alloc_page kernel d₁ ≡ (3, d₂))
    × IsValid d₂ free_pages
    × (d₂.file 3 ≡ zero_page)
    × ((q : ℕ) → q ≢ 3 → d₂.file q ≡ disk.file q)
free_alloc_example =
    free_alloc kernel kernel-IsReliable disk 3 free_pages disk-IsValid (omega arith) (omega arith)
      (unfold is_in in refl)

reopen_example :
    (d' : DiskManager) × (disk_manager_open kernel true
        (disk_manager_close kernel disk).file
        (disk_manager_close kernel disk).calls
      ≡ (DbError.ok, d'))
    × IsValid d' free_pages
    × (d'.total_pages ≡ disk.total_pages)
    × ((q : ℕ) → q ≢ 0 → d'.file q ≡ disk.file q)
reopen_example = reopen_lem kernel disk free_pages kernel-IsReliable disk-IsValid
