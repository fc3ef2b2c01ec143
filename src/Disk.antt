-- ===== src/Disk.antt =====
-- src/nostr/db/disk/disk_manager.c, disk_alloc.c and disk_io.c: a file of pages of 4096 bytes, whose
-- page 0 is a header, and the list of free pages that is linked through the pages themselves. The
-- kernel's answers are a parameter, by the number of the call; the path of the file and its
-- descriptor, but for being open, are not represented.
pub mod FreeList
pub mod Alloc
pub mod Pages
pub mod Extend
pub mod Header
pub mod Life
use onion_relay.Prelude.{
  ℕ, zero, suc, ◌+◌, ◌-◌, ◌*◌, ◌%◌, ◌^◌, Bool, true, false, ◌&&◌, not, Option, none, some, List, [],
  ◌∷◌, ◌++◌, ltb, leb, ◌==◌, if◌then◌else◌, get_or, bytes_of, number,
}
use onion_relay.DbTypes.{DbError, is_ok, PageData, zero_page}
use onion_relay.SlotPage.{load}
use onion_relay.Text.{memcmp_eq}

pub record DiskManager : Type 0 where
  pub is_open : Bool
  pub total_pages : ℕ
  pub free_list_head : ℕ
  pub free_page_count : ℕ
  pub file : ℕ → PageData
  pub calls : ℕ

-- Whether a read, a write or a change of the file's size succeeds, and what a failed write leaves of
-- the page.
pub record Kernel : Type 0 where
  pub reads : ℕ → Bool
  pub writes : ℕ → Bool
  pub resizes : ℕ → Bool
  pub torn : ℕ → PageData

abbrev pub extend_pages : ℕ
extend_pages = 128

abbrev pub max_pages : ℕ
max_pages = 2 ^ 24

abbrev pub put_page : (ℕ → PageData) → ℕ → PageData → ℕ → PageData
put_page file id page p = if p == id then page else file p

abbrev pub called : DiskManager → DiskManager
called d = record d { calls = d.calls + 1 }

unfoldable pub pread : Kernel → DiskManager → ℕ → Option PageData × DiskManager
pread k d id = (if k.reads d.calls then some (d.file id) else none, called d)

unfoldable pub pwrite : Kernel → DiskManager → ℕ → PageData → Bool × DiskManager
pwrite k d id page =
    if k.writes d.calls
    then (true, record d { file = put_page d.file id page; calls = d.calls + 1 })
    else (false, record d { file = put_page d.file id (k.torn d.calls); calls = d.calls + 1 })

abbrev pub is_page : DiskManager → ℕ → Bool
is_page d id = ltb 0 id && ltb id d.total_pages

unfoldable pub disk_read_page : Kernel → DiskManager → ℕ → DbError × PageData × DiskManager
disk_read_page k d id =
    if not d.is_open
    then (DbError.file_open, zero_page, d)
    else if not (is_page d id)
    then (DbError.not_found, zero_page, d)
    else elim (pread k d id).0 [
      | none ↦ (DbError.file_open, zero_page, (pread k d id).1)
      | some page ↦ (DbError.ok, page, (pread k d id).1)
    ]

unfoldable pub disk_write_page : Kernel → DiskManager → ℕ → PageData → DbError × DiskManager
disk_write_page k d id page =
    if not d.is_open
    then (DbError.file_open, d)
    else if not (is_page d id)
    then (DbError.not_found, d)
    else (
      if (pwrite k d id page).0 then DbError.ok else DbError.file_create,
      (pwrite k d id page).1,
    )

-- a free page: the next free page in its first four bytes, and zeros
unfoldable pub free_page : ℕ → PageData
free_page next a = get_or (bytes_of 4 next) a 0

unfoldable pub next_free : PageData → ℕ
next_free page = number (load page 0 4)

-- The loop of disk_extend from page `i` on, with `n` pages left; `head` is the old head of the list.
unfoldable pub extend_loop : Kernel → ℕ → ℕ → DiskManager → ℕ → ℕ → Bool × DiskManager
extend_loop k new_total head d i zero = (true, d)
extend_loop k new_total head d i (suc n) =
    let (written, d') = pwrite k d i (free_page (if ltb (i + 1) new_total then i + 1 else head)) in
    let rest = extend_loop k new_total head d' (i + 1) n in if written then rest else (false, d')

unfoldable pub disk_extend : Kernel → DiskManager → ℕ → DbError × DiskManager
disk_extend k d additional_pages =
    let new_total = (d.total_pages + additional_pages) % 2 ^ 32 in
    let (written, d') =
      extend_loop k new_total d.free_list_head (called d) d.total_pages
        (new_total - d.total_pages) in
    if not d.is_open
    then (DbError.file_open, d)
    else if additional_pages == 0
    then (DbError.null_param, d)
    else if ltb max_pages new_total
    then (DbError.full, d)
    else if not (k.resizes d.calls)
    then (DbError.ftruncate_failed, called d)
    else if not written
    then (DbError.file_create, d')
    else (
      DbError.ok,
      record d' {
        free_list_head = d.total_pages;
        free_page_count = (d.free_page_count + additional_pages) % 2 ^ 32;
        total_pages = new_total;
      },
    )

-- The head of the free list is read, taken off and filled with zeros. The result is the page, or 0.
unfoldable pub take_head : Kernel → DiskManager → ℕ × DiskManager
take_head k d =
    let allocated = d.free_list_head in
    let (read, d₁) = pread k d allocated in
    elim read [
      | none ↦ (0, d₁)
      | some page ↦
          let d₂ : DiskManager = record d₁ {
            free_list_head = next_free page;
            free_page_count = (d.free_page_count + (2 ^ 32 - 1)) % 2 ^ 32;
          } in
          let (written, d₃) = pwrite k d₂ allocated zero_page in
          if written then (allocated, d₃) else (
            0,
            record d₃ {
              free_list_head = allocated;
              free_page_count = (d₂.free_page_count + 1) % 2 ^ 32;
            },
          )
    ]

unfoldable pub disk_alloc_page : Kernel → DiskManager → ℕ × DiskManager
disk_alloc_page k d =
    if not d.is_open
    then (0, d)
    else if d.free_list_head == 0
    then if is_ok (disk_extend k d extend_pages).0
      then take_head k (disk_extend k d extend_pages).1
      else (0, (disk_extend k d extend_pages).1)
    else take_head k d

unfoldable pub disk_free_page : Kernel → DiskManager → ℕ → DbError × DiskManager
disk_free_page k d id =
    let (written, d') = pwrite k d id (free_page d.free_list_head) in
    if not d.is_open
    then (DbError.file_open, d)
    else if not (is_page d id)
    then (DbError.not_found, d)
    else if written
    then (
      DbError.ok,
      record d' { free_list_head = id; free_page_count = (d.free_page_count + 1) % 2 ^ 32 },
    )
    else (DbError.file_create, d')

-- "NOSTRDB2"
abbrev pub file_magic : List ℕ
file_magic = 78 ∷ 79 ∷ 83 ∷ 84 ∷ 82 ∷ 68 ∷ 66 ∷ 50 ∷ []

unfoldable pub header_page : ℕ → ℕ → ℕ → PageData
header_page total_pages free_list_head free_page_count a =
    get_or
      (file_magic
        ++ (bytes_of 4 2
            ++ (bytes_of 4 4096
                ++ (bytes_of 4 total_pages
                    ++ (bytes_of 4 free_list_head ++ bytes_of 4 free_page_count)))))
      a 0

unfoldable pub validate_header : PageData → Bool
validate_header page =
    memcmp_eq (load page 0 8) file_magic 0 8
    && number (load page 8 4) == 2
    && number (load page 12 4) == 4096

unfoldable pub disk_flush_header : Kernel → DiskManager → DbError × DiskManager
disk_flush_header k d =
    let (written, d') =
      pwrite k d 0 (header_page d.total_pages d.free_list_head d.free_page_count) in
    if not d.is_open
    then (DbError.file_open, d)
    else (if written then DbError.ok else DbError.file_create, d')

unfoldable pub load_header : Kernel → DiskManager → DbError × DiskManager
load_header k d =
    let (read, d') = pread k d 0 in
    elim read [
      | none ↦ (DbError.file_open, d')
      | some page ↦
          if validate_header page
          then (
            DbError.ok,
            record d' {
              total_pages = number (load page 16 4);
              free_list_head = number (load page 20 4);
              free_page_count = number (load page 24 4);
            },
          )
          else (DbError.invalid_magic, d')
    ]

-- a manager that no header has been read into, on a file
abbrev pub closed : (ℕ → PageData) → ℕ → DiskManager
closed file calls = record {
  is_open = false;
  total_pages = 0;
  free_list_head = 0;
  free_page_count = 0;
  file = file;
  calls = calls;
}

-- `opened` tells whether the kernel opens the file.
unfoldable pub disk_manager_open :
    Kernel → (opened : Bool) → (ℕ → PageData) → ℕ → DbError × DiskManager
disk_manager_open k opened file calls =
    let (err, d) = load_header k (record (closed file calls) { is_open = true }) in
    if opened
    then (err, record d { is_open = is_ok err })
    else (DbError.file_open, closed file calls)

-- The header is written first and then the chain of free pages from page 1 on.
unfoldable pub disk_manager_create :
    Kernel → (created : Bool) → (ℕ → PageData) → ℕ → ℕ → DbError × DiskManager
disk_manager_create k created file calls initial_pages =
    let d = record (closed file calls) { is_open = true } in
    let (header_written, d₁) = pwrite k d 0 (header_page initial_pages 1 (initial_pages - 1)) in
    let (chain_written, d₂) = extend_loop k initial_pages 0 d₁ 1 (initial_pages - 1) in
    if ltb initial_pages 2
    then (DbError.null_param, closed file calls)
    else if not created
    then (DbError.file_create, closed file calls)
    else if not header_written
    then (DbError.file_create, record d₁ { is_open = false })
    else if not chain_written
    then (DbError.file_create, record d₂ { is_open = false })
    else (
      DbError.ok,
      record d₂ {
        total_pages = initial_pages;
        free_list_head = 1;
        free_page_count = initial_pages - 1;
      },
    )

unfoldable pub disk_manager_close : Kernel → DiskManager → DiskManager
disk_manager_close k d =
    if d.is_open then record (disk_flush_header k d).1 { is_open = false } else d
