-- ===== src/Disk/Header.antt =====
-- The life of a file: creation, allocation over its whole size, and the header that is written at
-- the close and read at the next opening.
use onion_relay.Prelude.{
  ℕ, ◌+◌, ◌^◌, ◌<◌, ◌≡◌, ◌≢◌, refl, true, List, arith, bytes_of, number, number-bytes_of,
}
use onion_relay.DbTypes.{DbError, PageData}
use onion_relay.SlotPage.{load}
use onion_relay.Text.{memcmp_eq}
use onion_relay.Disk.{
  DiskManager, Kernel, put_page, pread, pwrite, disk_manager_open, disk_manager_close,
  disk_flush_header, load_header, header_page, validate_header,
}
use onion_relay.Disk.FreeList.{IsValid, put_ne, Chain-put, Chain-zero}
use onion_relay.Disk.Alloc.{IsReliable, head_bound}

number_four : (n : ℕ) → n < 2 ^ 32 → number (bytes_of 4 n) ≡ n
number_four n h = number-bytes_of 4 n h

-- the fields of a header that has been written
header_lem :
    (t h c : ℕ)
    → t < 2 ^ 32
    → h < 2 ^ 32
    → c < 2 ^ 32
    → (validate_header (header_page t h c) ≡ true)
      × (number (load (header_page t h c) 16 4) ≡ t)
      × (number (load (header_page t h c) 20 4) ≡ h)
      × (number (load (header_page t h c) 24 4) ≡ c)
unfolding validate_header header_page load number bytes_of memcmp_eq
header_lem t h c lt lh lc = (refl, omega arith, omega arith, omega arith)

close_file :
    (k : Kernel) (d : DiskManager)
    → IsReliable k
    → d.is_open ≡ true
    → (disk_manager_close k d).file
      ≡ put_page d.file 0 (header_page d.total_pages d.free_list_head d.free_page_count)
unfolding disk_manager_close disk_flush_header pwrite
close_file k d r h = rw (h, r.writing d.calls) refl

close_calls :
    (k : Kernel) (d : DiskManager)
    → IsReliable k
    → d.is_open ≡ true
    → (disk_manager_close k d).calls ≡ d.calls + 1
unfolding disk_manager_close disk_flush_header pwrite
close_calls k d r h = rw (h, r.writing d.calls) refl

open_written :
    (k : Kernel)
    → IsReliable k
    → (d : DiskManager) (page : PageData) → validate_header page ≡ true
    → number (load page 16 4) ≡ d.total_pages
    → number (load page 20 4) ≡ d.free_list_head
    → number (load page 24 4) ≡ d.free_page_count
    → d.is_open ≡ true
    → disk_manager_open k true (put_page d.file 0 page) (d.calls + 1)
      ≡ (DbError.ok, record d { file = put_page d.file 0 page; calls = d.calls + 1 + 1 })
unfolding disk_manager_open load_header pread
open_written k r d page valid total head count h =
    ground (arith, r.reading (d.calls + 1), valid, total, head, count, h)

-- With a reliable kernel, a file that is closed and opened again has the number of pages, the free
-- list and the pages, but for its header, that it had before.
pub reopen_lem :
    (k : Kernel) (d : DiskManager) (ids : List ℕ)
    → IsReliable k
    → IsValid d ids
    → (d' : DiskManager) × (disk_manager_open k true
          (disk_manager_close k d).file
          (disk_manager_close k d).calls
        ≡ (DbError.ok, d'))
      × IsValid d' ids
      × (d'.total_pages ≡ d.total_pages)
      × ((q : ℕ) → q ≢ 0 → d'.file q ≡ d.file q)
reopen_lem k d ids r v =
    let page = header_page d.total_pages d.free_list_head d.free_page_count in
    let (valid, total, head, count) =
      header_lem d.total_pages d.free_list_head d.free_page_count (omega (arith, v.total))
        (head_bound v) (omega (arith, v.counted)) in
    let d' : DiskManager = record d { file = put_page d.file 0 page; calls = d.calls + 1 + 1 } in
    (
      d',
      rw (close_file k d r v.is_open, close_calls k d r v.is_open)
          (open_written k r d page valid total head count v.is_open),
      record {
        is_open = v.is_open;
        chain = Chain-put 0 page v.chain (Chain-zero v.chain);
        counted = v.counted;
        inside = v.inside;
        total = v.total;
      },
      refl,
      λ q other. put_ne d.file 0 q page other,
    )
