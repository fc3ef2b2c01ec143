-- ===== src/Disk/Pages.antt =====
-- Reads and writes of single pages with a kernel that does what it is asked.
use onion_relay.Prelude.{ℕ, ◌+◌, ◌≡◌, true, false, arith}
use onion_relay.DbTypes.{DbError, PageData, zero_page}
use onion_relay.Disk.{
  DiskManager, Kernel, put_page, pread, pwrite, disk_read_page, disk_write_page, is_page, called,
}
use onion_relay.Disk.Alloc.{IsReliable}

module _ (k : Kernel) (reliable : IsReliable k) where
  pub read_page :
      (d : DiskManager) (id : ℕ)
      → d.is_open ≡ true
      → is_page d id ≡ true
      → disk_read_page k d id ≡ (DbError.ok, d.file id, called d)
  unfolding disk_read_page pread
  read_page d id o h = ground (arith, reliable.reading d.calls, o, h)

  pub read_nothing :
      (d : DiskManager) (id : ℕ)
      → d.is_open ≡ true
      → is_page d id ≡ false
      → disk_read_page k d id ≡ (DbError.not_found, zero_page, d)
  unfolding disk_read_page
  read_nothing d id o h = ground (arith, o, h)

  pub write_page :
      (d : DiskManager) (id : ℕ) (page : PageData)
      → d.is_open ≡ true
      → is_page d id ≡ true
      → disk_write_page k d id page
        ≡ (DbError.ok, record d { file = put_page d.file id page; calls = d.calls + 1 })
  unfolding disk_write_page pwrite
  write_page d id page o h = ground (arith, reliable.writing d.calls, o, h)
