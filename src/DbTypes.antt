-- ===== src/DbTypes.antt =====
-- src/nostr/db/db_types.h and src/nostr/db/disk/disk_types.h: the error codes, and pages as functions
-- from the offset to the byte.
use onion_relay.Prelude.{ℕ, Bool, true, false}

pub data DbError : Type 0 where
  ok : DbError
  file_open : DbError
  file_create : DbError
  mmap_failed : DbError
  invalid_magic : DbError
  version_mismatch : DbError
  full : DbError
  not_found : DbError
  duplicate : DbError
  invalid_event : DbError
  index_corrupt : DbError
  null_param : DbError
  fstat_failed : DbError
  ftruncate_failed : DbError
  deleted : DbError

abbrev pub is_ok : DbError → Bool
is_ok DbError.ok = true
is_ok _ = false

abbrev pub PageData : Type 0
PageData = ℕ → ℕ

abbrev pub zero_page : PageData
zero_page a = 0
