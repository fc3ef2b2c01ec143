-- ===== src/Buffer/Calls.antt =====
-- The functions that the callers of the pool use.
use onion_relay.Prelude.{
  ℕ, zero, suc, ◌+◌, ◌-◌, ◌*◌, ◌%◌, ◌^◌, Bool, true, false, ◌&&◌, not, Option, none, some, ltb,
  ◌==◌, if◌then◌else◌, length, replicate,
}
use onion_relay.DbTypes.{DbError, is_ok, zero_page}
use onion_relay.Disk.{DiskManager, Kernel, is_page, disk_read_page, disk_alloc_page, disk_free_page}
use onion_relay.Buffer.{Frame, BufferPool, empty_frame, frame_at, next_prime, hash_lookup}
use onion_relay.Buffer.Frames.{flush_frame, acquire_frame, install, update_frame}

-- a frame after a read that failed: a call of the kernel may have written a part of the page
abbrev left_by_read : Kernel → DiskManager → ℕ → Frame → Frame
left_by_read k d page_id f =
    if d.is_open && is_page d page_id then record f { page = k.torn d.calls } else f

unfoldable pub buffer_pool_pin : Kernel → BufferPool → ℕ → Option (Option ℕ × BufferPool)
buffer_pool_pin k pool page_id =
    if page_id == 0
    then some (none, pool)
    else elim (hash_lookup pool.hash_table pool.frames page_id) [
      | some frame ↦
          let f = frame_at pool.frames frame in
          some (
            some frame,
            update_frame pool frame
                (record f { pin_count = (f.pin_count + 1) % 2 ^ 8; ref_bit = true }),
          )
      | none ↦ elim (acquire_frame k pool) [
        | none ↦ none
        | some (none, pool₁) ↦ some (none, pool₁)
        | some (some frame, pool₁) ↦
            let (err, page, disk) = disk_read_page k pool₁.disk page_id in
            if is_ok err
            then elim (install (record pool₁ { disk = disk }) frame
                record {
                  page_id = page_id;
                  pin_count = 1;
                  is_dirty = false;
                  ref_bit = true;
                  page = page;
                  lsn = 0;
                }) [ none ↦ none | some pool₂ ↦ some (some frame, pool₂) ]
            else some (
              none,
              update_frame (record pool₁ { disk = disk }) frame
                  (left_by_read k pool₁.disk page_id (frame_at pool₁.frames frame)),
            )
      ]
    ]

-- the page, or 0, and its frame
unfoldable pub buffer_pool_alloc_page : Kernel → BufferPool → Option (ℕ × ℕ × BufferPool)
buffer_pool_alloc_page k pool =
    let (new_pid, disk) = disk_alloc_page k pool.disk in
    if new_pid == 0
    then some (0, 0, record pool { disk = disk })
    else elim (acquire_frame k (record pool { disk = disk })) [
      | none ↦ none
      | some (none, pool₁) ↦
          some (0, 0, record pool₁ { disk = (disk_free_page k pool₁.disk new_pid).1 })
      | some (some frame, pool₁) ↦
          elim (install pool₁ frame record {
            page_id = new_pid;
            pin_count = 1;
            is_dirty = true;
            ref_bit = true;
            page = zero_page;
            lsn = 0;
          }) [ none ↦ none | some pool₂ ↦ some (new_pid, frame, pool₂) ]
    ]

unfoldable pub buffer_pool_unpin : BufferPool → ℕ → BufferPool
buffer_pool_unpin pool page_id = elim (hash_lookup pool.hash_table pool.frames page_id) [
  | none ↦ pool
  | some frame ↦
      let f = frame_at pool.frames frame in
      if page_id == 0
      then pool
      else if ltb 0 f.pin_count
      then update_frame pool frame (record f { pin_count = f.pin_count - 1 })
      else pool
]

unfoldable pub buffer_pool_mark_dirty : BufferPool → ℕ → ℕ → BufferPool
buffer_pool_mark_dirty pool page_id lsn = elim (hash_lookup pool.hash_table pool.frames page_id) [
  | none ↦ pool
  | some frame ↦
      let f = frame_at pool.frames frame in
      if page_id == 0
      then pool
      else update_frame pool frame
          (record f { is_dirty = true; lsn = if ltb f.lsn lsn then lsn else f.lsn })
]

unfoldable pub buffer_pool_flush : Kernel → BufferPool → ℕ → DbError × BufferPool
buffer_pool_flush k pool page_id =
    if page_id == 0
    then (DbError.null_param, pool)
    else elim (hash_lookup pool.hash_table pool.frames page_id) [
      | none ↦ (DbError.not_found, pool)
      | some frame ↦ flush_frame k pool frame
    ]

-- the loop of buffer_pool_flush_all from the frame `i` on, with `n` frames left
unfoldable pub flush_loop : Kernel → BufferPool → ℕ → ℕ → DbError × BufferPool
flush_loop k pool i zero = (DbError.ok, pool)
flush_loop k pool i (suc n) =
    let f = frame_at pool.frames i in
    let (err, pool₁) = flush_frame k pool i in
    let rest = flush_loop k pool₁ (i + 1) n in
    let skipped = flush_loop k pool (i + 1) n in
    if f.is_dirty && not (f.page_id == 0) then if is_ok err then rest else (err, pool₁) else skipped

-- `synced` is the answer of disk_sync.
unfoldable pub buffer_pool_flush_all :
    Kernel → (synced : DbError) → BufferPool → DbError × BufferPool
buffer_pool_flush_all k synced pool =
    let (err, pool₁) = flush_loop k pool 0 (length pool.frames) in
    if is_ok err then (synced, pool₁) else (err, pool₁)

-- the loop of buffer_pool_shutdown, which goes on after an error
unfoldable pub shutdown_loop : Kernel → BufferPool → ℕ → ℕ → BufferPool
shutdown_loop k pool i zero = pool
shutdown_loop k pool i (suc n) =
    let f = frame_at pool.frames i in
    let written = shutdown_loop k (flush_frame k pool i).1 (i + 1) n in
    let skipped = shutdown_loop k pool (i + 1) n in
    if f.is_dirty && not (f.page_id == 0) then written else skipped

-- The pool is gone afterwards; what is left is the disk.
unfoldable pub buffer_pool_shutdown : Kernel → BufferPool → DiskManager
buffer_pool_shutdown k pool = (shutdown_loop k pool 0 (length pool.frames)).disk

-- `mapped` tells whether the kernel gives the memory for all arrays; without it the pool is shut down
-- again.
unfoldable pub buffer_pool_init :
    (mapped : Bool) → DiskManager → ℕ → Option (DbError × Option BufferPool)
buffer_pool_init mapped disk pool_size =
    if pool_size == 0
    then some (DbError.null_param, none)
    else elim (next_prime (pool_size * 2 % 2 ^ 32)) [
      | none ↦ none
      | some hash_size ↦
          if mapped
          then some (
            DbError.ok,
            some record {
              frames = replicate pool_size empty_frame;
              clock_hand = 0;
              hash_table = replicate hash_size none;
              disk = disk;
            },
          )
          else some (DbError.mmap_failed, none)
    ]
