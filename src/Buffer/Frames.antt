-- ===== src/Buffer/Frames.antt =====
-- Frames that are written back, evicted and filled.
use onion_relay.Prelude.{
  ℕ, suc, false, not, Option, none, some, List, [], ◌∷◌, ◌==◌, if◌then◌else◌, set,
}
use onion_relay.DbTypes.{DbError, is_ok}
use onion_relay.Disk.{Kernel, disk_write_page}
use onion_relay.Buffer.{Frame, BufferPool, frame_at, hash_insert, hash_remove, clock_evict}

unfoldable pub flush_frame : Kernel → BufferPool → ℕ → DbError × BufferPool
flush_frame k pool frame =
    let f = frame_at pool.frames frame in
    let (err, disk) = disk_write_page k pool.disk f.page_id f.page in
    if not f.is_dirty
    then (DbError.ok, pool)
    else if f.page_id == 0
    then (DbError.ok, pool)
    else if is_ok err
    then (
      DbError.ok,
      record pool { disk = disk; frames = set pool.frames frame (record f { is_dirty = false }) },
    )
    else (err, record pool { disk = disk })

-- the first frame without a page
unfoldable pub free_frame : List Frame → Option ℕ
free_frame [] = none
free_frame (f ∷ frames) =
    let rest = free_frame frames in
    if f.page_id == 0 then some 0 else elim rest [ none ↦ none | some i ↦ some (suc i) ]

-- Clock eviction: the victim is written back and leaves the hash table.
unfoldable pub evict : Kernel → BufferPool → Option (Option ℕ × BufferPool)
evict k pool =
    let (victim, pool₁) = clock_evict pool in
    elim victim [
      | none ↦ some (none, pool₁)
      | some frame ↦
          let (err, pool₂) = flush_frame k pool₁ frame in
          let removed =
            hash_remove pool₂.hash_table pool₂.frames (frame_at pool₂.frames frame).page_id in
          if is_ok err
          then elim removed [
            | none ↦ none
            | some table ↦ some (some frame, record pool₂ { hash_table = table })
          ]
          else some (none, pool₂)
    ]

-- the frame for a page that comes in
unfoldable pub acquire_frame : Kernel → BufferPool → Option (Option ℕ × BufferPool)
acquire_frame k pool = elim (free_frame pool.frames) [
  | some frame ↦ some (some frame, pool)
  | none ↦ evict k pool
]

-- the frame gets its page, and the hash table its entry
unfoldable pub install : BufferPool → ℕ → Frame → Option BufferPool
install pool frame f =
    let frames = set pool.frames frame f in
    elim (hash_insert pool.hash_table frames f.page_id frame) [
      | none ↦ none
      | some table ↦ some (record pool { frames = frames; hash_table = table })
    ]

abbrev pub update_frame : BufferPool → ℕ → Frame → BufferPool
update_frame pool frame f = record pool { frames = set pool.frames frame f }
