-- ===== src/Wal/Recovery/Bytes.antt =====
-- What recovery makes of every byte of the file.
use onion_relay.Prelude.{
  ℕ, ◌+◌, ◌-◌, ◌≡◌, ◌⊎◌, refl, true, false, ◌&&◌, Option, none, some, List, [], ◌∷◌, ltb, leb, ◌==◌,
  if◌then◌else◌, length, get_or, All, arith, ==_refl, ◌≢◌, ℕ_discrete,
}
use onion_relay.DbTypes.{DbError, PageData}
use onion_relay.SlotPage.{store}
use onion_relay.Disk.{DiskManager, Kernel, put_page, disk_write_page, is_page, called}
use onion_relay.Disk.Alloc.{IsReliable}
use onion_relay.Disk.Pages.{read_page, read_nothing, write_page}
use onion_relay.WalRecord.{LogRecord}
use onion_relay.Wal.Recovery.{read_update, is_redone, is_undone, redo_record, undo_record}

-- the byte that an image puts at a place of a page, if it reaches the place
unfoldable pub image_byte : ℕ → ℕ → List ℕ → ℕ → ℕ → Option ℕ
image_byte page_id offset image p a =
    if p == page_id && (leb offset a && ltb a (offset + length image))
    then some (get_or image (a - offset) 0)
    else none

-- the last committed image that reaches a place
unfoldable pub last_new : List LogRecord → List LogRecord → ℕ → ℕ → Option ℕ
last_new log [] p a = none
last_new log (r ∷ rs) p a = elim (last_new log rs p a) [
  | some byte ↦ some byte
  | none ↦
      let u = read_update r.payload in
      if is_redone log r then image_byte u.page_id u.offset u.new_data p a else none
]

-- the first old image of an update without a commit that reaches a place
unfoldable pub first_old : List LogRecord → List LogRecord → ℕ → ℕ → Option ℕ
first_old log [] p a = none
first_old log (r ∷ rs) p a =
    let u = read_update r.payload in
    let rest = first_old log rs p a in
    if is_undone log r
    then elim (image_byte u.page_id u.offset u.old_data p a) [ some byte ↦ some byte | none ↦ rest ]
    else rest

abbrev pub or_else : Option ℕ → ℕ → ℕ
or_else none b = b
or_else (some a) b = a

-- the pages of the updates that are replayed are pages of the file
abbrev pub IsInside : List LogRecord → DiskManager → List LogRecord → Type 0
IsInside log d rs =
    All (λ r. (is_undone log r ≡ false) ⊎ (is_page d (read_update r.payload).page_id ≡ true)) rs

-- the file is open, has as many pages, and each byte is `change`d where that has a value
pub record IsChanged (d : DiskManager) (change : ℕ → ℕ → Option ℕ) (d' : DiskManager) : Type 0 where
  pub is_open : d'.is_open ≡ true
  pub total : d'.total_pages ≡ d.total_pages
  pub bytes : (p a : ℕ) → is_page d p ≡ true → d'.file p a ≡ or_else (change p a) (d.file p a)

pub put_store :
    (file : ℕ → PageData) (page_id offset : ℕ) (image : List ℕ) (p a : ℕ)
    → put_page file page_id (store (file page_id) offset image) p a
      ≡ or_else (image_byte page_id offset image p a) (file p a)
unfolding store image_byte
put_store file page_id offset image p a = elim (ℕ_discrete p page_id) [
  | yes same ↦ rw (same, ==_refl page_id) (ground arith)
  | no other ↦ rw (differs p page_id other) refl
]
  where
    differs : (p q : ℕ) → p ≢ q → (p == q) ≡ false
    differs p q h = ground arith

pub outside :
    (d : DiskManager) (page_id offset : ℕ) (image : List ℕ) (p a : ℕ)
    → is_page d page_id ≡ false
    → is_page d p ≡ true
    → image_byte page_id offset image p a ≡ none
unfolding image_byte
outside d page_id offset image p a h k = ground arith

module _ (k : Kernel) (reliable : IsReliable k) where
  -- a page read, changed and written
  pub rewrite :
      (d : DiskManager) (id offset : ℕ) (image : List ℕ)
      → d.is_open ≡ true
      → is_page d id ≡ true
      → disk_write_page k (called d) id (store (d.file id) offset image) ≡ (
        DbError.ok,
        record d {
          file = put_page d.file id (store (d.file id) offset image);
          calls = d.calls + 1 + 1;
        },
      )
  rewrite d id offset image o h =
      write_page k reliable (called d) id (store (d.file id) offset image) o h

  pub undo_done :
      (r : LogRecord) (d : DiskManager)
      → d.is_open ≡ true
      → is_page d (read_update r.payload).page_id ≡ true
      → undo_record k r d ≡ (
        DbError.ok,
        record d {
          file = put_page d.file (read_update r.payload).page_id (
              store
                (d.file (read_update r.payload).page_id)
                (read_update r.payload).offset
                (read_update r.payload).old_data);
          calls = d.calls + 1 + 1;
        },
      )
  unfolding undo_record
  undo_done r d o n =
      let u = read_update r.payload in
      rw (read_page k reliable d u.page_id o n) (rewrite d u.page_id u.offset u.old_data o n)

  module _ (log : List LogRecord) where
    pub redo_skip :
        (r : LogRecord) (d : DiskManager)
        → is_redone log r ≡ false
        → redo_record k log r d ≡ (DbError.ok, d)
    unfolding redo_record
    redo_skip r d h = rw h refl

    pub redo_lost :
        (r : LogRecord) (d : DiskManager)
        → d.is_open ≡ true
        → is_redone log r ≡ true
        → is_page d (read_update r.payload).page_id ≡ false
        → redo_record k log r d ≡ (DbError.ok, d)
    unfolding redo_record
    redo_lost r d o h n = rw (h, read_nothing k reliable d (read_update r.payload).page_id o n) refl

    pub redo_done :
        (r : LogRecord) (d : DiskManager)
        → d.is_open ≡ true
        → is_redone log r ≡ true
        → is_page d (read_update r.payload).page_id ≡ true
        → redo_record k log r d ≡ (
          DbError.ok,
          record d {
            file = put_page d.file (read_update r.payload).page_id (
                store
                  (d.file (read_update r.payload).page_id)
                  (read_update r.payload).offset
                  (read_update r.payload).new_data);
            calls = d.calls + 1 + 1;
          },
        )
    unfolding redo_record
    redo_done r d o h n =
        let u = read_update r.payload in
        rw (h, read_page k reliable d u.page_id o n) (rewrite d u.page_id u.offset u.new_data o n)
