-- ===== src/Buffer/Pin.antt =====
-- buffer_pool_pin: the caller gets the content of the page, and nobody else loses one.
use onion_relay.Prelude.{
  ℕ, ◌+◌, ◌%◌, ◌^◌, ◌<◌, ◌≡◌, ◌≢◌, ◌⊎◌, inl, inr, refl, true, false, ◌&&◌, ltb, none, some, length,
  set, set-set, get_or-set_self, get_or-set_ne, length-set, arith, ◌∙◌, ap, sym, ℕ_discrete,
}
use onion_relay.DbTypes.{DbError, PageData}
use onion_relay.Disk.{Kernel, is_page, called, disk_read_page}
use onion_relay.Disk.Alloc.{IsReliable}
use onion_relay.Disk.Pages.{read_page}
use onion_relay.Buffer.{Frame, BufferPool, empty_frame, frame_at, hash_lookup}
use onion_relay.Buffer.Frames.{update_frame, acquire_frame, install}
use onion_relay.Buffer.Calls.{buffer_pool_pin}
use onion_relay.Buffer.Table.{page_of, lookup-some}
use onion_relay.Buffer.View.{IsPool, view, view_cached, view_missing, cached-cases}
use onion_relay.Buffer.Relabel.{IsKept, IsSameView, relabel_lem, set-IsKept}
use onion_relay.Buffer.Evict.{emptied, empty_self, empty_other}
use onion_relay.Buffer.Acquire.{IsAcquired}
use onion_relay.Buffer.Room.{IsRefused, acquire_lem}
use onion_relay.Buffer.Install.{IsInstalled, install-emptied, install_lem}

-- one pin more for the page of a frame, or the first one in a frame that was free or not pinned
abbrev pub IsPinCount : Frame → ℕ → ℕ → Type 0
IsPinCount f p count =
    ((f.page_id ≡ p) × (count ≡ (f.pin_count + 1) % 2 ^ 8))
    ⊎ (f.page_id ≢ p) × (f.page_id ≢ 0 → f.pin_count ≡ 0) × (count ≡ 1)

-- A page is in a frame, with the content that the pool had for it; the pool has the same content of every
-- page, and a frame that was pinned has the same page and content.
pub record IsPinnedAt (pool : BufferPool) (p : ℕ) (f : ℕ) (pool' : BufferPool) : Type 0 where
  pub valid : IsPool pool'
  pub page_id : page_of pool'.frames f ≡ p
  pub content : (frame_at pool'.frames f).page ≡ view pool p
  pub pinned : IsPinCount (frame_at pool.frames f) p (frame_at pool'.frames f).pin_count
  pub same_view : IsSameView pool pool'
  pub others :
      (g : ℕ)
      → page_of pool.frames g ≢ 0
      → (frame_at pool.frames g).pin_count ≢ 0
      → (page_of pool'.frames g ≡ page_of pool.frames g)
        × ((frame_at pool'.frames g).page ≡ (frame_at pool.frames g).page)

-- a call of the kernel that changes nothing
pub called-IsPool :
    (pool : BufferPool) → IsPool pool → IsPool (record pool { disk = called pool.disk })
called-IsPool pool v = record {
  table = v.table;
  meant = v.meant;
  complete = v.complete;
  counted = v.counted;
  room = v.room;
  hand = v.hand;
  small = v.small;
  on_disk = v.on_disk;
  clean = v.clean;
  is_open = v.is_open;
}

pub called-view :
    (pool : BufferPool) (p : ℕ) → view (record pool { disk = called pool.disk }) p ≡ view pool p
unfolding view
called-view pool p = refl

abbrev loaded : ℕ → PageData → Frame
loaded p page = record {
  page_id = p;
  pin_count = 1;
  is_dirty = false;
  ref_bit = true;
  page = page;
  lsn = 0;
}

abbrev pinned_more : Frame → Frame
pinned_more f = record f { pin_count = (f.pin_count + 1) % 2 ^ 8; ref_bit = true }

pin_hit :
    (k : Kernel) (pool : BufferPool) (p f : ℕ)
    → p ≢ 0
    → hash_lookup pool.hash_table pool.frames p ≡ some f
    → buffer_pool_pin k pool p
      ≡ some (some f, update_frame pool f (pinned_more (frame_at pool.frames f)))
unfolding buffer_pool_pin
pin_hit k pool p f n e = ground (arith, n, e)

pin_refused :
    (k : Kernel) (pool pool₁ : BufferPool) (p : ℕ)
    → p ≢ 0
    → hash_lookup pool.hash_table pool.frames p ≡ none
    → acquire_frame k pool ≡ some (none, pool₁)
    → buffer_pool_pin k pool p ≡ some (none, pool₁)
unfolding buffer_pool_pin
pin_refused k pool pool₁ p n e a = ground (arith, n, e, a)

pin_miss :
    (k : Kernel) (pool pool₁ pool₂ : BufferPool) (p f : ℕ)
    → p ≢ 0
    → hash_lookup pool.hash_table pool.frames p ≡ none
    → acquire_frame k pool ≡ some (some f, pool₁)
    → disk_read_page k pool₁.disk p ≡ (DbError.ok, pool₁.disk.file p, called pool₁.disk)
    → install (record pool₁ { disk = called pool₁.disk }) f (loaded p (pool₁.disk.file p))
      ≡ some pool₂
    → buffer_pool_pin k pool p ≡ some (some f, pool₂)
unfolding buffer_pool_pin
pin_miss k pool pool₁ pool₂ p f n e a r i = ground (arith, n, e, a, r, i)

-- the page is in a frame already
module _ (pool : BufferPool) (v : IsPool pool) (p f : ℕ) (n : p ≢ 0) (b : f < length pool.frames)
    (at : page_of pool.frames f ≡ p) where
  abbrev more : Frame
  more = pinned_more (frame_at pool.frames f)

  at_hit : frame_at (set pool.frames f more) f ≡ more
  at_hit = get_or-set_self pool.frames f more empty_frame b

  off_hit : (g : ℕ) → f ≢ g → frame_at (set pool.frames f more) g ≡ frame_at pool.frames g
  off_hit g h = get_or-set_ne pool.frames more empty_frame h

  hit-IsPinnedAt : IsPinnedAt pool p f (update_frame pool f more)
  hit-IsPinnedAt =
      let kept : IsKept pool.frames (set pool.frames f more) =
        set-IsKept pool.frames f more b refl (λ m. refl) in
      let (valid, same) =
        relabel_lem pool (set pool.frames f more) pool.clock_hand v kept
          (λ g m d. elim (ℕ_discrete f g) [
            | yes e ↦
                ap (λ x. (frame_at pool.frames x).is_dirty) (sym e)
                ∙ ap (λ x. x.is_dirty) (sym at_hit)
                ∙ ap (λ x. (frame_at (set pool.frames f more) x).is_dirty) e
                ∙ d
            | no other ↦ ap (λ x. x.is_dirty) (sym (off_hit g other)) ∙ d
          ])
          v.hand in
      record {
        valid = valid;
        page_id = kept.page_id f ∙ at;
        content = kept.page f (λ z. n (sym at ∙ z)) ∙ sym (view_cached v p f n at);
        pinned = inl (at, ap (λ x. x.pin_count) at_hit);
        same_view = same;
        others = λ g m c. (kept.page_id g, kept.page g m);
      }

-- the page comes from the disk
module _ (pool pool₁ pool₂ : BufferPool) (v : IsPool pool) (p f : ℕ) (n : p ≢ 0)
    (missing : (g : ℕ) → g < length pool.frames → page_of pool.frames g ≢ p)
    (got : IsAcquired pool f pool₁)
    (inst : IsInstalled
      (record (emptied pool₁ f) { disk = called pool₁.disk })
      f
      (loaded p (pool₁.disk.file p))
      pool₂) where
  abbrev fresh : Frame
  fresh = loaded p (pool₁.disk.file p)

  at_miss : frame_at pool₂.frames f ≡ fresh
  at_miss =
      ap (λ x. frame_at x f) inst.frames
      ∙ ap (λ x. frame_at x f) (set-set pool₁.frames f empty_frame fresh)
      ∙ get_or-set_self pool₁.frames f fresh empty_frame got.bound

  off_miss : (g : ℕ) → f ≢ g → frame_at pool₂.frames g ≡ frame_at pool₁.frames g
  off_miss g h =
      ap (λ x. frame_at x g) inst.frames
      ∙ ap (λ x. frame_at x g) (set-set pool₁.frames f empty_frame fresh)
      ∙ get_or-set_ne pool₁.frames fresh empty_frame h

  miss-IsPinnedAt : pool₁.disk.file p ≡ view pool p → IsPinnedAt pool p f pool₂
  miss-IsPinnedAt same = record {
    valid = inst.valid;
    page_id = ap (λ x. x.page_id) at_miss;
    content = ap (λ x. x.page) at_miss ∙ same;
    pinned = inr (
      missing f (omega (arith, got.bound, got.kept.same_length)),
      got.free,
      ap (λ x. x.pin_count) at_miss,
    );
    same_view = λ q h. elim (ℕ_discrete q p) [
      | yes e ↦ ap (view pool₂) e ∙ inst.here ∙ same ∙ ap (view pool) (sym e)
      | no other ↦ inst.others q h other ∙ called-view (emptied pool₁ f) q ∙ got.same_view q h
    ];
    others = λ g m c.
        let away : f ≢ g = λ e. c (
          ap (λ x. (frame_at pool.frames x).pin_count) (sym e)
          ∙ got.free (λ z. m (ap (page_of pool.frames) (sym e) ∙ z))) in
        (
          ap (λ x. x.page_id) (off_miss g away) ∙ got.kept.page_id g,
          ap (λ x. x.page) (off_miss g away) ∙ got.kept.page g m,
        );
  }

-- a page that is in no frame is in none of those that a new page leaves
pub acquired_missing :
    (pool pool₁ : BufferPool) (p f : ℕ)
    → p ≢ 0
    → ((g : ℕ) → g < length pool.frames → page_of pool.frames g ≢ p)
    → IsAcquired pool f pool₁
    → (g : ℕ) → g < length (emptied pool₁ f).frames
    → page_of (emptied pool₁ f).frames g ≢ p
acquired_missing pool pool₁ p f n missing got g b e =
    let free : BufferPool = emptied pool₁ f in
    elim (ℕ_discrete f g) [
      | yes at ↦ n (
          sym e
          ∙ ap (page_of free.frames) (sym at)
          ∙ ap (λ x. x.page_id) (empty_self pool₁ f got.bound))
      | no other ↦
          missing g (omega (arith, b, got.kept.same_length, length-set pool₁.frames f empty_frame))
            (sym (got.kept.page_id g)
              ∙ ap (λ x. x.page_id) (sym (empty_other pool₁ f got.bound g other))
              ∙ e)
    ]

miss_lem :
    (k : Kernel) (pool pool₁ : BufferPool) (p f : ℕ)
    → IsReliable k
    → IsPool pool
    → p ≢ 0
    → is_page pool.disk p ≡ true
    → ((g : ℕ) → g < length pool.frames → page_of pool.frames g ≢ p)
    → acquire_frame k pool ≡ some (some f, pool₁)
    → IsAcquired pool f pool₁
    → (pool' : BufferPool) × (buffer_pool_pin k pool p ≡ some (some f, pool'))
      × IsPinnedAt pool p f pool'
miss_lem k pool pool₁ p f r v n on missing a got =
    let free : BufferPool = emptied pool₁ f in
    let on₁ : is_page pool₁.disk p ≡ true = ap (λ t. ltb 0 p && ltb p t) got.total ∙ on in
    let gone = acquired_missing pool pool₁ p f n missing got in
    let (pool₂, result, inst) =
      install_lem (record free { disk = called pool₁.disk }) f (loaded p (pool₁.disk.file p))
        (called-IsPool free got.valid)
        (omega (arith, got.bound, length-set pool₁.frames f empty_frame))
        (ap (λ x. x.page_id) (empty_self pool₁ f got.bound)) n gone on₁ (λ d. refl) in
    (
      pool₂,
      pin_miss k pool pool₁ pool₂ p f n (view_missing v p n missing).0 a
          (read_page k r pool₁.disk p got.valid.is_open on₁)
          (sym (
              install-emptied (record pool₁ { disk = called pool₁.disk }) f
                (loaded p (pool₁.disk.file p)))
            ∙ result),
      miss-IsPinnedAt pool pool₁ pool₂ v p f n missing got inst
          (sym (view_missing got.valid p n gone).1 ∙ got.same_view p n),
    )

-- With a reliable kernel, on a valid pool and for a page of the file, buffer_pool_pin ends. It gives a
-- frame that has the page, with the content that the pool stands for: the one that it changed last,
-- though it may have been written back and read again; or all frames are pinned and it gives none. The
-- pool stays valid and stands for the same content of every page, and a frame that was pinned keeps
-- its page and its content. The page is pinned once more, or for the first time in a frame that was
-- free or not pinned.
pub buffer_pool_pin_lem :
    (k : Kernel) (pool : BufferPool) (p : ℕ)
    → IsReliable k
    → IsPool pool
    → is_page pool.disk p ≡ true
    → ((pool' : BufferPool) × (buffer_pool_pin k pool p ≡ some (none, pool'))
        × IsRefused pool pool')
      ⊎ ((f : ℕ) × (pool' : BufferPool) × (buffer_pool_pin k pool p ≡ some (some f, pool'))
          × IsPinnedAt pool p f pool')
buffer_pool_pin_lem k pool p r v on =
    let n : p ≢ 0 = λ z. ground (arith, on, z) in
    elim (cached-cases v p n) [
      | inl (f, b, at) ↦
          let (i, s) = v.complete f b (λ z. n (sym at ∙ z)) in
          inr (
            f,
            update_frame pool f (pinned_more (frame_at pool.frames f)),
            pin_hit k pool p f n (lookup-some v.table p i f s at),
            hit-IsPinnedAt pool v p f n b at,
          )
      | inr missing ↦ elim (acquire_lem k pool r v) [
        | inl (pool₁, e, refused) ↦
            inl (pool₁, pin_refused k pool pool₁ p n (view_missing v p n missing).0 e, refused)
        | inr (f, pool₁, e, got) ↦
            let (pool₂, result, at) = miss_lem k pool pool₁ p f r v n on missing e got in
            inr (f, pool₂, result, at)
      ]
    ]
