-- ===== src/Buffer/Flush.antt =====
-- The writing back of dirty frames: of one, and of all.
use onion_relay.Prelude.{
  ℕ, ◌+◌, ◌<◌, ◌≡◌, ◌≢◌, inl, inr, refl, true, false, ◌==◌, length, set, get_or-set_self,
  get_or-set_ne, arith, Bool-cases, ◌∙◌, ap, sym, ℕ_discrete, subst,
}
use onion_relay.DbTypes.{DbError}
use onion_relay.Disk.{Kernel, is_page, put_page}
use onion_relay.Disk.Alloc.{IsReliable, put_self}
use onion_relay.Disk.Pages.{write_page}
use onion_relay.Disk.FreeList.{put_ne}
use onion_relay.Buffer.{Frame, BufferPool, empty_frame, frame_at}
use onion_relay.Buffer.Frames.{flush_frame}
use onion_relay.Buffer.Table.{page_of}
use onion_relay.Buffer.View.{IsPool, one_frame, frames-IsTable, page_bound}
use onion_relay.Buffer.Relabel.{IsKept, IsSameView, same_occupied, kept-view, set-IsKept}

-- a frame whose page need not be written
abbrev pub IsClean : BufferPool → ℕ → Type 0
IsClean pool f = page_of pool.frames f ≢ 0 → (frame_at pool.frames f).is_dirty ≡ false

-- the pool after a dirty frame has been written
abbrev pub written : BufferPool → ℕ → BufferPool
written pool f = record pool {
  disk = record pool.disk {
    file = put_page pool.disk.file (page_of pool.frames f) (frame_at pool.frames f).page;
    calls = pool.disk.calls + 1;
  };
  frames = set pool.frames f (record (frame_at pool.frames f) { is_dirty = false });
}

flush_clean :
    (k : Kernel) (pool : BufferPool) (f : ℕ)
    → (frame_at pool.frames f).is_dirty ≡ false
    → flush_frame k pool f ≡ (DbError.ok, pool)
unfolding flush_frame
flush_clean k pool f h = rw h refl

flush_empty :
    (k : Kernel) (pool : BufferPool) (f : ℕ)
    → page_of pool.frames f ≡ 0
    → flush_frame k pool f ≡ (DbError.ok, pool)
unfolding flush_frame
flush_empty k pool f h = ground (arith, h)

flush_dirty :
    (k : Kernel) (pool : BufferPool) (f : ℕ)
    → IsReliable k
    → pool.disk.is_open ≡ true
    → is_page pool.disk (page_of pool.frames f) ≡ true
    → (frame_at pool.frames f).is_dirty ≡ true
    → (page_of pool.frames f == 0) ≡ false
    → flush_frame k pool f ≡ (DbError.ok, written pool f)
unfolding flush_frame
flush_dirty k pool f r o h d n =
    rw (write_page k r pool.disk (page_of pool.frames f) (frame_at pool.frames f).page o h, d, n)
      refl

-- what the writing of one frame leaves
pub record IsFlushed (pool : BufferPool) (f : ℕ) (result : DbError × BufferPool) : Type 0 where
  pub ok : result.0 ≡ DbError.ok
  pub valid : IsPool result.1
  pub same_view : IsSameView pool result.1
  pub kept : IsKept pool.frames result.1.frames
  pub pins : (i : ℕ) → (frame_at result.1.frames i).pin_count ≡ (frame_at pool.frames i).pin_count
  pub now_clean : IsClean result.1 f
  pub others : (i : ℕ) → IsClean pool i → IsClean result.1 i
  pub total : result.1.disk.total_pages ≡ pool.disk.total_pages

pub unchanged-IsFlushed :
    (pool : BufferPool) (f : ℕ) → IsPool pool → IsClean pool f → IsFlushed pool f (DbError.ok, pool)
unchanged-IsFlushed pool f v c = record {
  ok = refl;
  valid = v;
  same_view = λ p h. refl;
  kept = record { same_length = refl; page_id = λ i. refl; page = λ i h. refl };
  pins = λ i. refl;
  now_clean = c;
  others = λ i h. h;
  total = refl;
}

module _ (pool : BufferPool) (f : ℕ) (v : IsPool pool) (n : page_of pool.frames f ≢ 0) where
  bound : f < length pool.frames
  bound = page_bound pool.frames f n

  abbrev cleaned : Frame
  cleaned = record (frame_at pool.frames f) { is_dirty = false }

  at_frame : frame_at (written pool f).frames f ≡ cleaned
  at_frame = get_or-set_self pool.frames f cleaned empty_frame bound

  at_other : (i : ℕ) → f ≢ i → frame_at (written pool f).frames i ≡ frame_at pool.frames i
  at_other i h = get_or-set_ne pool.frames cleaned empty_frame h

  written-IsKept : IsKept pool.frames (written pool f).frames
  written-IsKept = set-IsKept pool.frames f cleaned bound refl (λ m. refl)

  file_other : (p : ℕ) → p ≢ page_of pool.frames f → (written pool f).disk.file p ≡ pool.disk.file p
  file_other p h = put_ne pool.disk.file (page_of pool.frames f) p (frame_at pool.frames f).page h

  written-IsPool : IsPool (written pool f)
  written-IsPool =
      let k = written-IsKept in
      record {
        table =
            frames-IsTable pool.hash_table pool.frames (written pool f).frames v.table k.same_length
              (λ i g h. k.page_id g);
        meant = λ i g h e. v.meant i g h (sym (k.page_id g) ∙ e);
        complete =
            λ g b m. v.complete g (omega (arith, b, k.same_length)) (λ e. m (k.page_id g ∙ e));
        counted =
            v.counted
            ∙ sym (same_occupied pool.frames (written pool f).frames k.same_length k.page_id);
        room = omega (arith, v.room, k.same_length);
        hand = omega (arith, v.hand, k.same_length);
        small = omega (arith, v.small, k.same_length);
        on_disk = λ g b m.
            ap (is_page pool.disk) (k.page_id g)
            ∙ v.on_disk g (omega (arith, b, k.same_length)) (λ e. m (k.page_id g ∙ e));
        clean = λ g b m d. elim (ℕ_discrete f g) [
          | yes e ↦
              k.page g (λ e. m (k.page_id g ∙ e))
              ∙ subst
                  (λ j.
                    (frame_at pool.frames j).page
                    ≡ (written pool f).disk.file (page_of pool.frames j))
                  e
                  (sym
                    (put_self pool.disk.file (page_of pool.frames f) (frame_at pool.frames f).page))
              ∙ ap (written pool f).disk.file (sym (k.page_id g))
          | no other ↦
              let m' : page_of pool.frames g ≢ 0 = λ e. m (k.page_id g ∙ e) in
              let away : page_of pool.frames g ≢ page_of pool.frames f =
                λ e. other (sym (one_frame v g f m' e)) in
              k.page g m'
              ∙ v.clean g (omega (arith, b, k.same_length)) m'
                  (ap (λ x. x.is_dirty) (sym (at_other g other)) ∙ d)
              ∙ sym (file_other (page_of pool.frames g) away)
              ∙ ap (written pool f).disk.file (sym (k.page_id g))
        ];
        is_open = v.is_open;
      }

  written-IsFlushed : IsFlushed pool f (DbError.ok, written pool f)
  written-IsFlushed = record {
    ok = refl;
    valid = written-IsPool;
    same_view =
        kept-view pool (written pool f) v written-IsPool written-IsKept
          (λ p missing. file_other p (λ e. missing f bound (sym e)));
    kept = written-IsKept;
    pins = λ i. elim (ℕ_discrete f i) [
      | yes e ↦
          subst
            (λ j.
              (frame_at (written pool f).frames j).pin_count ≡ (frame_at pool.frames j).pin_count)
            e (ap (λ x. x.pin_count) at_frame)
      | no other ↦ ap (λ x. x.pin_count) (at_other i other)
    ];
    now_clean = λ m. ap (λ x. x.is_dirty) at_frame;
    others = λ i c. elim (ℕ_discrete f i) [
      | yes e ↦ λ m.
          subst (λ j. (frame_at (written pool f).frames j).is_dirty ≡ false) e
            (ap (λ x. x.is_dirty) at_frame)
      | no other ↦
          λ m. ap (λ x. x.is_dirty) (at_other i other) ∙ c (λ z. m (written-IsKept.page_id i ∙ z))
    ];
    total = refl;
  }

pub flush_frame_lem :
    (k : Kernel) (pool : BufferPool) (f : ℕ)
    → IsReliable k
    → IsPool pool
    → IsFlushed pool f (flush_frame k pool f)
flush_frame_lem k pool f r v = elim (Bool-cases (frame_at pool.frames f).is_dirty) [
  | inr clean ↦ rw (flush_clean k pool f clean) (unchanged-IsFlushed pool f v (λ h. clean))
  | inl dirty ↦ elim (ℕ_discrete (page_of pool.frames f) 0) [
    | yes e ↦ rw (flush_empty k pool f e) (unchanged-IsFlushed pool f v (λ h. absurd (h e)))
    | no n ↦
        rw
          (flush_dirty k pool f r v.is_open (v.on_disk f (page_bound pool.frames f n) n) dirty
            (ground (arith, n)))
          (written-IsFlushed pool f v n)
  ]
]
