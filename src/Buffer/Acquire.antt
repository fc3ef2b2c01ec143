-- ===== src/Buffer/Acquire.antt =====
-- The frame that a new page gets, and what happens to the others.
use onion_relay.Prelude.{
  ℕ, zero, suc, ◌*◌, ◌%◌, ◌^◌, ◌<◌, ◌≡◌, ◌≢◌, ◌⊎◌, inl, inr, refl, Option, none, some, List, [],
  ◌∷◌, length, set, get_or-set_ne, arith, ◌∙◌, ap, sym, ℕ_discrete, subst,
}
use onion_relay.DbTypes.{DbError}
use onion_relay.Disk.{Kernel}
use onion_relay.Buffer.{Frame, BufferPool, empty_frame, frame_at, clock_evict, hash_remove}
use onion_relay.Buffer.Frames.{flush_frame, free_frame, evict}
use onion_relay.Buffer.Table.{page_of}
use onion_relay.Buffer.Clock.{IsScanned, clock_loop_lem}
use onion_relay.Buffer.View.{IsPool}
use onion_relay.Buffer.Relabel.{IsKept, IsSameView, relabel_lem, set-IsKept}
use onion_relay.Buffer.Evict.{emptied}

-- A frame that was free or not pinned and that the pool can do without.
pub record IsAcquired (pool : BufferPool) (f : ℕ) (pool' : BufferPool) : Type 0 where
  pub bound : f < length pool'.frames
  pub valid : IsPool (emptied pool' f)
  pub same_view : IsSameView pool (emptied pool' f)
  pub free : page_of pool.frames f ≢ 0 → (frame_at pool.frames f).pin_count ≡ 0
  pub kept : IsKept pool.frames pool'.frames
  pub pins : (i : ℕ) → (frame_at pool'.frames i).pin_count ≡ (frame_at pool.frames i).pin_count
  pub total : pool'.disk.total_pages ≡ pool.disk.total_pages

-- every frame is pinned
abbrev pub IsPinned : BufferPool → Type 0
IsPinned pool = (f : ℕ) → f < length pool.frames → (frame_at pool.frames f).pin_count ≢ 0

pub free_frame-cases :
    (frames : List Frame)
    → ((f : ℕ) × (free_frame frames ≡ some f) × (f < length frames) × (page_of frames f ≡ 0))
      ⊎ (free_frame frames ≡ none) × ((f : ℕ) → f < length frames → page_of frames f ≢ 0)
unfolding free_frame
free_frame-cases [] = inr (refl, λ f b. absurd (omega (arith, b)))
free_frame-cases (x ∷ frames) = elim (ℕ_discrete x.page_id 0) [
  | yes e ↦ inl (0, rw e refl, omega arith, e)
  | no n ↦ elim (free_frame-cases frames) [
    | inl (f, e, b, z) ↦ inl (suc f, ground (arith, n, e), omega (arith, b), z)
    | inr (e, all) ↦ inr (ground (arith, n, e), after x frames n all)
  ]
]
  where
    after :
        (x : Frame) (frames : List Frame)
        → x.page_id ≢ 0
        → ((f : ℕ) → f < length frames → page_of frames f ≢ 0)
        → (f : ℕ) → f < length (x ∷ frames)
        → page_of (x ∷ frames) f ≢ 0
    after x frames h all zero b = h
    after x frames h all (suc f) b = all f (omega (arith, b))

IsKept-refl : (frames : List Frame) → IsKept frames frames
IsKept-refl frames = record { same_length = refl; page_id = λ i. refl; page = λ i h. refl }

-- a frame without a page
pub free-IsAcquired :
    (pool : BufferPool) (f : ℕ)
    → IsPool pool
    → f < length pool.frames
    → page_of pool.frames f ≡ 0
    → IsAcquired pool f pool
free-IsAcquired pool f v b z =
    let frames = set pool.frames f empty_frame in
    let (valid, same) =
      relabel_lem pool frames pool.clock_hand v
        (set-IsKept pool.frames f empty_frame b (sym z) (λ m. absurd (m z)))
        (λ i m d. elim (ℕ_discrete f i) [
          | yes e ↦ absurd (m (ap (page_of pool.frames) (sym e) ∙ z))
          | no other ↦ ap (λ x. x.is_dirty) (sym (other_frame f i other)) ∙ d
        ])
        v.hand in
    record {
      bound = b;
      valid = valid;
      same_view = same;
      free = λ m. absurd (m z);
      kept = IsKept-refl pool.frames;
      pins = λ i. refl;
      total = refl;
    }
  where
    other_frame :
        (a i : ℕ) → a ≢ i → frame_at (set pool.frames a empty_frame) i ≡ frame_at pool.frames i
    other_frame a i n = get_or-set_ne pool.frames empty_frame empty_frame n

pub clock_step :
    (pool : BufferPool)
    → IsPool pool
    → IsScanned pool.frames
        ((clock_evict pool).0, (clock_evict pool).1.frames, (clock_evict pool).1.clock_hand)
      × ((clock_evict pool).1 ≡ record pool {
        frames = (clock_evict pool).1.frames;
        clock_hand = (clock_evict pool).1.clock_hand;
      })
unfolding clock_evict
clock_step pool v =
    (clock_loop_lem (length pool.frames * 2 % 2 ^ 32) pool.frames pool.clock_hand v.hand, refl)

-- what the clock leaves of a valid pool
pub record IsClocked (pool : BufferPool) (pool₁ : BufferPool) : Type 0 where
  pub valid : IsPool pool₁
  pub same_view : IsSameView pool pool₁
  pub kept : IsKept pool.frames pool₁.frames
  pub pins : (i : ℕ) → (frame_at pool₁.frames i).pin_count ≡ (frame_at pool.frames i).pin_count
  pub total : pool₁.disk.total_pages ≡ pool.disk.total_pages

pub clocked_lem : (pool : BufferPool) → IsPool pool → IsClocked pool (clock_evict pool).1
clocked_lem pool v =
    let (s, same) = clock_step pool v in
    let frames = (clock_evict pool).1.frames in
    let k : IsKept pool.frames frames = record {
      same_length = s.alike.same_length;
      page_id = λ i. (s.alike.each i).page_id;
      page = λ i h. (s.alike.each i).page;
    } in
    let (valid, view_same) =
      relabel_lem pool frames (clock_evict pool).1.clock_hand v k
        (λ i h d. sym (s.alike.each i).is_dirty ∙ d) s.hand in
    subst (λ p. IsClocked pool p) (sym same)
      record {
        valid = valid;
        same_view = view_same;
        kept = k;
        pins = λ i. (s.alike.each i).pin_count;
        total = refl;
      }

pub evict-none :
    (k : Kernel) (pool : BufferPool)
    → (clock_evict pool).0 ≡ none
    → evict k pool ≡ some (none, (clock_evict pool).1)
unfolding evict
evict-none k pool e = ground (arith, e)

pub evict-some :
    (k : Kernel) (pool : BufferPool) (f : ℕ) (table : List (Option ℕ))
    → (clock_evict pool).0 ≡ some f
    → (flush_frame k (clock_evict pool).1 f).0 ≡ DbError.ok
    → let pool₂ = (flush_frame k (clock_evict pool).1 f).1 in
      hash_remove pool₂.hash_table pool₂.frames (page_of pool₂.frames f) ≡ some table
      → evict k pool ≡ some (some f, record pool₂ { hash_table = table })
unfolding evict
evict-some k pool f table e o h = ground (arith, e, o, h)
