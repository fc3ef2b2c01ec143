-- ===== src/Buffer/Relabel.antt =====
-- Changes of the frames that leave the pages as they are.
use onion_relay.Prelude.{
  ℕ, suc, ◌<◌, ◌≡◌, ◌≢◌, inl, inr, refl, false, List, [], ◌∷◌, length, set, get_or-set_self,
  get_or-set_ne, length-set, arith, ◌∙◌, ap, sym, ℕ_discrete, subst,
}
use onion_relay.Disk.{is_page}
use onion_relay.Buffer.{Frame, BufferPool, empty_frame, frame_at}
use onion_relay.Buffer.Table.{page_of}
use onion_relay.Buffer.View.{
  IsPool, occupied, view, view_cached, view_missing, cached-cases, frames-IsTable,
}

-- the same pages in the same frames, pinned as often
pub record IsKept (frames frames' : List Frame) : Type 0 where
  pub same_length : length frames' ≡ length frames
  pub page_id : (i : ℕ) → page_of frames' i ≡ page_of frames i
  pub page : (i : ℕ) → page_of frames i ≢ 0 → (frame_at frames' i).page ≡ (frame_at frames i).page

-- the same content of every page
abbrev pub IsSameView : BufferPool → BufferPool → Type 0
IsSameView pool pool' = (p : ℕ) → p ≢ 0 → view pool' p ≡ view pool p

pub same_occupied :
    (frames frames' : List Frame)
    → length frames' ≡ length frames
    → ((i : ℕ) → page_of frames' i ≡ page_of frames i)
    → occupied frames' ≡ occupied frames
unfolding occupied
same_occupied [] [] l h = refl
same_occupied [] (x ∷ frames') l h = absurd (omega (arith, l))
same_occupied (x ∷ frames) [] l h = absurd (omega (arith, l))
same_occupied (f ∷ frames) (f' ∷ frames') l h =
    let rest = same_occupied frames frames' (omega (arith, l)) (λ i. h (suc i)) in
    ground (arith, h 0, rest)

-- The view depends on what each frame has and on what is on the disk.
pub kept-view :
    (pool pool' : BufferPool)
    → IsPool pool
    → IsPool pool'
    → IsKept pool.frames pool'.frames
    → ((p : ℕ)
        → ((f : ℕ) → f < length pool.frames → page_of pool.frames f ≢ p)
        → pool'.disk.file p ≡ pool.disk.file p)
    → IsSameView pool pool'
kept-view pool pool' v v' k same p h = elim (cached-cases v p h) [
  | inl (f, b, e) ↦
      view_cached v' p f h (k.page_id f ∙ e)
      ∙ k.page f (λ z. h (sym e ∙ z))
      ∙ sym (view_cached v p f h e)
  | inr missing ↦
      (view_missing v' p h
        (λ f b e. missing f (omega (arith, b, k.same_length)) (sym (k.page_id f) ∙ e))).1
      ∙ same p missing
      ∙ sym (view_missing v p h missing).1
]

-- Frames may change but for their pages, as long as a frame that gets clean has the page of the disk.
pub relabel_lem :
    (pool : BufferPool) (frames : List Frame) (hand : ℕ)
    → IsPool pool
    → IsKept pool.frames frames
    → ((i : ℕ)
        → page_of pool.frames i ≢ 0
        → (frame_at frames i).is_dirty ≡ false
        → (frame_at pool.frames i).is_dirty ≡ false)
    → hand < length pool.frames
    → IsPool (record pool { frames = frames; clock_hand = hand })
      × IsSameView pool (record pool { frames = frames; clock_hand = hand })
relabel_lem pool frames hand v k dirt hb =
    let pool' : BufferPool = record pool { frames = frames; clock_hand = hand } in
    let valid : IsPool pool' = record {
      table =
          frames-IsTable pool.hash_table pool.frames frames v.table k.same_length
            (λ i f h. k.page_id f);
      meant = λ i f h e. v.meant i f h (sym (k.page_id f) ∙ e);
      complete = λ f b n. v.complete f (omega (arith, b, k.same_length)) (λ e. n (k.page_id f ∙ e));
      counted = v.counted ∙ sym (same_occupied pool.frames frames k.same_length k.page_id);
      room = omega (arith, v.room, k.same_length);
      hand = omega (arith, hb, k.same_length);
      small = omega (arith, v.small, k.same_length);
      on_disk = λ f b n.
          ap (is_page pool.disk) (k.page_id f)
          ∙ v.on_disk f (omega (arith, b, k.same_length)) (λ e. n (k.page_id f ∙ e));
      clean = λ f b n d.
          let n' : page_of pool.frames f ≢ 0 = λ e. n (k.page_id f ∙ e) in
          k.page f n'
          ∙ v.clean f (omega (arith, b, k.same_length)) n' (dirt f n' d)
          ∙ ap pool.disk.file (sym (k.page_id f));
      is_open = v.is_open;
    } in
    (valid, kept-view pool pool' v valid k (λ p missing. refl))

-- one frame is replaced
pub set-IsKept :
    (frames : List Frame) (i : ℕ) (f : Frame)
    → i < length frames
    → f.page_id ≡ page_of frames i
    → (page_of frames i ≢ 0 → f.page ≡ (frame_at frames i).page)
    → IsKept frames (set frames i f)
set-IsKept frames i f h same_id same_page = record {
  same_length = length-set frames i f;
  page_id = λ j. elim (ℕ_discrete i j) [
    | yes e ↦
        subst (λ l. page_of (set frames i f) l ≡ page_of frames l) e
          (ap (λ g. g.page_id) (get_or-set_self frames i f empty_frame h) ∙ same_id)
    | no n ↦ ap (λ g. g.page_id) (get_or-set_ne frames f empty_frame n)
  ];
  page = λ j. elim (ℕ_discrete i j) [
    | yes e ↦
        subst
          (λ l.
            page_of frames l ≢ 0 → (frame_at (set frames i f) l).page ≡ (frame_at frames l).page)
          e (λ m. ap (λ g. g.page) (get_or-set_self frames i f empty_frame h) ∙ same_page m)
    | no n ↦ λ m. ap (λ g. g.page) (get_or-set_ne frames f empty_frame n)
  ];
}
