-- ===== src/Buffer/Clock.antt =====
-- The clock finds a victim among the frames that are not pinned, and changes reference bits only.
use onion_relay.Prelude.{
  ℕ, zero, suc, ◌<◌, ◌≡◌, inl, inr, refl, true, false, Option, some, List, ltb, length, set,
  get_or-set_self, get_or-set_ne, length-set, arith, Bool-cases, ◌∙◌, ap, sym, ℕ_discrete, subst,
}
use onion_relay.Buffer.{Frame, empty_frame, frame_at, clock_loop}
use onion_relay.Buffer.Cycle.{next}
use onion_relay.Buffer.Table.{next_bound}

-- frames that differ in the reference bit at most
pub record IsAlike (f f' : Frame) : Type 0 where
  pub page_id : f'.page_id ≡ f.page_id
  pub pin_count : f'.pin_count ≡ f.pin_count
  pub is_dirty : f'.is_dirty ≡ f.is_dirty
  pub page : f'.page ≡ f.page
  pub lsn : f'.lsn ≡ f.lsn

pub record AreAlike (frames frames' : List Frame) : Type 0 where
  pub same_length : length frames' ≡ length frames
  pub each : (i : ℕ) → IsAlike (frame_at frames i) (frame_at frames' i)

pub IsAlike-refl : (f : Frame) → IsAlike f f
IsAlike-refl f = record {
  page_id = refl;
  pin_count = refl;
  is_dirty = refl;
  page = refl;
  lsn = refl;
}

pub AreAlike-refl : (frames : List Frame) → AreAlike frames frames
AreAlike-refl frames = record { same_length = refl; each = λ i. IsAlike-refl (frame_at frames i) }

-- the frames without the reference bit of one
abbrev pub cleared : List Frame → ℕ → List Frame
cleared frames hand = set frames hand (record (frame_at frames hand) { ref_bit = false })

pub cleared-AreAlike :
    (frames : List Frame) (hand : ℕ) → hand < length frames → AreAlike frames (cleared frames hand)
cleared-AreAlike frames hand h = record {
  same_length = length-set frames hand (record (frame_at frames hand) { ref_bit = false });
  each = λ i. elim (ℕ_discrete hand i) [
    | yes e ↦
        subst (λ f. IsAlike (frame_at frames i) f)
          (sym (
            ap (frame_at (cleared frames hand)) (sym e)
            ∙ get_or-set_self frames hand (record (frame_at frames hand) { ref_bit = false })
                empty_frame h))
          (subst
            (λ j. IsAlike (frame_at frames j) (record (frame_at frames hand) { ref_bit = false })) e
            record { page_id = refl; pin_count = refl; is_dirty = refl; page = refl; lsn = refl })
    | no n ↦
        subst (λ f. IsAlike (frame_at frames i) f)
          (sym (
            get_or-set_ne frames (record (frame_at frames hand) { ref_bit = false }) empty_frame n))
          (IsAlike-refl (frame_at frames i))
  ];
}

pub AreAlike-trans : {a b c : List Frame} → AreAlike a b → AreAlike b c → AreAlike a c
AreAlike-trans u v = record {
  same_length = v.same_length ∙ u.same_length;
  each = λ i. record {
    page_id = (v.each i).page_id ∙ (u.each i).page_id;
    pin_count = (v.each i).pin_count ∙ (u.each i).pin_count;
    is_dirty = (v.each i).is_dirty ∙ (u.each i).is_dirty;
    page = (v.each i).page ∙ (u.each i).page;
    lsn = (v.each i).lsn ∙ (u.each i).lsn;
  };
}

module _ (frames : List Frame) (hand n : ℕ) where
  pub clock_skip :
      ltb 0 (frame_at frames hand).pin_count ≡ true
      → clock_loop (suc n) frames hand ≡ clock_loop n frames (next (length frames) hand)
  unfolding clock_loop
  clock_skip h = rw h refl

  pub clock_clear :
      ltb 0 (frame_at frames hand).pin_count ≡ false
      → (frame_at frames hand).ref_bit ≡ true
      → clock_loop (suc n) frames hand
        ≡ clock_loop n (cleared frames hand) (next (length frames) hand)
  unfolding clock_loop
  clock_clear h r = rw (h, r) refl

  pub clock_take :
      ltb 0 (frame_at frames hand).pin_count ≡ false
      → (frame_at frames hand).ref_bit ≡ false
      → clock_loop (suc n) frames hand ≡ (some hand, frames, next (length frames) hand)
  unfolding clock_loop
  clock_take h r = rw (h, r) refl

-- what the clock makes of the frames
pub record IsScanned (frames : List Frame) (result : Option ℕ × List Frame × ℕ) : Type 0 where
  pub alike : AreAlike frames result.1
  pub hand : result.2 < length frames
  pub victim :
      (f : ℕ) → result.0 ≡ some f → (f < length frames) × ((frame_at frames f).pin_count ≡ 0)

pub clock_loop_lem :
    (n : ℕ) (frames : List Frame) (hand : ℕ)
    → hand < length frames
    → IsScanned frames (clock_loop n frames hand)
clock_loop_lem zero frames hand h =
    unfold clock_loop in
    record { alike = AreAlike-refl frames; hand = h; victim = λ f e. absurd (ground (arith, e)) }
clock_loop_lem (suc n) frames hand h =
    let nb = next_bound (length frames) hand h in
    elim (Bool-cases (ltb 0 (frame_at frames hand).pin_count)) [
      | inl pinned ↦
          rw (clock_skip frames hand n pinned)
            (clock_loop_lem n frames (next (length frames) hand) nb)
      | inr free ↦ elim (Bool-cases (frame_at frames hand).ref_bit) [
        | inr old ↦ rw (clock_take frames hand n free old) record {
          alike = AreAlike-refl frames;
          hand = nb;
          victim = λ f e.
              let same : hand ≡ f = ground (arith, e) in
              (rw (sym same) h, rw (sym same) (ground (arith, free)));
        }
        | inl recent ↦
            let a = cleared-AreAlike frames hand h in
            let u =
              clock_loop_lem n (cleared frames hand) (next (length frames) hand)
                (omega (arith, nb, a.same_length)) in
            rw (clock_clear frames hand n free recent) record {
              alike = AreAlike-trans a u.alike;
              hand = omega (arith, u.hand, a.same_length);
              victim = λ f e.
                  let (fb, pins) = u.victim f e in
                  (omega (arith, fb, a.same_length), sym (a.each f).pin_count ∙ pins);
            }
      ]
    ]
