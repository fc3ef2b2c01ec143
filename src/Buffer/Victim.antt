-- ===== src/Buffer/Victim.antt =====
-- Two rounds of the clock are enough.
use onion_relay.Prelude.{
  ℕ, zero, suc, ◌+◌, ◌*◌, ◌%◌, ◌^◌, ◌<◌, ◌≡◌, ◌≢◌, inl, inr, refl, false, Option, some, List, ltb,
  length, get_or-set_self, get_or-set_ne, arith, Bool-cases, ◌∙◌, ap, sym, ℕ_discrete,
}
use onion_relay.Buffer.{Frame, BufferPool, empty_frame, frame_at, clock_loop, clock_evict}
use onion_relay.Buffer.Cycle.{next, steps, steps_next}
use onion_relay.Buffer.Table.{next_bound, steps_bound}
use onion_relay.Buffer.Clock.{cleared, cleared-AreAlike, clock_skip, clock_clear, clock_take}

-- there is a victim
abbrev IsFound : Option ℕ × List Frame × ℕ → Type 0
IsFound result = (f : ℕ) × (result.0 ≡ some f)

-- A frame that is not pinned and has no reference bit is taken when the hand comes to it, if no other is
-- before.
soon_lem :
    (n : ℕ) (frames : List Frame) (hand u : ℕ)
    → hand < length frames
    → u < length frames
    → (frame_at frames u).pin_count ≡ 0
    → (frame_at frames u).ref_bit ≡ false
    → steps (length frames) hand u < n
    → IsFound (clock_loop n frames hand)
soon_lem zero frames hand u h ub pins old near = absurd (omega (arith, near))
soon_lem (suc n) frames hand u h ub pins old near =
    let m = length frames in
    let nb = next_bound m hand h in
    elim (Bool-cases (ltb 0 (frame_at frames hand).pin_count)) [
      | inl pinned ↦
          let far : hand ≢ u = λ e. ground (arith, pins, pinned, ap (frame_at frames) e) in
          rw (clock_skip frames hand n pinned) (
            soon_lem n frames (next m hand) u nb ub pins old
              (omega (arith, near, steps_next m hand u h ub far)))
      | inr free ↦ elim (Bool-cases (frame_at frames hand).ref_bit) [
        | inr none_set ↦ rw (clock_take frames hand n free none_set) (hand, refl)
        | inl recent ↦
            let far : hand ≢ u =
              λ e. ground (arith, old, recent, ap (λ i. (frame_at frames i).ref_bit) e) in
            let a = cleared-AreAlike frames hand h in
            let same =
              get_or-set_ne frames (record (frame_at frames hand) { ref_bit = false }) empty_frame
                far in
            rw (clock_clear frames hand n free recent) (
              soon_lem n (cleared frames hand) (next m hand) u (rw a.same_length nb)
                (rw a.same_length ub) (rw same pins) (rw same old)
                (rw a.same_length (omega (arith, near, steps_next m hand u h ub far))))
      ]
    ]

-- A frame that is not pinned is taken in the second round at the latest.
late_lem :
    (n : ℕ) (frames : List Frame) (hand u : ℕ)
    → hand < length frames
    → u < length frames
    → (frame_at frames u).pin_count ≡ 0
    → steps (length frames) hand u + length frames < n
    → IsFound (clock_loop n frames hand)
late_lem zero frames hand u h ub pins near = absurd (omega (arith, near))
late_lem (suc n) frames hand u h ub pins near =
    let m = length frames in
    let nb = next_bound m hand h in
    elim (Bool-cases (ltb 0 (frame_at frames hand).pin_count)) [
      | inl pinned ↦
          let far : hand ≢ u = λ e. ground (arith, pins, pinned, ap (frame_at frames) e) in
          rw (clock_skip frames hand n pinned) (
            late_lem n frames (next m hand) u nb ub pins
              (omega (arith, near, steps_next m hand u h ub far)))
      | inr free ↦ elim (Bool-cases (frame_at frames hand).ref_bit) [
        | inr none_set ↦ rw (clock_take frames hand n free none_set) (hand, refl)
        | inl recent ↦
            let a = cleared-AreAlike frames hand h in
            rw (clock_clear frames hand n free recent) (elim (ℕ_discrete hand u) [
              | yes here ↦
                  let same : frame_at (cleared frames hand) u
                      ≡ record (frame_at frames hand) { ref_bit = false } =
                    ap (frame_at (cleared frames hand)) (sym here)
                    ∙ get_or-set_self frames hand
                        (record (frame_at frames hand) { ref_bit = false }) empty_frame h in
                  soon_lem n (cleared frames hand) (next m hand) u (rw a.same_length nb)
                    (rw a.same_length ub) ((a.each u).pin_count ∙ pins) (ap (λ f. f.ref_bit) same)
                    (rw a.same_length (omega (arith, near, steps_bound m (next m hand) u nb ub)))
              | no far ↦
                  late_lem n (cleared frames hand) (next m hand) u (rw a.same_length nb)
                    (rw a.same_length ub) ((a.each u).pin_count ∙ pins)
                    (rw a.same_length (omega (arith, near, steps_next m hand u h ub far)))
            ])
      ]
    ]

-- Where a frame is not pinned, and twice the number of frames fits 32 bits, clock_evict finds a victim.
pub clock_evict_lem :
    (pool : BufferPool) (u : ℕ)
    → pool.clock_hand < length pool.frames
    → length pool.frames * 2 < 2 ^ 32
    → u < length pool.frames
    → (frame_at pool.frames u).pin_count ≡ 0
    → (f : ℕ) × ((clock_evict pool).0 ≡ some f)
unfolding clock_evict
clock_evict_lem pool u h small ub pins =
    let m = length pool.frames in
    let all : m * 2 % 2 ^ 32 ≡ m * 2 = omega (arith, small) in
    late_lem (m * 2 % 2 ^ 32) pool.frames pool.clock_hand u h ub pins
      (omega (arith, all, steps_bound m pool.clock_hand u h ub))
