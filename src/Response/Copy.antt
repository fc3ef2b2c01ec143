-- ===== src/Response/Copy.antt =====
-- safe_copy writes its text.
use onion_relay.Prelude.{
  ℕ, ◌+◌, ◌-◌, ◌≤◌, ◌<◌, ◌≡◌, inl, inr, refl, Option, some, List, [], ◌∷◌, ◌++◌, length, set, take,
  length-append, length-set, arith, ◌∙◌, ap, sym, subst, dec_lt,
}
use mathlib.Core.List.{append_assoc, append-nil}
use onion_relay.Response.{put_all, copy_loop, safe_copy}
use onion_relay.Response.Cursor.{IsWritten, Writes, put_lem, take-set}

-- what a loop leaves that writes at `i` up to `last`: the whole text if there is room for it
abbrev pub IsCopied : List ℕ → ℕ → ℕ → List ℕ → Option (List ℕ) → Type 0
IsCopied dest last i text result =
    (d : List ℕ) × (result ≡ some d)
    × (length d ≡ length dest)
    × (i + length text ≤ last → take (i + length text) d ≡ take i dest ++ text)

pub stopped-IsCopied :
    (dest : List ℕ) (last i : ℕ) (text : List ℕ) (result : Option (List ℕ))
    → result ≡ some dest
    → last < i + length text
    → IsCopied dest last i text result
stopped-IsCopied dest last i text result e h = (dest, e, refl, λ k. absurd (omega (arith, h, k)))

pub nothing-IsCopied : (dest : List ℕ) (last i : ℕ) → IsCopied dest last i [] (some dest)
nothing-IsCopied dest last i =
    let same : i + 0 ≡ i = omega arith in
    (dest, refl, refl, λ k. ap (λ n. take n dest) same ∙ sym (append-nil (take i dest)))

-- a text that is written at once, and then the rest
pub then-IsCopied :
    (dest d : List ℕ) (last i : ℕ) (text rest : List ℕ) (result : Option (List ℕ))
    → length d ≡ length dest
    → take (i + length text) d ≡ take i dest ++ text
    → IsCopied d last (i + length text) rest result
    → IsCopied dest last i (text ++ rest) result
then-IsCopied dest d last i text rest result s e (d', r, s', h) =
    let len = length-append text rest in
    (
      d',
      r,
      s' ∙ s,
      λ k.
          let whole : i + length (text ++ rest) ≡ (i + length text) + length rest =
            omega (arith, len) in
          ap (λ n. take n d') whole
          ∙ h (omega (arith, k, len))
          ∙ ap (λ t. t ++ rest) e
          ∙ append_assoc (take i dest) text rest,
    )

put_all_on :
    (dest : List ℕ) (i c : ℕ) (cs : List ℕ)
    → i < length dest
    → put_all dest i (c ∷ cs) ≡ put_all (set dest i c) (i + 1) cs
unfolding put_all
put_all_on dest i c cs h = ground (arith, put_lem dest i c h)

pub put_all_lem :
    (cs dest : List ℕ) (i : ℕ)
    → i + length cs ≤ length dest
    → (d : List ℕ) × (put_all dest i cs ≡ some d)
      × (length d ≡ length dest)
      × (take (i + length cs) d ≡ take i dest ++ cs)
put_all_lem [] dest i h =
    let same : i + 0 ≡ i = omega arith in
    (
      dest,
      unfold put_all in refl,
      refl,
      ap (λ n. take n dest) same ∙ sym (append-nil (take i dest)),
    )
put_all_lem (c ∷ cs) dest i h =
    let (d, e, s, t) =
      put_all_lem cs (set dest i c) (i + 1) (omega (arith, h, length-set dest i c)) in
    let whole : i + length (c ∷ cs) ≡ (i + 1) + length cs = omega arith in
    (
      d,
      put_all_on dest i c cs (omega (arith, h)) ∙ e,
      s ∙ length-set dest i c,
      ap (λ n. take n d) whole
          ∙ t
          ∙ ap (λ x. x ++ cs) (take-set dest i c (i + 1) (omega (arith, h)) refl)
          ∙ append_assoc (take i dest) (c ∷ []) cs,
    )

copy_stop :
    (dest : List ℕ) (last i c : ℕ) (src : List ℕ)
    → last ≤ i
    → copy_loop dest last i (c ∷ src) ≡ some dest
unfolding copy_loop
copy_stop dest last i c src h = ground (arith, h)

copy_on :
    (dest : List ℕ) (last i c : ℕ) (src : List ℕ)
    → i < last
    → i < length dest
    → copy_loop dest last i (c ∷ src) ≡ copy_loop (set dest i c) last (i + 1) src
unfolding copy_loop
copy_on dest last i c src h b = ground (arith, h, put_lem dest i c b)

copy_loop_lem :
    (src dest : List ℕ) (last i : ℕ)
    → last ≤ length dest
    → IsCopied dest last i src (copy_loop dest last i src)
copy_loop_lem [] dest last i b = unfold copy_loop in nothing-IsCopied dest last i
copy_loop_lem (c ∷ src) dest last i b = elim (dec_lt i last) [
  | no h ↦
      stopped-IsCopied dest last i (c ∷ src) (copy_loop dest last i (c ∷ src))
        (copy_stop dest last i c src (omega (arith, h))) (omega (arith, h))
  | yes h ↦
      let len = length-set dest i c in
      let on = copy_on dest last i c src h (omega (arith, h, b)) in
      let rest = copy_loop_lem src (set dest i c) last (i + 1) (omega (arith, b, len)) in
      then-IsCopied dest (set dest i c) last i (c ∷ []) src (copy_loop dest last i (c ∷ src)) len
        (take-set dest i c (i + 1) (omega (arith, h, b)) refl)
        (subst (λ r. IsCopied (set dest i c) last (i + 1) src r) (sym on) rest)
]

-- a copy whose loop ends, in a buffer with room at the position
pub copied-IsWritten :
    (capacity pos : ℕ) (text src dest d : List ℕ)
    → length dest ≡ capacity
    → pos ≡ length text
    → pos < capacity
    → take pos dest ≡ text
    → length d ≡ length dest
    → (pos + length src ≤ capacity - 1 → take (pos + length src) d ≡ take pos dest ++ src)
    → IsWritten capacity (text ++ src) (pos + length src) d
copied-IsWritten capacity pos text src dest d size same room has s h = record {
  size = s ∙ size;
  bound = omega (arith, same, length-append text src);
  state = elim (dec_lt (pos + length src) capacity) [
    | yes fits ↦ inl (
      omega (arith, same, length-append text src),
      fits,
      h (omega (arith, fits)) ∙ ap (λ t. t ++ src) has,
    )
    | no over ↦ inr (omega (arith, over))
  ];
}

-- past the end only the position moves
pub past-IsWritten :
    (capacity pos n : ℕ) (text src dest : List ℕ)
    → IsWritten capacity text pos dest
    → capacity ≤ pos
    → n ≤ length src
    → IsWritten capacity (text ++ src) (pos + n) dest
past-IsWritten capacity pos n text src dest h over small = record {
  size = h.size;
  bound = omega (arith, h.bound, small, length-append text src);
  state = inr (omega (arith, over));
}

copy_past :
    (capacity offset : ℕ) (src dest : List ℕ)
    → capacity ≤ offset
    → safe_copy capacity src dest offset ≡ some (length src, dest)
unfolding safe_copy
copy_past capacity offset src dest h = ground (arith, h)

copy_in :
    (capacity offset : ℕ) (src dest d : List ℕ)
    → offset < capacity
    → copy_loop dest (capacity - 1) offset src ≡ some d
    → safe_copy capacity src dest offset ≡ some (length src, d)
unfolding safe_copy
copy_in capacity offset src dest d h e = ground (arith, h, e)

pub safe_copy_lem : (capacity : ℕ) (src : List ℕ) → Writes capacity (safe_copy capacity src) src
safe_copy_lem capacity src text pos dest h b = elim h.state [
  | inr over ↦ (
    length src,
    dest,
    copy_past capacity pos src dest over,
    past-IsWritten capacity pos (length src) text src dest h over (omega arith),
  )
  | inl (same, room, has) ↦
      let (d, e, s, t) = copy_loop_lem src dest (capacity - 1) pos (omega (arith, h.size)) in
      (
        length src,
        d,
        copy_in capacity pos src dest d room e,
        copied-IsWritten capacity pos text src dest d h.size same room has s t,
      )
]
