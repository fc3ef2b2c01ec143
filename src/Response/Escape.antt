-- ===== src/Response/Escape.antt =====
-- safe_copy_json_escaped writes its text with the escapes.
use onion_relay.Prelude.{
  ℕ, ◌+◌, ◌-◌, ◌^◌, ◌≤◌, ◌<◌, ◌≡◌, inl, inr, refl, some, List, [], ◌∷◌, ◌++◌, length, length-append,
  arith, ◌∙◌, ap, sym, subst, dec_lt,
}
use onion_relay.Response.{
  put_all, escape_char_len, escape_char, escape_loop, escaped_len, safe_copy_json_escaped,
}
use onion_relay.Response.Cursor.{Writes}
use onion_relay.Response.Copy.{
  IsCopied, stopped-IsCopied, nothing-IsCopied, then-IsCopied, put_all_lem, copied-IsWritten,
  past-IsWritten,
}

-- the text with its escapes
unfoldable pub escape : List ℕ → List ℕ
escape [] = []
escape (c ∷ src) = escape_char c ++ escape src

char_len : (c : ℕ) → (escape_char_len c ≡ length (escape_char c)) × (1 ≤ escape_char_len c)
unfolding escape_char_len escape_char
char_len c = ground arith

escaped_len_lem :
    (src : List ℕ) → length (escape src) < 2 ^ 64 → escaped_len src ≡ length (escape src)
unfolding escaped_len escape
escaped_len_lem [] b = refl
escaped_len_lem (c ∷ src) b =
    let len = length-append (escape_char c) (escape src) in
    let rest = escaped_len_lem src (omega (arith, b, len)) in
    omega (arith, char_len c, rest, len, b)

escape_end :
    (dest : List ℕ) (last i c : ℕ) (src : List ℕ)
    → last ≤ i
    → escape_loop dest last i (c ∷ src) ≡ some dest
unfolding escape_loop
escape_end dest last i c src h = ground (arith, h)

escape_break :
    (dest : List ℕ) (last i c : ℕ) (src : List ℕ)
    → i < last
    → last ≤ i + escape_char_len c - 1
    → escape_loop dest last i (c ∷ src) ≡ some dest
unfolding escape_loop
escape_break dest last i c src h k = ground (arith, h, k)

escape_on :
    (dest d : List ℕ) (last i c : ℕ) (src : List ℕ)
    → i < last
    → i + escape_char_len c - 1 < last
    → put_all dest i (escape_char c) ≡ some d
    → escape_loop dest last i (c ∷ src) ≡ escape_loop d last (i + length (escape_char c)) src
unfolding escape_loop
escape_on dest d last i c src h k e = ground (arith, h, k, e)

escape_loop_lem :
    (src dest : List ℕ) (last i : ℕ)
    → last ≤ length dest
    → IsCopied dest last i (escape src) (escape_loop dest last i src)
escape_loop_lem [] dest last i b = unfold escape_loop escape in nothing-IsCopied dest last i
escape_loop_lem (c ∷ src) dest last i b =
    let len : length (escape (c ∷ src)) ≡ length (escape_char c) + length (escape src) =
      unfold escape in length-append (escape_char c) (escape src) in
    let whole : escape_char c ++ escape src ≡ escape (c ∷ src) = unfold escape in refl in
    let result = escape_loop dest last i (c ∷ src) in
    let (same, positive) = char_len c in
    elim (dec_lt i last) [
      | no h ↦
          stopped-IsCopied dest last i (escape (c ∷ src)) result
            (escape_end dest last i c src (omega (arith, h)))
            (omega (arith, h, len, same, positive))
      | yes h ↦ elim (dec_lt (i + escape_char_len c - 1) last) [
        | no k ↦
            stopped-IsCopied dest last i (escape (c ∷ src)) result
              (escape_break dest last i c src h (omega (arith, k)))
              (omega (arith, k, len, same, positive))
        | yes k ↦
            let (d, e, s, t) = put_all_lem (escape_char c) dest i (omega (arith, k, same, b)) in
            let on = escape_on dest d last i c src h k e in
            let rest =
              escape_loop_lem src d last (i + length (escape_char c)) (omega (arith, b, s)) in
            subst (λ text. IsCopied dest last i text result) whole
              (then-IsCopied dest d last i (escape_char c) (escape src) result s t (
                subst (λ r. IsCopied d last (i + length (escape_char c)) (escape src) r) (sym on)
                  rest))
      ]
    ]

escaped_past :
    (capacity offset : ℕ) (src dest : List ℕ)
    → capacity ≤ offset
    → safe_copy_json_escaped capacity src dest offset ≡ some (escaped_len src, dest)
unfolding safe_copy_json_escaped
escaped_past capacity offset src dest h = ground (arith, h)

escaped_in :
    (capacity offset : ℕ) (src dest d : List ℕ)
    → offset < capacity
    → escape_loop dest (capacity - 1) offset src ≡ some d
    → safe_copy_json_escaped capacity src dest offset ≡ some (escaped_len src, d)
unfolding safe_copy_json_escaped
escaped_in capacity offset src dest d h e = ground (arith, h, e)

pub safe_copy_json_escaped_lem :
    (capacity : ℕ) (src : List ℕ)
    → Writes capacity (safe_copy_json_escaped capacity src) (escape src)
safe_copy_json_escaped_lem capacity src text pos dest h b =
    let n : escaped_len src ≡ length (escape src) = escaped_len_lem src (omega (arith, b)) in
    elim h.state [
      | inr over ↦ (
        length (escape src),
        dest,
        escaped_past capacity pos src dest over ∙ ap (λ k. some (k, dest)) n,
        past-IsWritten capacity pos (length (escape src)) text (escape src) dest h over
            (omega arith),
      )
      | inl (same, room, has) ↦
          let (d, e, s, t) = escape_loop_lem src dest (capacity - 1) pos (omega (arith, h.size)) in
          (
            length (escape src),
            d,
            escaped_in capacity pos src dest d room e ∙ ap (λ k. some (k, d)) n,
            copied-IsWritten capacity pos text (escape src) dest d h.size same room has s t,
          )
    ]
