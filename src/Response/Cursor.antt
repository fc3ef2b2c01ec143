-- ===== src/Response/Cursor.antt =====
-- What a position and a buffer hold of a text.
use onion_relay.Prelude.{
  ℕ, zero, suc, ◌+◌, ◌-◌, ◌%◌, ◌^◌, ◌≤◌, ◌<◌, ◌≡◌, ◌⊎◌, inl, inr, refl, Bool, true, false, Option,
  some, List, [], ◌∷◌, ◌++◌, length, set, take, length-append, length-set, arith, ◌∙◌, ap, sym,
  get_or, get_or-set_self, subst,
}
use mathlib.Core.List.{append_assoc, append-nil}
use onion_relay.Response.{Writer, put, write_all, finish, respond}

-- The text so far is in the buffer, or it is too long and the position is past the end.
pub record IsWritten (capacity : ℕ) (text : List ℕ) (pos : ℕ) (dest : List ℕ) : Type 0 where
  pub size : length dest ≡ capacity
  pub bound : pos ≤ length text
  pub state : ((pos ≡ length text) × (pos < capacity) × (take pos dest ≡ text)) ⊎ (capacity ≤ pos)

-- A function writes a text behind whatever is there.
abbrev pub Writes : ℕ → Writer → List ℕ → Type 0
Writes capacity w src =
    (text : List ℕ) (pos : ℕ) (dest : List ℕ)
    → IsWritten capacity text pos dest
    → length text + length src < 2 ^ 64
    → (n : ℕ) × (d : List ℕ) × (w dest pos ≡ some (n, d))
      × IsWritten capacity (text ++ src) (pos + n) d

-- the same for several, which add to the position
abbrev pub AllWrite : ℕ → List Writer → List ℕ → Type 0
AllWrite capacity ws src =
    (text : List ℕ) (pos : ℕ) (dest : List ℕ)
    → IsWritten capacity text pos dest
    → length text + length src < 2 ^ 64
    → (pos' : ℕ) × (d : List ℕ) × (write_all ws pos dest ≡ some (pos', d))
      × (pos ≤ pos')
      × IsWritten capacity (text ++ src) pos' d

pub write_none : (capacity : ℕ) → AllWrite capacity [] []
unfolding write_all
write_none capacity text pos dest h b = (
  pos,
  dest,
  refl,
  omega arith,
  subst (λ t. IsWritten capacity t pos dest) (sym (append-nil text)) h,
)

write_step :
    (w : Writer) (ws : List Writer) (pos n : ℕ) (dest d : List ℕ)
    → w dest pos ≡ some (n, d)
    → pos + n < 2 ^ 64
    → write_all (w ∷ ws) pos dest ≡ write_all ws (pos + n) d
unfolding write_all
write_step w ws pos n dest d e b =
    let same : (pos + n) % 2 ^ 64 ≡ pos + n = omega (arith, b) in rw (e, same) refl

pub write_next :
    {capacity : ℕ} (w : Writer) (ws : List Writer) {src rest : List ℕ}
    → Writes capacity w src
    → AllWrite capacity ws rest
    → AllWrite capacity (w ∷ ws) (src ++ rest)
write_next {capacity} w ws {src} {rest} one all text pos dest h b =
    let len = length-append src rest in
    let (n, d, e, h') = one text pos dest h (omega (arith, b, len)) in
    let len' = length-append text src in
    let (pos', d', e', le, h'') = all (text ++ src) (pos + n) d h' (omega (arith, b, len, len')) in
    (
      pos',
      d',
      write_step w ws pos n dest d e (omega (arith, h'.bound, b, len, len')) ∙ e',
      omega (arith, le),
      subst (λ t. IsWritten capacity t pos' d') (append_assoc text src rest) h'',
    )

-- What a response leaves: the text and a zero behind it if there is room for both, and otherwise the
-- news that there is not, with a zero at the end of the buffer.
abbrev pub IsResponse : ℕ → List ℕ → Option (Bool × List ℕ) → Type 0
IsResponse capacity text result =
    (d : List ℕ) × (fits : Bool) × (result ≡ some (fits, d))
    × (length d ≡ capacity)
    × (((fits ≡ true) × (length text < capacity) × (take (length text + 1) d ≡ text ++ (0 ∷ [])))
        ⊎ (fits ≡ false) × (capacity ≤ length text) × (get_or d (capacity - 1) 1 ≡ 0))

pub take-set :
    (xs : List ℕ) (i v n : ℕ)
    → i < length xs
    → n ≡ i + 1
    → take n (set xs i v) ≡ take i xs ++ (v ∷ [])
take-set [] i v n h e = absurd (omega (arith, h))
take-set (x ∷ xs) i v zero h e = absurd (omega (arith, e))
take-set (x ∷ xs) zero v (suc n) h e =
    let none_more : n ≡ 0 = omega (arith, e) in ap (λ k. v ∷ take k xs) none_more
take-set (x ∷ xs) (suc i) v (suc n) h e =
    ap (λ ys. x ∷ ys) (take-set xs i v n (omega (arith, h)) (omega (arith, e)))

pub put_lem : (dest : List ℕ) (i c : ℕ) → i < length dest → put dest i c ≡ some (set dest i c)
unfolding put
put_lem dest i c h = ground (arith, h)

finish_fits :
    (capacity pos : ℕ) (dest : List ℕ)
    → pos < capacity
    → length dest ≡ capacity
    → finish capacity pos dest ≡ some (true, set dest pos 0)
unfolding finish
finish_fits capacity pos dest h s = ground (arith, h, put_lem dest pos 0 (omega (arith, h, s)))

finish_full :
    (capacity pos : ℕ) (dest : List ℕ)
    → 0 < capacity
    → capacity ≤ pos
    → length dest ≡ capacity
    → finish capacity pos dest ≡ some (false, set dest (capacity - 1) 0)
unfolding finish
finish_full capacity pos dest z h s =
    ground (arith, h, put_lem dest (capacity - 1) 0 (omega (arith, z, s)))

respond_of :
    (capacity pos : ℕ) (ws : List Writer) (buffer d : List ℕ)
    → 0 < capacity
    → write_all ws 0 buffer ≡ some (pos, d)
    → respond capacity ws buffer ≡ finish capacity pos d
unfolding respond
respond_of capacity pos ws buffer d z e = ground (arith, z, e)

pub respond_lem :
    {capacity : ℕ} (ws : List Writer) {text : List ℕ} (buffer : List ℕ)
    → AllWrite capacity ws text
    → length buffer ≡ capacity
    → 0 < capacity
    → length text < 2 ^ 64
    → IsResponse capacity text (respond capacity ws buffer)
respond_lem {capacity} ws {text} buffer all size z b =
    let (pos, d, e, le, h) =
      all [] 0 buffer record { size = size; bound = omega arith; state = inl (refl, z, refl) }
        (omega (arith, b)) in
    let start = respond_of capacity pos ws buffer d z e in
    elim h.state [
      | inl (same, room, has) ↦ (
        set d pos 0,
        true,
        start ∙ finish_fits capacity pos d room h.size,
        length-set d pos 0 ∙ h.size,
        inl (
          refl,
          omega (arith, same, room),
          take-set d pos 0 (length text + 1) (omega (arith, room, h.size)) (omega (arith, same))
              ∙ ap (λ t. t ++ (0 ∷ [])) has,
        ),
      )
      | inr over ↦ (
        set d (capacity - 1) 0,
        false,
        start ∙ finish_full capacity pos d z over h.size,
        length-set d (capacity - 1) 0 ∙ h.size,
        inr (
          refl,
          omega (arith, over, h.bound),
          get_or-set_self d (capacity - 1) 0 1 (omega (arith, z, h.size)),
        ),
      )
    ]
