-- ===== src/WebSocket/Masking.antt =====
-- Buffers read in order, and the two ways to_packet.c and to_entity.c mask a payload.
use native.Mathlib.Numerals.{add-one}
use onion_relay.Prelude.{
  ℕ, zero, suc, ◌+◌, ◌%◌, ◌<◌, ◌≡◌, refl, ap, ap₂, ◌∙◌, List, [], ◌∷◌, ◌++◌, arith, length, get_or,
  All, bit_xor_twice, bit_xor-zero,
}
use onion_relay.WebSocket.Frame.{done, read_bytes}
use onion_relay.WebSocket.Parse.{unmask}
use onion_relay.WebSocket.Packet.{mask_tail, mask_payload}

read_bytes-cons :
    (x : ℕ) (xs : List ℕ) (i n : ℕ) → read_bytes (x ∷ xs) (suc i) n ≡ read_bytes xs i n
unfolding read_bytes
read_bytes-cons x xs i zero = refl
read_bytes-cons x xs i (suc n) =
    let shift : read_bytes (x ∷ xs) (suc i + 1) n ≡ read_bytes xs (i + 1) n =
      rw (add-one, add-one) (read_bytes-cons x xs (suc i) n) in
    rw shift

read_bytes-append_zero : (ys zs : List ℕ) → read_bytes (ys ++ zs) 0 (length ys) ≡ done ys
unfolding read_bytes
read_bytes-append_zero [] zs = refl
read_bytes-append_zero (y ∷ ys) zs =
    rw (read_bytes-cons y (ys ++ zs) 0 (length ys), read_bytes-append_zero ys zs)

-- Reading as many bytes as `ys` has from behind `xs` gives `ys`.
pub read_bytes-append :
    (xs ys zs : List ℕ) → read_bytes (xs ++ (ys ++ zs)) (length xs) (length ys) ≡ done ys
read_bytes-append [] ys zs = read_bytes-append_zero ys zs
read_bytes-append (x ∷ xs) ys zs =
    read_bytes-cons x (xs ++ (ys ++ zs)) (length xs) (length ys) ∙ read_bytes-append xs ys zs

abbrev pub IsByte : ℕ → Type 0
IsByte b = b < 256

-- The unrolled loop masks like the plain one.
pub mask_payload-eq-mask_tail :
    (key : List ℕ) (i : ℕ) (bs : List ℕ) → i % 4 ≡ 0 → mask_payload key i bs ≡ mask_tail key i bs
unfolding mask_payload
mask_payload-eq-mask_tail key i (a ∷ b ∷ c ∷ d ∷ bs) h =
    let rest : mask_payload key (i + 4) bs ≡ mask_tail key (i + 1 + 1 + 1 + 1) bs =
      mask_payload-eq-mask_tail key (i + 4) bs (omega arith)
      ∙ ap (λ j. mask_tail key j bs) (omega arith) in
    let e1 : (i + 1) % 4 ≡ 1 = omega arith in
    let e2 : (i + 1 + 1) % 4 ≡ 2 = omega arith in
    let e3 : (i + 1 + 1 + 1) % 4 ≡ 3 = omega arith in rw (h, e1, e2, e3, rest)
mask_payload-eq-mask_tail key i bs h = refl

pub length-mask_tail :
    (key : List ℕ) (i : ℕ) (bs : List ℕ) → length (mask_tail key i bs) ≡ length bs
unfolding mask_tail
length-mask_tail key i [] = refl
length-mask_tail key i (b ∷ bs) = ap suc (length-mask_tail key (i + 1) bs)

pub length-unmask :
    (m : ℕ) (key : List ℕ) (i : ℕ) (bs : List ℕ) → length (unmask m key i bs) ≡ length bs
unfolding unmask
length-unmask m key i [] = refl
length-unmask m key i (b ∷ bs) = ap suc (length-unmask m key (i + 1) bs)

get_or-IsByte : (key : List ℕ) (i : ℕ) → All IsByte key → get_or key i 0 < 256
get_or-IsByte [] i h = omega arith
get_or-IsByte (k ∷ key) zero h = h.0
get_or-IsByte (k ∷ key) (suc i) h = get_or-IsByte key i h.1

-- The parser takes off the mask that the printer put on.
pub unmask-mask_tail :
    (key : List ℕ) (i : ℕ) (bs : List ℕ)
    → All IsByte key
    → All IsByte bs
    → unmask 1 key i (mask_tail key i bs) ≡ bs
unfolding unmask mask_tail
unmask-mask_tail key i [] hk hb = refl
unmask-mask_tail key i (b ∷ bs) hk hb =
    ap₂ ◌∷◌ (bit_xor_twice b _ hb.0 (get_or-IsByte key (i % 4) hk))
      (unmask-mask_tail key (i + 1) bs hk hb.1)

pub unmask-zero : (key : List ℕ) (i : ℕ) (bs : List ℕ) → All IsByte bs → unmask 0 key i bs ≡ bs
unfolding unmask
unmask-zero key i [] h = refl
unmask-zero key i (b ∷ bs) h = ap₂ ◌∷◌ (bit_xor-zero b h.0) (unmask-zero key (i + 1) bs h.1)
