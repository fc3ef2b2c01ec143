-- ===== src/WebSocket/Frame.antt =====
-- `WebSocketEntity` of src/websocket/websocket.h, and what a run of the codec can end in.
use onion_relay.Prelude.{
  ℕ, zero, suc, ◌+◌, ◌-◌, ◌%◌, ◌^◌, Bool, true, false, none, some, List, [], ◌∷◌, get_elem?,
}

-- `payload` holds the bytes that the pointer shows, without the final NUL that the parsers append.
pub record Entity : Type 0 where
  pub fin : ℕ
  pub rsv1 : ℕ
  pub rsv2 : ℕ
  pub rsv3 : ℕ
  pub opcode : ℕ
  pub mask : ℕ
  pub payload_len : ℕ
  pub ext_payload_len : ℕ
  pub masking_key : List ℕ
  pub payload : List ℕ

-- `refused` is the return of `false` or 0; `fault` is an access outside a buffer, which C leaves
-- undefined.
pub data Run {ℓ} (A : Type ℓ) : Type ℓ where
  done : A → Run A
  refused : Run A
  fault : Run A

infixl 5 ◌>>=◌ ◌>>◌
abbrev pub ◌>>=◌ {ℓ κ} : {A : Type ℓ} {B : Type κ} → Run A → (A → Run B) → Run B
done a >>= f = f a
refused >>= f = refused
fault >>= f = fault

abbrev pub ◌>>◌ {ℓ} : {B : Type ℓ} → Run (Unit {0}) → Run B → Run B
m >> k = m >>= λ _. k

-- the macro `require`
abbrev pub require : Bool → Run (Unit {0})
require true = done tt
require false = refused

unfoldable pub read : List ℕ → ℕ → Run ℕ
read buffer i = elim (get_elem? buffer i) [ some b ↦ done b | none ↦ fault ]

-- `n` bytes from index `i` on
unfoldable pub read_bytes : List ℕ → ℕ → ℕ → Run (List ℕ)
unfolding read
read_bytes buffer i zero = done []
read_bytes buffer i (suc n) = do b ← read buffer i; bs ← read_bytes buffer (i + 1) n; done (b ∷ bs)

-- `size_t` subtraction
abbrev pub sub64 : ℕ → ℕ → ℕ
sub64 a b = (a + 2 ^ 64 - b) % 2 ^ 64
