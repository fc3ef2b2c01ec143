-- ===== src/Filter/Prefix.antt =====
-- The test of ids and authors: prefixes of 32-byte values.
use onion_relay.Prelude.{
  ℕ, ◌≤◌, ◌<◌, ◌≡◌, ◌⊎◌, sym, subst, Bool, true, false, ◌||◌, ◌&&◌, List, [], ◌∷◌, if◌then◌else◌,
  length, ltb, leb, arith, All, any, Bool-cases, inl, inr, take, ◌↔◌,
}
use onion_relay.Text.{hex_from}
use onion_relay.Text.Hex.{hex, hex_from-hex, memcmp_eq_iff}
use onion_relay.Filter.{FilterId, hex_to_bytes, bytes_match_prefix, id_matches}

-- some element satisfies `P`
abbrev pub Exists {ℓ} : {A : Type ℓ} → (A → Type 0) → List A → Type 0
Exists P [] = ⊥
Exists P (x ∷ xs) = P x ⊎ Exists P xs

pub any_iff {ℓ} :
    {A : Type ℓ} (p : A → Bool) (P : A → Type 0) (V : A → Type 0) (xs : List A)
    → ((x : A) → V x → (p x ≡ true) ↔ P x)
    → All V xs
    → (any p xs ≡ true) ↔ Exists P xs
any_iff p P V [] h v = (λ e. cc, λ e. absurd e)
any_iff p P V (x ∷ xs) h v = any_step (h x v.0) (any_iff p P V xs h v.1)
  where
    any_step :
        (p x ≡ true) ↔ P x
        → (any p xs ≡ true) ↔ Exists P xs
        → ((p x || any p xs) ≡ true) ↔ (P x ⊎ Exists P xs)
    any_step here there = (first (Bool-cases (p x)), second)
      where
        first : (p x ≡ true) ⊎ (p x ≡ false) → (p x || any p xs) ≡ true → P x ⊎ Exists P xs
        first (inl e) k = inl (here.0 e)
        first (inr e) k = inr (there.0 (ground arith))

        second : P x ⊎ Exists P xs → (p x || any p xs) ≡ true
        second (inl k) = let e = here.1 k in ground arith
        second (inr k) = let e = there.1 k in ground arith

abbrev pub IsPrefix : List ℕ → FilterId → Type 0
IsPrefix bytes f = take f.prefix_len f.value ≡ take f.prefix_len bytes

pub record IsStored (f : FilterId) : Type 0 where
  pub whole : length f.value ≡ 32
  pub short : f.prefix_len ≤ 32

any_prefix_iff :
    (bytes : List ℕ)
    → length bytes ≡ 32
    → (ids : List FilterId) → All IsStored ids
    → (any
          (λ f. leb f.prefix_len (length bytes) && bytes_match_prefix bytes f.value f.prefix_len)
          ids
        ≡ true)
      ↔ Exists (IsPrefix bytes) ids
any_prefix_iff bytes h ids v =
    any_iff _ (IsPrefix bytes) IsStored ids
      (λ f s.
        unfold bytes_match_prefix in
        let cmp = memcmp_eq_iff bytes f.value f.prefix_len (omega arith) (omega arith) in
        (λ e. sym (cmp.0 (ground arith)), λ e. let m = cmp.1 (sym e) in ground arith))
      v

id_matches_of :
    (ids : List FilterId) (count : ℕ) (s bytes : List ℕ)
    → hex_to_bytes s 64 32 ≡ bytes
    → length bytes ≡ 32
    → id_matches ids count s ≡ (
        if ltb 0 count
        then any
            (λ f. leb f.prefix_len (length bytes) && bytes_match_prefix bytes f.value f.prefix_len)
            (take count ids)
        else true)
unfolding id_matches
id_matches_of ids count s bytes e h = rw e (ground arith)

-- For an event whose id is the hexadecimal form of 32 bytes, the test passes exactly if the filter
-- has no ids, or the first `prefix_len` bytes of one of them are those of the event's id.
pub id_matches_iff :
    (ids : List FilterId) (count : ℕ) (upper : Bool) (bytes : List ℕ)
    → length bytes ≡ 32
    → All (λ b. b < 256) bytes
    → All IsStored (take count ids)
    → (id_matches ids count (hex upper bytes) ≡ true)
      ↔ ((count ≡ 0) ⊎ Exists (IsPrefix bytes) (take count ids))
id_matches_iff ids count upper bytes h b v =
    let read : hex_to_bytes (hex upper bytes) 64 32 ≡ bytes =
      unfold hex_to_bytes in
      subst (λ n. hex_from (hex upper bytes) 0 n ≡ bytes) h (hex_from-hex upper bytes b) in
    ground (
      arith,
      id_matches_of ids count (hex upper bytes) bytes read h,
      any_prefix_iff bytes h (take count ids) v,
    )
