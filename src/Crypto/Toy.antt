-- ===== src/Crypto/Toy.antt =====
-- A cipher that stands in for AES-GCM in the tests (`newAEAD` of
-- backend/internal/crypto/envelope.go): the text, and behind it a tag of 16 numbers that names the
-- key, the nonce and the associated data.
use vaultly.Prelude.{
  ℕ, zero, suc, ◌-◌, ◌*◌, ◌≡◌, refl, none, some, [], ◌∷◌, ◌++◌, length, take, drop, text_eq,
  text_eq_refl, text_eq→eq, length-append, take-append, drop-append, if◌then◌else◌, Bool-cases, inl,
  inr, arith,
}
use vaultly.Db.{Bytes}
use vaultly.Crypto.Defs.{Cipher, IsAead}

-- Two numbers in one: 2 ^ x * (2 * n + 1).
abbrev pair : ℕ → ℕ → ℕ
pair zero n = suc (2 * n)
pair (suc x) n = 2 * pair x n

-- A text in one number.
abbrev number : Bytes → ℕ
number [] = 0
number (c ∷ s) = pair c (number s)

abbrev tag : Bytes → Bytes → Bytes → Bytes
tag key nonce aad =
    number aad ∷ number key ∷ number nonce ∷ 0 ∷ 0 ∷ 0 ∷ 0 ∷ 0 ∷ 0 ∷ 0 ∷ 0 ∷ 0 ∷ 0 ∷ 0 ∷ 0 ∷ 0 ∷ []

abbrev pub toy : Cipher
toy = record {
  seal = λ key nonce p aad. p ++ tag key nonce aad;
  open_sealed = λ key nonce s aad.
      let n = length s - 16 in
      if text_eq (drop n s) (tag key nonce aad) then some (take n s) else none;
}

take-drop : (n : ℕ) (s : Bytes) → (take n s ++ drop n s) ≡ s
take-drop zero s = refl
take-drop (suc n) [] = refl
take-drop (suc n) (c ∷ s) = rw (take-drop n s) refl

toy_open :
    (n : ℕ) (s t : Bytes) {p : Bytes}
    → (if text_eq (drop n s) t then some (take n s) else none) ≡ some p
    → (p ++ t) ≡ s
toy_open n s t {p} h = elim (Bool-cases (text_eq (drop n s) t)) [
  | inl same ↦
      let e = text_eq→eq (drop n s) t same in
      let first : take n s ≡ p = ground arith in rw (← first, ← e) (take-drop n s)
  | inr other ↦ ground arith
]

pub toy-IsAead : IsAead toy
toy-IsAead = record {
  open_seal = λ key nonce p aad.
      let t = tag key nonce aad in
      let n : length (p ++ t) - 16 ≡ length p = omega (arith, length-append p t) in
      rw (n, take-append (length p) p t refl, drop-append (length p) p t refl, text_eq_refl t) refl;
  seal_open = λ key nonce s aad p h. toy_open (length s - 16) s (tag key nonce aad) h;
  length-seal = λ key nonce p aad. length-append p (tag key nonce aad);
}
