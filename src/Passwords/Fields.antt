-- ===== src/Passwords/Fields.antt =====
-- Splitting a text at its separators (backend/internal/auth/password.go).
use vaultly.Prelude.{
  ℕ, zero, suc, ◌+◌, ◌/◌, ◌%◌, ◌≡◌, ◌≢◌, refl, [], ◌∷◌, ◌++◌, Text, All, ◌==◌, ltb, Bool-cases, inl,
  inr, decimal, arith, true, false,
}
use vaultly.Passwords.Defs.{split, printed}

-- A text without a character.
abbrev pub Lacks : ℕ → Text → Type 0
Lacks sep s = All (λ c. c ≢ sep) s

not_sep : (c sep : ℕ) → c ≢ sep → (c == sep) ≡ false
not_sep c sep h = ground (arith, h)

-- The last field.
pub split_last : (sep : ℕ) (s : Text) → Lacks sep s → split sep s ≡ s ∷ []
split_last sep [] h = refl
split_last sep (c ∷ s) h = rw (not_sep c sep h.0, split_last sep s h.1)

-- A field before a separator.
pub split-append : (sep : ℕ) (s t : Text) → Lacks sep s → split sep (s ++ sep ∷ t) ≡ s ∷ split sep t
split-append sep [] t h = rw (same sep)
  where
    same : (sep : ℕ) → (sep == sep) ≡ true
    same sep = ground arith
split-append sep (c ∷ s) t h = rw (not_sep c sep h.0, split-append sep s t h.1)

pub Lacks-append : (sep : ℕ) (s t : Text) → Lacks sep s → Lacks sep t → Lacks sep (s ++ t)
Lacks-append sep [] t h k = k
Lacks-append sep (c ∷ s) t h k = (h.0, Lacks-append sep s t h.1 k)

-- Digits are no dollar sign.
Lacks-decimal : (fuel n : ℕ) → Lacks b'$' (decimal fuel n)
Lacks-decimal zero n = tt
Lacks-decimal (suc fuel) n = elim (Bool-cases (ltb n 10)) [
  | inl one ↦ rw (one, decimal) (omega arith, tt)
  | inr more ↦
      rw (more, decimal)
        (Lacks-append b'$' (decimal fuel (n / 10)) ((b'0' + n % 10) ∷ [])
          (Lacks-decimal fuel (n / 10)) (omega arith, tt))
]

pub Lacks-printed : (n : ℕ) → Lacks b'$' (printed n)
unfolding printed
Lacks-printed n = Lacks-decimal 10 n
