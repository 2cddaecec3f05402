-- ===== src/Prelude/Ints.antt =====
-- The signed integers that clients send (Go's `int32`), and the order of texts.
use Prim.Native.Nat.{ℕ, zero, suc, ◌+◌, ◌/◌, ◌%◌}
use mathlib.Core.Bool.{Bool, true, false}
use mathlib.Core.List.{List, [], ◌∷◌, ◌++◌}
use vaultly.Prelude.Tests.{ltb, ◌==◌, if◌then◌else◌}
use vaultly.Prelude.Texts.{Text}

-- `negsuc n` is -(n + 1).
pub data ℤ : Type 0 where
  pos : ℕ → ℤ
  negsuc : ℕ → ℤ

-- Whether a signed number is the number `n`.
abbrev pub is_nat : ℤ → ℕ → Bool
is_nat (pos m) n = n == m
is_nat (negsuc _) n = false

abbrev pub is_positive : ℤ → Bool
is_positive (pos n) = ltb 0 n
is_positive (negsuc _) = false

-- The decimal digits of a number with at most as many digits as the fuel.
abbrev pub decimal : ℕ → ℕ → Text
decimal zero n = []
decimal (suc fuel) n = elim (ltb n 10) [
  | true ↦ (b'0' + n) ∷ []
  | false ↦ decimal fuel (n / 10) ++ (b'0' + n % 10) ∷ []
]

-- `%d` on an `int32`, which has at most ten digits.
abbrev pub show_int : ℤ → Text
show_int (pos n) = decimal 10 n
show_int (negsuc n) = b'-' ∷ decimal 10 (n + 1)

-- `s < t` on strings: UTF-8 keeps the order of the code points.
abbrev pub text_ltb : Text → Text → Bool
text_ltb [] [] = false
text_ltb [] (_ ∷ _) = true
text_ltb (_ ∷ _) [] = false
text_ltb (c ∷ s) (d ∷ t) = if c == d then text_ltb s t else ltb c d

module _ {ℓ} {A : Type ℓ} where
  abbrev pub insert_by : (A → Text) → A → List A → List A
  insert_by key x [] = x ∷ []
  insert_by key x (y ∷ ys) = if text_ltb (key y) (key x) then y ∷ insert_by key x ys else x ∷ y ∷ ys

  -- `sort.Slice` on a text key, and `ORDER BY`.
  abbrev pub sort_by : (A → Text) → List A → List A
  sort_by key [] = []
  sort_by key (x ∷ xs) = insert_by key x (sort_by key xs)
