-- ===== src/Crypto/Aad.antt =====
-- The associated data of a secret's values (`SecretAAD` of backend/internal/crypto/envelope.go).
use vaultly.Prelude.{◌≡◌, ◌≢◌, refl, [], ◌∷◌, ◌++◌, All, arith}
use vaultly.Db.{Bytes}
use vaultly.Crypto.Defs.{secret_aad}

abbrev pub NoNul : Bytes → Type 0
NoNul = All (λ b. b ≢ 0)

-- A separator splits a text in one way, if the parts before it do not hold it.
split_injective :
    (a b : Bytes) {s t : Bytes}
    → NoNul a
    → NoNul b
    → (a ++ 0 ∷ s) ≡ (b ++ 0 ∷ t)
    → (a ≡ b) × (s ≡ t)
split_injective [] [] ha hb e = (refl, cc)
split_injective [] (y ∷ b) ha hb e = ground arith
split_injective (x ∷ a) [] ha hb e = ground arith
split_injective (x ∷ a) (y ∷ b) {s} {t} ha hb e =
    let (p, q) = split_injective a b {s = s} {t = t} ha.1 hb.1 (cc) in (cc, q)

-- Two secrets with the same associated data have the same project, environment and key, if the
-- project's and the environment's texts hold no NUL byte.
pub secret_aad_injective :
    (p e k p' e' k' : Bytes)
    → NoNul p
    → NoNul e
    → NoNul p'
    → NoNul e'
    → secret_aad p e k ≡ secret_aad p' e' k'
    → (p ≡ p') × (e ≡ e') × (k ≡ k')
unfolding secret_aad
secret_aad_injective p e k p' e' k' hp he hp' he' h =
    let (same_p, rest) = split_injective p p' hp hp' h in
    let (same_e, same_k) = split_injective e e' he he' rest in (same_p, same_e, same_k)
