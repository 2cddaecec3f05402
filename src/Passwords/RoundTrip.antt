-- ===== src/Passwords/RoundTrip.antt =====
-- A password against its own hash (backend/internal/auth/password.go).
use vaultly.Prelude.{
  ℕ, suc, ==_refl, ◌≡◌, refl, ap, subst, ◌∙◌, false, some, List, [], ◌∷◌, ◌++◌, Text, codes,
  text_eq_refl, length, arith,
}
use vaultly.Db.{Bytes}
use vaultly.World.{World, ok, pure, random_bytes}
use vaultly.World.Returns.{bind-eq-ok, length-random_bytes}
use vaultly.World.Yields.{ok_injective}
use vaultly.Passwords.Defs.{
  Argon, Decoded, onto, decode_bytes, split, printed, render, hash_password, decode_parts,
  decode_hash, verify_password, needs_rehash,
}
use vaultly.Passwords.Fields.{Lacks, split_last, split-append, Lacks-printed}

-- What the source relies on of the packages: keys of the length that was asked for, base64 that
-- decodes what it encoded and has no dollar sign, and a scan that reads what was printed.
pub record IsArgon (a : Argon) : Type 0 where
  pub length_key : (p : Text) (s : Bytes) (t m h n : ℕ) → length (a.id_key p s t m h n) ≡ n
  pub decode-encode : (b : Bytes) → a.decode (a.encode b) ≡ some b
  pub plain : (b : Bytes) → Lacks b'$' (a.encode b)
  pub scans_version : a.scan_version (codes "v=" ++ printed a.version) ≡ some a.version
  pub scans_params : a.scan_params (codes "m=19456,t=2,p=1") ≡ some (19456, 2, 1)

-- The six fields of a text in the stored form.
fields :
    (v s k : Text)
    → Lacks b'$' v
    → Lacks b'$' s
    → Lacks b'$' k
    → split b'$'
        (codes "$argon2id$v=" ++ (v ++ (codes "$m=19456,t=2,p=1$" ++ (s ++ (codes "$" ++ k)))))
      ≡ [] ∷ codes "argon2id" ∷ (codes "v=" ++ v) ∷ codes "m=19456,t=2,p=1" ∷ s ∷ k ∷ []
fields v s k no_v no_s no_k =
    ap (λ l. [] ∷ codes "argon2id" ∷ onto b'v' (onto b'=' l)) (split-append b'$' v _ no_v)
    ∙ ap (λ l. [] ∷ codes "argon2id" ∷ (codes "v=" ++ v) ∷ codes_onto l)
        (split-append b'$' s k no_s ∙ ap (λ l. s ∷ l) (split_last b'$' k no_k))
  where
    codes_onto : List Text → List Text
    codes_onto l = codes "m=19456,t=2,p=1" ∷ l

abbrev current : Bytes → Bytes → Decoded
current salt key = record {
  params = record { memory = 19456; time = 2; threads = 1 };
  salt = salt;
  key = key;
}

nonempty : (b : Bytes) (n : ℕ) → length b ≡ suc n → decode_bytes (some b) ≡ ok b
nonempty [] n h = absurd (omega (arith, h))
nonempty (c ∷ cs) n h = refl

module _ (a : Argon) (h : IsArgon a) where
  decode_hash-render :
      (salt key : Bytes) (m n : ℕ)
      → length salt ≡ suc m
      → length key ≡ suc n
      → decode_hash a (render a salt key) ≡ ok (current salt key)
  unfolding decode_hash render
  decode_hash-render salt key m n full long =
      ap (decode_parts a) (
        fields (printed a.version) (a.encode salt) (a.encode key) (Lacks-printed a.version)
          (h.plain salt) (h.plain key))
      ∙ rw
          (
            h.scans_version,
            ==_refl a.version,
            h.scans_params,
            h.decode-encode salt,
            h.decode-encode key,
          )
          (rw (nonempty salt m full, nonempty key n long) refl)

  abbrev key_of : Text → Bytes → Bytes
  key_of password salt = a.id_key password salt 2 19456 1 32

  accepts :
      (password : Text) (salt : Bytes)
      → length salt ≡ 16
      → (verify_password a password (render a salt (key_of password salt)) ≡ ok tt)
        × (needs_rehash a (render a salt (key_of password salt)) ≡ false)
  unfolding verify_password needs_rehash
  accepts password salt full =
      let long = h.length_key password salt 2 19456 1 32 in
      let decoded = decode_hash-render salt (key_of password salt) 15 31 full long in
      (rw (decoded, long, text_eq_refl (key_of password salt)) refl, rw decoded refl)

  -- The hash that `HashPassword` returns for a password is one that `VerifyPassword` accepts with it,
  -- and one that needs no new hash, for the laws of Argon2, base64 and `Sscanf`.
  pub verify_password-hash_password :
      (password encoded : Text) (w : World)
      → (hash_password a password w).0 ≡ ok encoded
      → (verify_password a password encoded ≡ ok tt) × (needs_rehash a encoded ≡ false)
  unfolding hash_password pure
  verify_password-hash_password password encoded w e =
      let (salt, drawn, rest, _) =
        bind-eq-ok (random_bytes 16)
          (λ salt. pure (render a salt (a.id_key password salt 2 19456 1 32))) w e in
      subst (λ s. (verify_password a password s ≡ ok tt) × (needs_rehash a s ≡ false))
        (ok_injective rest) (accepts password salt (length-random_bytes 16 w drawn))
