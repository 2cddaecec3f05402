-- ===== src/Crypto/RoundTrip.antt =====
-- Sealing and opening, and the change of the master key
-- (backend/internal/crypto/envelope.go).
use vaultly.Prelude.{
  ◌≡◌, false, Option, none, some, [], ◌++◌, length, take, drop, length-append, take-append,
  drop-append, arith, ltb, Bool-cases, inl, inr,
}
use vaultly.Db.{Bytes}
use vaultly.World.{ok, World, pure, lift, random_bytes}
use vaultly.World.Returns.{bind-eq-ok, length-random_bytes}
use vaultly.Crypto.Defs.{
  Cipher, IsAead, new_aead, Keyring, Sealed, wrap, unwrap, sized, encrypt, open_with, decrypt,
  rewrap,
}

sized-eq-ok : (o : Option Bytes) {dek : Bytes} → sized o ≡ ok dek → length dek ≡ 32
sized-eq-ok none h = cc
sized-eq-ok (some b) h = ground arith

-- What is unwrapped is a key.
pub unwrap-sized : (k : Keyring) (b : Bytes) {dek : Bytes} → unwrap k b ≡ ok dek → length dek ≡ 32
unfolding unwrap
unwrap-sized k b h = elim (Bool-cases (ltb (length b) 28)) [
  | inl short ↦ cc (rw (short, unwrap) at h)
  | inr long ↦
      sized-eq-ok (k.cipher.open_sealed k.master (take 12 b) (drop 12 b) [])
        (rw (long, unwrap) at h)
]

module _ (k : Keyring) (aead : IsAead k.cipher) where
  -- A wrapped key of the right size is unwrapped.
  unwrap-append :
      (nonce dek : Bytes)
      → length nonce ≡ 12
      → length dek ≡ 32
      → unwrap k (nonce ++ k.cipher.seal k.master nonce dek []) ≡ ok dek
  unfolding unwrap
  unwrap-append nonce dek hn hd =
      let s = k.cipher.seal k.master nonce dek [] in
      let long : ltb (length (nonce ++ s)) 28 ≡ false =
        ground (arith, length-append nonce s, aead.length-seal k.master nonce dek []) in
      rw (long, take-append 12 nonce s hn, drop-append 12 nonce s hn, aead.open_seal) (ground arith)

  pub unwrap-wrap :
      (dek : Bytes) (w : World) {b : Bytes}
      → length dek ≡ 32
      → (wrap k dek w).0 ≡ ok b
      → unwrap k b ≡ ok dek
  unfolding wrap pure
  unwrap-wrap dek w {b} hd h =
      let (nonce, drew, e, _) = bind-eq-ok (random_bytes 12) _ w h in
      let same : nonce ++ k.cipher.seal k.master nonce dek [] ≡ b = cc e in
      rw (← same) (unwrap-append nonce dek (length-random_bytes 12 w drew) hd)

  -- With the key known, the text opens.
  open_with-seal :
      (dek nonce p aad wrapped : Bytes)
      → length dek ≡ 32
      → length nonce ≡ 12
      → open_with k
          (record {
            wrapped_dek = wrapped;
            nonce = nonce;
            ciphertext = k.cipher.seal dek nonce p aad;
          })
          aad
          (ok dek)
        ≡ ok p
  open_with-seal dek nonce p aad wrapped hd hn = ground (arith, aead.open_seal dek nonce p aad)

  -- The parts of what `Encrypt` returns.
  encrypt-eq-ok :
      (p aad : Bytes) (w : World) (s : Sealed)
      → (encrypt k p aad w).0 ≡ ok s
      → (dek nonce wrapped : Bytes) × (length dek ≡ 32)
        × (length nonce ≡ 12)
        × (unwrap k wrapped ≡ ok dek)
        × (record {
          wrapped_dek = wrapped;
          nonce = nonce;
          ciphertext = k.cipher.seal dek nonce p aad;
        }
            ≡ s)
  unfolding encrypt pure lift
  encrypt-eq-ok p aad w s h =
      let (dek, drew, h1, _) = bind-eq-ok (random_bytes 32) _ w h in
      let (u, fits, h2, _) = bind-eq-ok (lift (new_aead dek)) _ _ h1 in
      let (nonce, drew', h3, _) = bind-eq-ok (random_bytes 12) _ _ h2 in
      let (wrapped, wr, h4, _) = bind-eq-ok (wrap k dek) _ _ h3 in
      let hd = length-random_bytes 32 w drew in
      (dek, nonce, wrapped, hd, length-random_bytes 12 _ drew', unwrap-wrap dek _ hd wr, cc h4)

  -- Over a cipher with the laws `IsAead`: what `Encrypt` returns, `Decrypt` opens to the same plaintext under the same associated data.
  pub decrypt-encrypt :
      (p aad : Bytes) (w : World) (s : Sealed)
      → (encrypt k p aad w).0 ≡ ok s
      → decrypt k (some s) aad ≡ ok p
  unfolding decrypt
  decrypt-encrypt p aad w s h =
      let (dek, nonce, wrapped, hd, hn, unwrapped, same) = encrypt-eq-ok p aad w s h in
      rw (← same) (rw unwrapped (open_with-seal dek nonce p aad wrapped hd hn))

-- The parts of what `Rewrap` returns: only the wrapped key is new.
pub rewrap-eq-ok :
    (k next : Keyring) (w : World) (s t : Sealed)
    → IsAead next.cipher
    → (rewrap k (some s) (some next) w).0 ≡ ok t
    → (dek : Bytes) × (unwrap k s.wrapped_dek ≡ ok dek)
      × (unwrap next t.wrapped_dek ≡ ok dek)
      × (t.nonce ≡ s.nonce)
      × (t.ciphertext ≡ s.ciphertext)
unfolding rewrap pure lift
rewrap-eq-ok k next w s t aead h =
    let (dek, un, h1, _) = bind-eq-ok (lift (unwrap k s.wrapped_dek)) _ w h in
    let (wrapped, wr, h2, _) = bind-eq-ok (wrap next dek) _ _ h1 in
    let same : record s { wrapped_dek = wrapped } ≡ t = cc h2 in
    (
      dek,
      un,
      rw (← same) (unwrap-wrap next aead dek _ (unwrap-sized k s.wrapped_dek un) wr),
      rw (← same),
      rw (← same),
    )

module _ (c : Cipher) (aead : IsAead c) (m n : Bytes) where
  abbrev current : Keyring
  current = record { cipher = c; master = m }

  abbrev next : Keyring
  next = record { cipher = c; master = n }

  -- Over a cipher with the laws `IsAead`: after a `Rewrap` that returned, the value decrypts under the new master key to what it decrypted to under the
  -- old one, for any associated data, and the nonce and the ciphertext are those of before.
  pub decrypt-rewrap :
      (s t : Sealed) (aad : Bytes) (w : World)
      → (rewrap current (some s) (some next) w).0 ≡ ok t
      → (decrypt next (some t) aad ≡ decrypt current (some s) aad)
        × (t.nonce ≡ s.nonce)
        × (t.ciphertext ≡ s.ciphertext)
  unfolding decrypt
  decrypt-rewrap s t aad w h =
      let (dek, un, un', same_n, same_c) = rewrap-eq-ok current next w s t aead h in
      (rw (un, un', same_n, same_c), same_n, same_c)
