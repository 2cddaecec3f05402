-- ===== src/Crypto/Quiet.antt =====
-- Encryption and the tables (backend/internal/crypto/envelope.go).
use vaultly.Db.{Bytes}
use vaultly.World.Respects.{Relation, Respects, respects_rules}
use vaultly.Crypto.Defs.{Keyring, wrap, encrypt}

module _ {R : Relation} (k : Keyring) where
  pub Respects-wrap : (dek : Bytes) → Respects R (wrap k dek)
  unfolding wrap
  Respects-wrap dek = search respects_rules depth 9

  pub Respects-encrypt : (p aad : Bytes) → Respects R (encrypt k p aad)
  unfolding encrypt
  Respects-encrypt p aad = search (respects_rules, Respects-wrap) depth 9
