-- ===== src/Crypto.antt =====
-- Envelope encryption (backend/internal/crypto/envelope.go). AES-GCM is a parameter: what `Seal`
-- and `Open` compute is not in the repository.
pub mod Aad
pub mod RoundTrip
pub mod Quiet
mod Defs
unfoldable pub use Defs.*
pub mod Toy
