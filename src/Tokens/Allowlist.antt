-- ===== src/Tokens/Allowlist.antt =====
-- The addresses that a token allows, from the texts of its stored allowlist
-- (backend/internal/service/token.go, backend/internal/domain/models.go).
use vaultly.Prelude.{◌≡◌, ◌⊎◌, Bool, true, none, some, List, Text, text_eq, any, All}
use vaultly.Tokens.Defs.{Net}

module _ (net : Net) (addr : net.Addr) where
  -- What the text of an entry says of the address.
  abbrev pub Names : List Text → Type 0
  Names es =
      (e : Text) × (p : net.Prefix) × (any (text_eq e) es ≡ true)
      × (net.parse_prefix e ≡ some p)
      × (net.contains (net.masked p) (net.unmap addr) ≡ true)

  -- What the stored texts of an allowlist say of an address: no text is a prefix, or the address is
  -- valid and some text is a prefix of which the masked form contains it.
  abbrev pub Allows : List Text → Type 0
  Allows es = All (λ e. net.parse_prefix e ≡ none) es ⊎ ((net.is_valid addr ≡ true) × Names es)

  abbrev inside : net.Prefix → Bool
  inside q = net.contains q (net.unmap addr)
