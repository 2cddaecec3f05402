-- ===== src/Tests/Roles.antt =====
-- Roles (backend/internal/domain/models.go).
use vaultly.Prelude.{◌≡◌, false}
use vaultly.Domain.{viewer, unknown, at_least}
use vaultly.Domain.Order.{at_least-unknown}

at_least-unknown_example :
    (at_least (unknown "auditor") viewer ≡ false) × (at_least viewer (unknown "auditor") ≡ false)
at_least-unknown_example = at_least-unknown "auditor" viewer
