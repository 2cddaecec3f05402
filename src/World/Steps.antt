-- ===== src/World/Steps.antt =====
-- Calls whose error the caller looks at, ignores or turns into another
-- (backend/internal/service/auth.go, backend/cmd/rotate-key/main.go).
use vaultly.Domain.{Error}
use vaultly.World.Defs.{Outcome, ok, Svc, Action', rename}

-- A call whose error is a value.
unfoldable pub attempt : {E A : Type 0} → Action' E A → Svc (Outcome E A)
attempt m w = (ok (m w).0, (m w).1)

-- A call of which neither result nor error is used.
unfoldable pub ignore : {A : Type 0} → Svc A → Svc (Unit {0})
ignore m w = (ok tt, (m w).1)

-- A call whose error the caller turns into another.
unfoldable pub reword : {A : Type 0} → (Error → Error) → Svc A → Svc A
reword f m w = (rename f (m w).0, (m w).1)
