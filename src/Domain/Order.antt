-- ===== src/Domain/Order.antt =====
-- The order of roles (`AtLeast` of backend/internal/domain/models.go).
use vaultly.Prelude.{◌≡◌, true, false, String, arith}
use vaultly.Domain.Roles.{Role, unknown, rank, valid, at_least}

-- `AtLeast` is transitive on all roles, unknown ones included.
at_least_trans : (a b c : Role) → at_least a b ≡ true → at_least b c ≡ true → at_least a c ≡ true
unfolding at_least valid
at_least_trans a b c h k = ground arith

-- `AtLeast` fails closed: a role that the system does not know is at least no role, and no role is at
-- least it.
pub at_least-unknown :
    (s : String) (r : Role) → (at_least (unknown s) r ≡ false) × (at_least r (unknown s) ≡ false)
unfolding at_least valid rank
at_least-unknown s r = (ground arith, ground arith)

-- A role that is at least another is one that the system knows.
pub at_least-valid : (a b : Role) → at_least a b ≡ true → valid a ≡ true
unfolding at_least valid
at_least-valid a b h = ground arith
