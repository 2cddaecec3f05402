-- ===== src/Domain/Errors.antt =====
-- Sentinel errors and `ValidationError` (backend/internal/domain/errors.go). A wrapped error is
-- the sentinel that it wraps, since callers branch by `errors.Is`.
use text.Mathlib.Text.{◌==◌ as str_eq}
use vaultly.Prelude.{Bool, true, false, Option, none, some, List, [], ◌∷◌, String, if◌then◌else◌}

-- The map of a `ValidationError`: a field's name and its problem.
abbrev pub Fields : Type 0
Fields = List (String × String)

pub data Error : Type 0 where
  not_found conflict version_mismatch unauthenticated forbidden rate_limited : Error
  validation : Fields → Error
  -- `domain.ErrValidation` without fields
  invalid : Error
  invalid_credentials : Error
  decrypt_failed : Error
  -- an error that no sentinel describes
  internal : Error

-- `e.Fields[field] = message`
unfoldable pub add : String → String → Fields → Fields
add field message [] = (field, message) ∷ []
add field message ((f, m) ∷ rest) =
    if str_eq f field then (f, message) ∷ rest else (f, m) ∷ add field message rest

abbrev pub new_validation_error : String → String → Error
new_validation_error field message = validation ((field, message) ∷ [])

abbrev pub has_errors : Fields → Bool
has_errors [] = false
has_errors (_ ∷ _) = true

abbrev pub error_or_nil : Fields → Option Error
error_or_nil v = if has_errors v then some (validation v) else none
