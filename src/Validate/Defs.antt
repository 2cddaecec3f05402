-- ===== src/Validate/Defs.antt =====
-- Trimming, `Slugify` and the field validators (backend/internal/service/helpers.go). Unicode's
-- tables are parameters: lower case and the graphic characters.
use mathlib.Core.List.{reverse}
use vaultly.Prelude.{
  ℕ, ◌+◌, Bool, true, false, not, ◌&&◌, ◌||◌, [], ◌∷◌, map, String, Text, length, take, any, ltb,
  leb, ◌==◌, if◌then◌else◌,
}
use vaultly.Domain.{Fields, add}
use vaultly.Db.{Bytes}

pub record Unicode : Type 0 where
  pub lower : ℕ → ℕ
  pub is_graphic : ℕ → Bool

abbrev pub between : ℕ → ℕ → ℕ → Bool
between lo hi c = leb lo c && leb c hi

-- `unicode.IsSpace`
unfoldable pub is_space : ℕ → Bool
is_space c =
    between 0x09 0x0d c
    || c == 0x20
    || c == 0x85
    || c == 0xa0
    || c == 0x1680
    || between 0x2000 0x200a c
    || between 0x2028 0x2029 c
    || c == 0x202f
    || c == 0x205f
    || c == 0x3000

abbrev width : ℕ → ℕ
width c = if ltb c 0x80 then 1 else if ltb c 0x800 then 2 else if ltb c 0x10000 then 3 else 4

-- `len` of a string.
abbrev pub len : Text → ℕ
len [] = 0
len (c ∷ s) = width c + len s

-- `strings.TrimLeft` by a test on the characters.
abbrev pub trim_left : (ℕ → Bool) → Text → Text
trim_left p [] = []
trim_left p (c ∷ s) = if p c then trim_left p s else c ∷ s

unfoldable pub trim : (ℕ → Bool) → Text → Text
trim p s = reverse (trim_left p (reverse (trim_left p s)))

abbrev pub is_lower_letter : ℕ → Bool
is_lower_letter c = between b'a' b'z' c

abbrev pub is_digit : ℕ → Bool
is_digit c = between b'0' b'9' c

abbrev pub is_upper_letter : ℕ → Bool
is_upper_letter c = between b'A' b'Z' c

abbrev pub is_slug_char : ℕ → Bool
is_slug_char c = is_lower_letter c || is_digit c

-- `nonSlugChars.ReplaceAllString(s, "-")`: a run of other characters becomes one hyphen. The flag
-- says that the run's hyphen has been written.
unfoldable pub hyphenate : Bool → Text → Text
hyphenate inside [] = []
hyphenate inside (c ∷ s) =
    let rest = hyphenate (not (is_slug_char c)) s in
    if is_slug_char c then c ∷ rest else if inside then rest else b'-' ∷ rest

abbrev pub is_hyphen : ℕ → Bool
is_hyphen c = c == b'-'

unfoldable pub slugify : Unicode → Text → Text
unfolding hyphenate trim
slugify u name =
    let slug = trim is_hyphen (hyphenate false (map u.lower (trim is_space name))) in
    if ltb 60 (len slug) then trim is_hyphen (take 60 slug) else slug

-- `slugPattern`: runs of letters and digits, joined by single hyphens. The flag says that the
-- character before was one of a run.
unfoldable pub matches_slug_from : Bool → Text → Bool
matches_slug_from inside [] = inside
matches_slug_from inside (c ∷ s) =
    let rest = matches_slug_from (is_slug_char c) s in
    if is_slug_char c then rest else c == b'-' && inside && rest

unfoldable pub matches_slug : Text → Bool
unfolding matches_slug_from
matches_slug s = matches_slug_from false s

abbrev pub is_key_char : ℕ → Bool
is_key_char c = is_upper_letter c || is_digit c || c == b'_'

abbrev all : (ℕ → Bool) → Text → Bool
all p [] = true
all p (c ∷ s) = p c && all p s

-- `secretKeyPattern`
unfoldable pub matches_secret_key : Text → Bool
matches_secret_key [] = false
matches_secret_key (c ∷ s) = is_upper_letter c && all is_key_char s

abbrev is_empty : Text → Bool
is_empty [] = true
is_empty (_ ∷ _) = false

unfoldable pub has_printable_content : Unicode → Text → Bool
has_printable_content u s = any (λ c. u.is_graphic c && not (is_space c)) s

-- Each validator takes the problems found so far and returns them with its value.
unfoldable pub validate_name : Unicode → String → Text → Fields → Text × Fields
unfolding trim
validate_name u field name v =
    let name = trim is_space name in
    (
      name,
      if is_empty name
          then add field "is required" v
          else if ltb 100 (len name)
          then add field "is too long" v
          else if not (has_printable_content u name)
          then add field "must contain visible characters" v
          else v,
    )

unfoldable pub validate_description : String → Text → Fields → Text × Fields
unfolding trim
validate_description field description v =
    let description = trim is_space description in
    (description, if ltb 500 (len description) then add field "is too long" v else v)

unfoldable pub validate_secret_key : Text → Fields → Text × Fields
unfolding trim matches_secret_key
validate_secret_key key v =
    let key = trim is_space key in
    (
      key,
      if is_empty key
          then add "key" "is required" v
          else if ltb 128 (len key)
          then add "key" "is too long" v
          else if not (matches_secret_key key)
          then add "key"
              "must start with an uppercase letter and contain only A-Z, 0-9 and underscores" v
          else v,
    )

-- A value is arbitrary bytes.
unfoldable pub validate_secret_value : Bytes → Fields → Fields
validate_secret_value value v = if ltb 65536 (length value) then add "value" "is too long" v else v

abbrev is_email_char : ℕ → Bool
is_email_char c = not (c == b'@' || c == 0x20 || c == 0x09 || c == 0x0a || c == 0x0c || c == 0x0d)

-- `\.[^@\s]+$` somewhere in a text.
abbrev dot_inside : Text → Bool
dot_inside [] = false
dot_inside (c ∷ s) = (c == b'.' && not (is_empty s)) || dot_inside s

abbrev is_domain : Text → Bool
is_domain [] = false
is_domain (c ∷ s) = all is_email_char (c ∷ s) && dot_inside s

abbrev after_local : Bool → Text → Bool
after_local started [] = false
after_local started (c ∷ s) =
    let rest = after_local true s in
    if c == b'@' then started && is_domain s else is_email_char c && rest

-- `emailPattern`
unfoldable pub matches_email : Text → Bool
matches_email s = after_local false s

unfoldable pub validate_email : Unicode → Text → Fields → Text × Fields
unfolding trim matches_email
validate_email u email v =
    let email = map u.lower (trim is_space email) in
    (
      email,
      if is_empty email
          then add "email" "is required" v
          else if ltb 254 (len email)
          then add "email" "is too long" v
          else if not (matches_email email)
          then add "email" "is not a valid email address" v
          else v,
    )

unfoldable pub validate_password : Text → Fields → Fields
validate_password password v =
    if is_empty password
    then add "password" "is required" v
    else if ltb (len password) 12
    then add "password" "must be at least 12 characters" v
    else if ltb 1024 (len password)
    then add "password" "is too long" v
    else v
