-- ===== src/Rotate/Page.antt =====
-- The pages of a rotation (backend/cmd/rotate-key/main.go): which rows they hold, and how many stand
-- behind them.
use vaultly.Prelude.{
  ℕ, zero, suc, ◌≡◌, ◌<◌, ◌≤◌, subst, true, List, [], ◌∷◌, map, length, any, keep, take, All, ltb,
  ltb→lt, ◌==◌, ◌||◌, Bool-cases, inl, inr, arith,
}
use vaultly.Db.{Db, VersionRow}
use vaultly.World.{ok, Stamp}
use vaultly.Queries.Rotation.{RotationRow, place_id, by_id, list_secret_versions_for_rotation}
use vaultly.Rotate.Defs.{last_id}

abbrev pub ids : List VersionRow → List ℕ
ids = map (λ v. v.id)

-- How many identifiers stand behind a cursor.
abbrev pub behind : ℕ → List ℕ → ℕ
behind cursor is = length (keep (ltb cursor) is)

behind-le : (a b : ℕ) (is : List ℕ) → a ≤ b → behind b is ≤ behind a is
behind-le a b [] h = omega arith
behind-le a b (i ∷ is) h = ground (arith, behind-le a b is h)

-- Fewer identifiers stand behind one that stands behind the cursor.
pub behind-lt :
    (a b : ℕ) (is : List ℕ) → a < b → any (λ i. i == b) is ≡ true → behind b is < behind a is
behind-lt a b [] h m = cc
behind-lt a b (i ∷ is) h m = elim (Bool-cases (i == b)) [
  | inl same ↦ ground (arith, behind-le a b is (omega arith))
  | inr other ↦ ground (arith, behind-lt a b is h)
]

-- The rows of a page stand behind the cursor and in the table.
abbrev pub IsListed : ℕ → List ℕ → RotationRow → Type 0
IsListed cursor is r = (cursor < r.id) × (any (λ i. i == r.id) is ≡ true)

module _ (P : RotationRow → Type 0) where
  pub All-place_id :
      (r : RotationRow) (qs : List RotationRow) → P r → All P qs → All P (place_id r qs)
  All-place_id r [] p ps = (p, tt)
  All-place_id r (q ∷ qs) p ps = elim (Bool-cases (ltb q.id r.id)) [
    | inl below ↦ rw below (ps.0, All-place_id r qs p ps.1)
    | inr above ↦ rw above (p, ps)
  ]

  pub All-by_id : (rs : List RotationRow) → All P rs → All P (by_id rs)
  All-by_id [] ps = tt
  All-by_id (r ∷ rs) ps = All-place_id r (by_id rs) ps.0 (All-by_id rs ps.1)

  pub All-take : (n : ℕ) (rs : List RotationRow) → All P rs → All P (take n rs)
  All-take zero rs ps = tt
  All-take (suc n) [] ps = tt
  All-take (suc n) (r ∷ rs) ps = (ps.0, All-take n rs ps.1)

  All-weaken :
      (Q : RotationRow → Type 0)
      → ((r : RotationRow) → Q r → P r)
      → (rs : List RotationRow) → All Q rs
      → All P rs
  All-weaken Q f [] ps = tt
  All-weaken Q f (r ∷ rs) ps = (f r ps.0, All-weaken Q f rs ps.1)

abbrev pub row_of : VersionRow → RotationRow
row_of v = record { id = v.id; wrapped_dek = v.wrapped_dek }

self : (a : ℕ) (is : List ℕ) → (a == a || any (λ i. i == a) is) ≡ true
self a is = ground arith

one_more :
    (a b : ℕ) (is : List ℕ) → any (λ i. i == b) is ≡ true → (a == b || any (λ i. i == b) is) ≡ true
one_more a b is h = ground arith

listed :
    (cursor : ℕ) (vs : List VersionRow)
    → All (IsListed cursor (ids vs)) (map row_of (keep (λ v. ltb cursor v.id) vs))
listed cursor [] = tt
listed cursor (v ∷ vs) =
    let further =
      All-weaken (IsListed cursor (ids (v ∷ vs))) (IsListed cursor (ids vs))
        (λ r h. (h.0, one_more v.id r.id (ids vs) h.1)) _ (listed cursor vs) in
    elim (Bool-cases (ltb cursor v.id)) [
      | inl after ↦ rw after ((ltb→lt _ _ after, self v.id (ids vs)), further)
      | inr before ↦ rw before further
    ]

pub page-IsListed :
    (cursor n : ℕ) (st : Stamp) (d d' : Db) (rows : List RotationRow)
    → list_secret_versions_for_rotation cursor n st d ≡ ok (rows, d')
    → All (IsListed cursor (ids d.versions)) rows × (d ≡ d')
unfolding list_secret_versions_for_rotation
page-IsListed cursor n st d d' rows h =
    let P = IsListed cursor (ids d.versions) in
    let same : take n (by_id (map row_of (keep (λ v. ltb cursor v.id) d.versions))) ≡ rows = cc in
    (subst (All P) same (All-take P n _ (All-by_id P _ (listed cursor d.versions))), cc)

pub last_id-IsListed :
    (cursor : ℕ) (is : List ℕ) (r : RotationRow) (rs : List RotationRow)
    → All (IsListed cursor is) (r ∷ rs)
    → (cursor < last_id r rs) × (any (λ i. i == last_id r rs) is ≡ true)
last_id-IsListed cursor is r [] h = h.0
last_id-IsListed cursor is r (q ∷ qs) h = last_id-IsListed cursor is q qs h.1
