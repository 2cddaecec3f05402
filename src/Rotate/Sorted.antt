-- ===== src/Rotate/Sorted.antt =====
-- The order of the pages of a rotation (backend/cmd/rotate-key/main.go): where identifiers are
-- unique, a page holds every row between the cursor and its last row.
use vaultly.Prelude.{
  ℕ, zero, suc, ◌≡◌, ◌≢◌, ◌<◌, ◌≤◌, ◌⊎◌, inl, inr, refl, sym, subst, Bool, true, false, List, [],
  ◌∷◌, map, keep, take, All, ltb, ltb→lt, Bool-cases, arith,
}
use vaultly.Db.{VersionRow}
use vaultly.Queries.Rotation.{RotationRow, place_id, by_id}
use vaultly.Rotate.Defs.{last_id}
use vaultly.Rotate.Page.{ids, All-place_id, All-by_id, row_of}

abbrev pub In : RotationRow → List RotationRow → Type 0
In r [] = ⊥
In r (q ∷ qs) = (r ≡ q) ⊎ In r qs

-- Identifiers are a primary key.
abbrev pub Distinct : List ℕ → Type 0
Distinct [] = Unit {0}
Distinct (i ∷ is) = All (λ j. j ≢ i) is × Distinct is

abbrev UniqueRows : List RotationRow → Type 0
UniqueRows [] = Unit {0}
UniqueRows (r ∷ rs) = All (λ q. q.id ≢ r.id) rs × UniqueRows rs

abbrev pub Ascends : List RotationRow → Type 0
Ascends [] = Unit {0}
Ascends (r ∷ rs) = All (λ q. r.id < q.id) rs × Ascends rs

All-kept :
    (P : ℕ → Type 0) (t : ℕ → Bool) (vs : List VersionRow)
    → All P (ids vs)
    → All (λ r. P r.id) (map row_of (keep (λ v. t v.id) vs))
All-kept P t [] h = tt
All-kept P t (v ∷ vs) h = elim (Bool-cases (t v.id)) [
  | inl y ↦ rw y (h.0, All-kept P t vs h.1)
  | inr n ↦ rw n (All-kept P t vs h.1)
]

UniqueRows-kept :
    (t : ℕ → Bool) (vs : List VersionRow)
    → Distinct (ids vs)
    → UniqueRows (map row_of (keep (λ v. t v.id) vs))
UniqueRows-kept t [] u = tt
UniqueRows-kept t (v ∷ vs) u = elim (Bool-cases (t v.id)) [
  | inl y ↦ rw y (All-kept (λ i. i ≢ v.id) t vs u.0, UniqueRows-kept t vs u.1)
  | inr n ↦ rw n (UniqueRows-kept t vs u.1)
]

All-later :
    (a b : ℕ) (rs : List RotationRow) → a < b → All (λ q. b < q.id) rs → All (λ q. a < q.id) rs
All-later a b [] h k = tt
All-later a b (r ∷ rs) h k = (omega (arith, k.0), All-later a b rs h k.1)

apart : (a b : ℕ) → ltb b a ≡ false → b ≢ a → a < b
apart a b h ne = ground (arith, ne)

Ascends-place_id :
    (r : RotationRow) (qs : List RotationRow)
    → All (λ q. q.id ≢ r.id) qs
    → Ascends qs
    → Ascends (place_id r qs)
Ascends-place_id r [] ne a = (tt, tt)
Ascends-place_id r (q ∷ qs) ne a = elim (Bool-cases (ltb q.id r.id)) [
  | inl below ↦
      rw below (
        All-place_id (λ p. q.id < p.id) r qs (ltb→lt _ _ below) a.0,
        Ascends-place_id r qs ne.1 a.1,
      )
  | inr above ↦
      let less = apart r.id q.id above ne.0 in rw above ((less, All-later r.id q.id qs less a.0), a)
]

Ascends-by_id : (rs : List RotationRow) → UniqueRows rs → Ascends (by_id rs)
Ascends-by_id [] u = tt
Ascends-by_id (r ∷ rs) u =
    Ascends-place_id r (by_id rs) (All-by_id (λ q. q.id ≢ r.id) rs u.0) (Ascends-by_id rs u.1)

In-place_id_self : (r : RotationRow) (qs : List RotationRow) → In r (place_id r qs)
In-place_id_self r [] = inl refl
In-place_id_self r (q ∷ qs) = elim (Bool-cases (ltb q.id r.id)) [
  | inl below ↦ rw below (inr (In-place_id_self r qs))
  | inr above ↦ rw above (inl refl)
]

In-place_id : (x r : RotationRow) (qs : List RotationRow) → In x qs → In x (place_id r qs)
In-place_id x r [] h = absurd h
In-place_id x r (q ∷ qs) h = elim (Bool-cases (ltb q.id r.id)) [
  | inl below ↦ rw below (further h (λ m. In-place_id x r qs m))
  | inr above ↦ rw above (inr h)
]
  where
    further : (x ≡ q) ⊎ In x qs → (In x qs → In x (place_id r qs)) → (x ≡ q) ⊎ In x (place_id r qs)
    further (inl e) f = inl e
    further (inr m) f = inr (f m)

In-by_id : (x : RotationRow) (rs : List RotationRow) → In x rs → In x (by_id rs)
In-by_id x [] h = h
In-by_id x (r ∷ rs) (inl e) =
    subst (λ y. In y (place_id r (by_id rs))) (sym e) (In-place_id_self r (by_id rs))
In-by_id x (r ∷ rs) (inr h) = In-place_id x r (by_id rs) (In-by_id x rs h)

All-take_rows :
    (P : RotationRow → Type 0) (n : ℕ) (rs : List RotationRow) → All P rs → All P (take n rs)
All-take_rows P zero rs h = tt
All-take_rows P (suc n) [] h = tt
All-take_rows P (suc n) (r ∷ rs) h = (h.0, All-take_rows P n rs h.1)

Ascends-take : (n : ℕ) (rs : List RotationRow) → Ascends rs → Ascends (take n rs)
Ascends-take zero rs a = tt
Ascends-take (suc n) [] a = tt
Ascends-take (suc n) (r ∷ rs) a = (All-take_rows (λ q. r.id < q.id) n rs a.0, Ascends-take n rs a.1)

-- The identifier of the last row, or one that is given if there is none.
abbrev pub last_or : ℕ → List RotationRow → ℕ
last_or i [] = i
last_or i (r ∷ rs) = last_or r.id rs

pub last_or-last_id :
    (i : ℕ) (r : RotationRow) (rs : List RotationRow) → last_or i (r ∷ rs) ≡ last_id r rs
last_or-last_id i r [] = refl
last_or-last_id i r (q ∷ qs) = last_or-last_id r.id q qs

pub In-behind :
    (x : RotationRow) (i : ℕ) (rs : List RotationRow) → All (λ q. i < q.id) rs → In x rs → i < x.id
In-behind x i [] h m = absurd m
In-behind x i (r ∷ rs) h (inl e) = subst (λ (y : RotationRow). i < y.id) (sym e) h.0
In-behind x i (r ∷ rs) h (inr m) = In-behind x i rs h.1 m

-- A row up to the last of the page is in the page.
In-take :
    (x : RotationRow) (i n : ℕ) (rs : List RotationRow)
    → Ascends rs
    → All (λ q. i < q.id) rs
    → In x rs
    → x.id ≤ last_or i (take n rs)
    → In x (take n rs)
In-take x i zero rs a h m le = absurd (omega (arith, In-behind x i rs h m))
In-take x i (suc n) [] a h m le = m
In-take x i (suc n) (r ∷ rs) a h (inl e) le = inl e
In-take x i (suc n) (r ∷ rs) a h (inr m) le = inr (In-take x r.id n rs a.1 a.0 m le)

pub In-kept :
    (c : ℕ) (v : VersionRow) (vs : List VersionRow)
    → c < v.id
    → In (row_of v) (map row_of (keep (λ v. ltb c v.id) (v ∷ vs)))
In-kept c v vs h = rw (after c v.id h) (inl refl)
  where
    after : (c i : ℕ) → c < i → ltb c i ≡ true
    after c i h = ground arith

-- Weakens to a longer table.
pub In-kept_more :
    (c : ℕ) (x : RotationRow) (v : VersionRow) (vs : List VersionRow)
    → In x (map row_of (keep (λ v. ltb c v.id) vs))
    → In x (map row_of (keep (λ v. ltb c v.id) (v ∷ vs)))
In-kept_more c x v vs m = elim (Bool-cases (ltb c v.id)) [ inl y ↦ rw y (inr m) | inr n ↦ rw n m ]

kept_after :
    (c : ℕ) (vs : List VersionRow) → All (λ q. c < q.id) (map row_of (keep (λ v. ltb c v.id) vs))
kept_after c [] = tt
kept_after c (v ∷ vs) = elim (Bool-cases (ltb c v.id)) [
  | inl y ↦ rw y (ltb→lt _ _ y, kept_after c vs)
  | inr n ↦ rw n (kept_after c vs)
]

-- A page behind a cursor.
abbrev pub page : ℕ → ℕ → List VersionRow → List RotationRow
page c n vs = take n (by_id (map row_of (keep (λ v. ltb c v.id) vs)))

pub Ascends-page : (c n : ℕ) (vs : List VersionRow) → Distinct (ids vs) → Ascends (page c n vs)
Ascends-page c n vs u = Ascends-take n _ (Ascends-by_id _ (UniqueRows-kept (ltb c) vs u))

-- The version of a member of the table is in the page, if it stands between the cursor and the last.
pub In-page :
    (c n : ℕ) (vs : List VersionRow) (x : RotationRow)
    → Distinct (ids vs)
    → In x (map row_of (keep (λ v. ltb c v.id) vs))
    → x.id ≤ last_or c (page c n vs)
    → In x (page c n vs)
In-page c n vs x u m le =
    In-take x c n _ (Ascends-by_id _ (UniqueRows-kept (ltb c) vs u))
      (All-by_id (λ q. c < q.id) _ (kept_after c vs)) (In-by_id x _ m) le

pub page-after : (c n : ℕ) (vs : List VersionRow) → All (λ q. c < q.id) (page c n vs)
page-after c n vs =
    All-take_rows (λ q. c < q.id) n _ (All-by_id (λ q. c < q.id) _ (kept_after c vs))

pub last_or-le :
    (i : ℕ) (rs : List RotationRow) → Ascends rs → All (λ q. i < q.id) rs → i ≤ last_or i rs
last_or-le i [] a h = omega arith
last_or-le i (r ∷ rs) a h = omega (arith, h.0, last_or-le r.id rs a.1 a.0)

-- No row of the page stands behind its last.
pub page_until :
    (i : ℕ) (rs : List RotationRow)
    → Ascends rs
    → All (λ q. i < q.id) rs
    → All (λ q. q.id ≤ last_or i rs) rs
page_until i [] a h = tt
page_until i (r ∷ rs) a h = (last_or-le r.id rs a.1 a.0, page_until r.id rs a.1 a.0)

take_empty : (n : ℕ) (rs : List RotationRow) → 0 < n → take n rs ≡ [] → rs ≡ []
take_empty zero rs h e = absurd (omega arith)
take_empty (suc n) [] h e = refl
take_empty (suc n) (r ∷ rs) h e = cc

-- An empty page has nothing behind its cursor.
pub page_empty :
    (c n : ℕ) (vs : List VersionRow) (x : RotationRow)
    → 0 < n
    → page c n vs ≡ []
    → In x (map row_of (keep (λ v. ltb c v.id) vs))
    → ⊥
page_empty c n vs x h e m = subst (In x) (take_empty n _ h e) (In-by_id x _ m)
