-- ===== src/Audit/Order.antt =====
-- The order of the feed (backend/internal/db/sqlcgen/audit.sql.go): sorting, filtering, and the rows
-- behind a row.
use vaultly.Prelude.{
  ℕ, ◌≡◌, ◌≢◌, refl, sym, ap, ◌∙◌, Bool, true, false, Option, none, some, List, [], ◌∷◌, ◌++◌, keep,
  All, Bool-cases, inl, inr, if◌then◌else◌, arith,
}
use vaultly.Db.{AuditRow}
use vaultly.Audit.Defs.{precedes, is_before, place, newest_first}

-- `r` stands behind `q` in the feed.
abbrev pub Behind : AuditRow → AuditRow → Type 0
Behind r q = precedes r q.created_at (some q.id) ≡ true

-- Identifiers are a primary key.
abbrev pub Unique : List AuditRow → Type 0
Unique [] = Unit {0}
Unique (r ∷ rs) = All (λ q. q.id ≢ r.id) rs × Unique rs

abbrev pub Descends : List AuditRow → Type 0
Descends [] = Unit {0}
Descends (r ∷ rs) = All (λ q. Behind q r) rs × Descends rs

All-place :
    (P : AuditRow → Type 0) (r : AuditRow) (qs : List AuditRow)
    → P r
    → All P qs
    → All P (place r qs)
All-place P r [] p ps = (p, tt)
All-place P r (q ∷ qs) p ps = elim (Bool-cases (precedes r q.created_at (some q.id))) [
  | inl below ↦ rw below (ps.0, All-place P r qs p ps.1)
  | inr above ↦ rw above (p, ps)
]

pub All-keep :
    (P : AuditRow → Type 0) (t : AuditRow → Bool) (qs : List AuditRow)
    → All P qs
    → All P (keep t qs)
All-keep P t [] ps = tt
All-keep P t (q ∷ qs) ps = elim (Bool-cases (t q)) [
  | inl yes_ ↦ rw yes_ (ps.0, All-keep P t qs ps.1)
  | inr no_ ↦ rw no_ (All-keep P t qs ps.1)
]

All-weaken :
    (P Q : AuditRow → Type 0)
    → ((r : AuditRow) → P r → Q r)
    → (qs : List AuditRow) → All P qs
    → All Q qs
All-weaken P Q f [] ps = tt
All-weaken P Q f (q ∷ qs) ps = (f q ps.0, All-weaken P Q f qs ps.1)

pub All-newest_first :
    (P : AuditRow → Type 0) (qs : List AuditRow) → All P qs → All P (newest_first qs)
All-newest_first P [] ps = tt
All-newest_first P (q ∷ qs) ps = All-place P q (newest_first qs) ps.0 (All-newest_first P qs ps.1)

pub Unique-keep : (t : AuditRow → Bool) (qs : List AuditRow) → Unique qs → Unique (keep t qs)
Unique-keep t [] u = tt
Unique-keep t (q ∷ qs) u = elim (Bool-cases (t q)) [
  | inl yes_ ↦ rw yes_ (All-keep (λ p. p.id ≢ q.id) t qs u.0, Unique-keep t qs u.1)
  | inr no_ ↦ rw no_ (Unique-keep t qs u.1)
]

Behind-trans : (a b c : AuditRow) → Behind a b → Behind b c → Behind a c
Behind-trans a b c h k = ground arith

Behind-total :
    (r q : AuditRow) → precedes r q.created_at (some q.id) ≡ false → q.id ≢ r.id → Behind q r
Behind-total r q h ne = ground (arith, ne)

Behind-All :
    (r q : AuditRow) (qs : List AuditRow)
    → q.id ≢ r.id
    → All (λ p. Behind p q) qs
    → precedes r q.created_at (some q.id) ≡ false
    → All (λ p. Behind p r) (q ∷ qs)
Behind-All r q qs ne d above =
    let top = Behind-total r q above ne in
    (top, All-weaken (λ p. Behind p q) (λ p. Behind p r) (λ p h. Behind-trans p q r h top) qs d)

place-Descends :
    (r : AuditRow) (qs : List AuditRow)
    → All (λ q. q.id ≢ r.id) qs
    → Descends qs
    → Descends (place r qs)
place-Descends r [] ne d = (tt, tt)
place-Descends r (q ∷ qs) ne d = elim (Bool-cases (precedes r q.created_at (some q.id))) [
  | inl below ↦ rw below (All-place (λ p. Behind p q) r qs below d.0, place-Descends r qs ne.1 d.1)
  | inr above ↦ rw above (Behind-All r q qs ne.0 d.0 above, d)
]

pub newest_first-Descends : (qs : List AuditRow) → Unique qs → Descends (newest_first qs)
newest_first-Descends [] u = tt
newest_first-Descends (q ∷ qs) u =
    place-Descends q (newest_first qs) (All-newest_first (λ p. p.id ≢ q.id) qs u.0)
      (newest_first-Descends qs u.1)

asymmetric : (q r : AuditRow) → Behind q r → precedes r q.created_at (some q.id) ≡ false
asymmetric q r h = ground arith

place_top : (r : AuditRow) (qs : List AuditRow) → All (λ q. Behind q r) qs → place r qs ≡ r ∷ qs
place_top r [] h = refl
place_top r (q ∷ qs) h = rw (asymmetric q r h.0)

module _ (t : AuditRow → Bool) where
  keep_top :
      (r : AuditRow) (qs : List AuditRow)
      → All (λ q. Behind q r) qs
      → keep t (place r qs) ≡ (if t r then place r (keep t qs) else keep t qs)
  keep_top r qs h = elim (Bool-cases (t r)) [
    | inl kept ↦
        rw (kept, place_top r qs h, kept)
          (sym (place_top r (keep t qs) (All-keep (λ q. Behind q r) t qs h)))
    | inr gone ↦ rw (gone, place_top r qs h, gone)
  ]

  keep-place :
      (r : AuditRow) (qs : List AuditRow)
      → All (λ q. q.id ≢ r.id) qs
      → Descends qs
      → keep t (place r qs) ≡ (if t r then place r (keep t qs) else keep t qs)
  keep-place r [] ne d = keep_top r [] tt
  keep-place r (q ∷ qs) ne d = elim (Bool-cases (precedes r q.created_at (some q.id))) [
    | inl below ↦ elim (Bool-cases (t r)) [
      | inl kept ↦ elim (Bool-cases (t q)) [
        | inl y ↦
            rw (below, y, kept, below) (ap (λ l. q ∷ l) (rw kept at (keep-place r qs ne.1 d.1)))
        | inr n ↦ rw (below, n, kept) (rw kept at (keep-place r qs ne.1 d.1))
      ]
      | inr gone ↦ elim (Bool-cases (t q)) [
        | inl y ↦ rw (below, y, gone) (ap (λ l. q ∷ l) (rw gone at (keep-place r qs ne.1 d.1)))
        | inr n ↦ rw (below, n, gone) (rw gone at (keep-place r qs ne.1 d.1))
      ]
    ]
    | inr above ↦ keep_top r (q ∷ qs) (Behind-All r q qs ne.0 d.0 above)
  ]

  -- Filtering and sorting commute.
  pub keep-newest_first :
      (qs : List AuditRow) → Unique qs → keep t (newest_first qs) ≡ newest_first (keep t qs)
  keep-newest_first [] u = refl
  keep-newest_first (q ∷ qs) u =
      keep-place q (newest_first qs) (All-newest_first (λ p. p.id ≢ q.id) qs u.0)
        (newest_first-Descends qs u.1)
      ∙ elim (Bool-cases (t q)) [
        | inl kept ↦ rw kept (ap (place q) (keep-newest_first qs u.1))
        | inr gone ↦ rw gone (keep-newest_first qs u.1)
      ]

  keep-All : (qs : List AuditRow) → All (λ q. t q ≡ true) qs → keep t qs ≡ qs
  keep-All [] h = refl
  keep-All (q ∷ qs) h = rw h.0 (ap (λ l. q ∷ l) (keep-All qs h.1))

  pub keep_none : (qs : List AuditRow) → All (λ q. t q ≡ false) qs → keep t qs ≡ []
  keep_none [] h = refl
  keep_none (q ∷ qs) h = rw h.0 (keep_none qs h.1)

  pub keep-append : (ps qs : List AuditRow) → keep t (ps ++ qs) ≡ keep t ps ++ keep t qs
  keep-append [] qs = refl
  keep-append (p ∷ ps) qs = elim (Bool-cases (t p)) [
    | inl kept ↦ rw kept (ap (λ l. p ∷ l) (keep-append ps qs))
    | inr gone ↦ rw gone (keep-append ps qs)
  ]

pub All-append :
    (P : AuditRow → Type 0) (ps : List AuditRow) (q : AuditRow) (qs : List AuditRow)
    → All P (ps ++ q ∷ qs)
    → P q
All-append P [] q qs h = h.0
All-append P (p ∷ ps) q qs h = All-append P ps q qs h.1

abbrev pub is_behind : AuditRow → AuditRow → Bool
is_behind x = is_before (some x.created_at) (some x.id)

irreflexive : (x : AuditRow) → is_behind x x ≡ false
irreflexive x = ground arith

-- In a sorted feed, the rows behind a row are the ones that follow it.
pub keep_behind :
    (front : List AuditRow) (x : AuditRow) (rest : List AuditRow)
    → Descends (front ++ x ∷ rest)
    → keep (is_behind x) (front ++ x ∷ rest) ≡ rest
keep_behind [] x rest d = rw (irreflexive x) (keep-All (is_behind x) rest d.0)
keep_behind (f ∷ front) x rest d =
    rw (asymmetric x f (All-append (λ q. Behind q f) front x rest d.0))
      (keep_behind front x rest d.1)

further :
    (b : Option ℕ) (i : Option ℕ) (x q : AuditRow)
    → is_before b i x ≡ true
    → is_behind x q ≡ true
    → is_before b i q ≡ true
further none i x q h k = refl
further (some t) none x q h k = ground arith
further (some t) (some i) x q h k = ground arith

pub keep-keep :
    (b : Option ℕ) (i : Option ℕ) (x : AuditRow) (qs : List AuditRow)
    → is_before b i x ≡ true
    → keep (is_behind x) (keep (is_before b i) qs) ≡ keep (is_behind x) qs
keep-keep b i x [] h = refl
keep-keep b i x (q ∷ qs) h = elim (Bool-cases (is_behind x q)) [
  | inl y ↦ rw (further b i x q h y, y) (ap (λ l. q ∷ l) (keep-keep b i x qs h))
  | inr n ↦ elim (Bool-cases (is_before b i q)) [
    | inl y ↦ rw (y, n) (keep-keep b i x qs h)
    | inr m ↦ rw (m, n) (keep-keep b i x qs h)
  ]
]
