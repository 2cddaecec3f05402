-- ===== src/Rotate/Progress.antt =====
-- The progress of a rotation (backend/cmd/rotate-key/main.go): what is done up to the cursor.
use vaultly.Prelude.{
  ℕ, ◌≡◌, ◌≢◌, ◌<◌, ◌≤◌, ◌⊎◌, inl, inr, refl, sym, ap, ◌∙◌, subst, false, List, [], ◌∷◌, map, keep,
  All, ltb, leb, leb→le, Bool-cases, arith,
}
use vaultly.Db.{VersionRow}
use vaultly.Crypto.{Keyring}
use vaultly.Queries.Rotation.{RotationRow}
use vaultly.Rotate.Defs.{Rewrapped}
use vaultly.Rotate.Page.{ids, row_of}
use vaultly.Rotate.Sorted.{
  In, Distinct, page, last_or, last_or-le, Ascends-page, In-page, page-after, page_until, In-kept,
  In-kept_more,
}
use vaultly.Rotate.Handles.{IsRekeyed, Handled, applied, Handled_other, applied-IsRekeyed}

module _ (current next : Keyring) where
  -- Every version of a table after a rotation, place by place.
  abbrev pub AllRekeyed : List VersionRow → List VersionRow → Type 0
  AllRekeyed [] [] = Unit {0}
  AllRekeyed (v ∷ vs) (v' ∷ vs') = IsRekeyed current next v v' × AllRekeyed vs vs'
  AllRekeyed _ _ = ⊥

  -- The same up to a cursor, and nothing changed behind it.
  abbrev pub At : ℕ → VersionRow → VersionRow → Type 0
  At c v v' = ((v.id ≤ c) × IsRekeyed current next v v') ⊎ ((c < v.id) × (v' ≡ v))

  abbrev pub IsProgress : ℕ → List VersionRow → List VersionRow → Type 0
  IsProgress c [] [] = Unit {0}
  IsProgress c (v ∷ vs) (v' ∷ vs') = At c v v' × IsProgress c vs vs'
  IsProgress c _ _ = ⊥

  pub begun : (vs : List VersionRow) → All (λ i. 0 < i) (ids vs) → IsProgress 0 vs vs
  begun [] h = tt
  begun (v ∷ vs) h = (inr (h.0, refl), begun vs h.1)

  rekeyed-id : {v v' : VersionRow} → IsRekeyed current next v v' → v'.id ≡ v.id
  rekeyed-id h = ap (λ (v : VersionRow). v.id) h.rest

  differs :
      (i : ℕ) (rs : List RotationRow) (a : ℕ)
      → i ≤ a
      → All (λ q. a < q.id) rs
      → All (λ q. i ≢ q.id) rs
  differs i [] a h k = tt
  differs i (r ∷ rs) a h k = (λ e. absurd (omega (arith, h, k.0, e)), differs i rs a h k.1)

  differs_after :
      (i : ℕ) (rs : List RotationRow) (b : ℕ)
      → b < i
      → All (λ q. q.id ≤ b) rs
      → All (λ q. i ≢ q.id) rs
  differs_after i [] b h k = tt
  differs_after i (r ∷ rs) b h k =
      (λ e. absurd (omega (arith, h, k.0, e)), differs_after i rs b h k.1)

  not_le : (a b : ℕ) → leb a b ≡ false → b < a
  not_le a b h = ground arith

  module _ (c n : ℕ) (vs : List VersionRow) (u : Distinct (ids vs)) (us : List Rewrapped)
      (h : Handled current next (page c n vs) us) where
    abbrev pub c' : ℕ
    c' = last_or c (page c n vs)

    cursor_le : c ≤ c'
    cursor_le = last_or-le c (page c n vs) (Ascends-page c n vs u) (page-after c n vs)

    -- One version of the table.
    one-At :
        (v v' : VersionRow)
        → (c < v'.id → In (row_of v') (map row_of (keep (λ v. ltb c v.id) vs)))
        → At c v v'
        → At c' v (applied us v')
    one-At v v' mem (inl (le, rekeyed)) = inl (
      omega (arith, le, cursor_le),
      subst (IsRekeyed current next v)
          (sym (
            Handled_other v' h (
              differs v'.id (page c n vs) c (omega (arith, le, rekeyed-id rekeyed))
                (page-after c n vs))))
          rekeyed,
    )
    one-At v v' mem (inr (lt, same)) =
        let same_id : v'.id ≡ v.id = ap (λ (v : VersionRow). v.id) same in
        elim (Bool-cases (leb v.id c')) [
          | inl within ↦
              let le = leb→le v.id c' within in
              inl (
                le,
                subst (λ x. IsRekeyed current next x (applied us v')) same
                    (applied-IsRekeyed (page c n vs) us v' h (Ascends-page c n vs u) (
                      In-page c n vs (row_of v') u (mem (omega (arith, lt, same_id)))
                        (omega (arith, le, same_id)))),
              )
          | inr beyond ↦
              let gt = not_le v.id c' beyond in
              inr (
                gt,
                Handled_other v' h (
                      differs_after v'.id (page c n vs) c' (omega (arith, gt, same_id))
                        (page_until c (page c n vs) (Ascends-page c n vs u) (page-after c n vs)))
                    ∙ same,
              )
        ]

    pub batch-Progress :
        (ws0 ws : List VersionRow)
        → ((x : RotationRow)
            → In x (map row_of (keep (λ v. ltb c v.id) ws))
            → In x (map row_of (keep (λ v. ltb c v.id) vs)))
        → IsProgress c ws0 ws
        → IsProgress c' ws0 (map (applied us) ws)
    batch-Progress [] [] sub p = tt
    batch-Progress (v ∷ ws0) (v' ∷ ws) sub p = (
      one-At v v' (λ lt. sub (row_of v') (In-kept c v' ws lt)) p.0,
      batch-Progress ws0 ws (λ x m. sub x (In-kept_more c x v' ws m)) p.1,
    )
    batch-Progress [] (v' ∷ ws) sub p = absurd p
    batch-Progress (v ∷ ws0) [] sub p = absurd p

  -- With nothing behind the cursor, all is done.
  pub finished :
      (c : ℕ) (ws0 ws : List VersionRow)
      → ((x : RotationRow) → In x (map row_of (keep (λ v. ltb c v.id) ws)) → ⊥)
      → IsProgress c ws0 ws
      → AllRekeyed ws0 ws
  finished c [] [] out p = tt
  finished c (v ∷ ws0) (v' ∷ ws) out p = (
    at_end p.0 (λ lt. out (row_of v') (In-kept c v' ws lt)),
    finished c ws0 ws (λ x m. out x (In-kept_more c x v' ws m)) p.1,
  )
    where
      at_end : At c v v' → (c < v'.id → ⊥) → IsRekeyed current next v v'
      at_end (inl (le, h)) out = h
      at_end (inr (lt, same)) out =
          absurd (out (omega (arith, lt, ap (λ (v : VersionRow). v.id) same)))
  finished c [] (v' ∷ ws) out p = absurd p
  finished c (v ∷ ws0) [] out p = absurd p
