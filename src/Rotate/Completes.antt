-- ===== src/Rotate/Completes.antt =====
-- A rotation that completes (backend/cmd/rotate-key/main.go): every version opens under the next key.
use vaultly.Prelude.{
  ℕ, zero, suc, ◌≡◌, ◌<◌, refl, sym, ap, ◌∙◌, subst, true, false, Option, none, some, List, [], ◌∷◌,
  map, length, All, Text, ltb, ◌==◌, ◌||◌, if◌then◌else◌, Bool-cases, inl, inr, arith,
}
use vaultly.Domain.{Error}
use vaultly.Db.{Db, VersionRow}
use vaultly.World.{World, ok, Stamp, stamp, advance, pure, in_tx}
use vaultly.World.Respects.{Respects-check, sameness}
use vaultly.World.Returns.{bind-eq-ok, query-eq-ok, in_tx-eq-ok, on_error-eq-ok}
use vaultly.World.Yields.{Yields, Yields-quiet, Yields-pure, check_refused}
use vaultly.Crypto.{Keyring, IsAead}
use vaultly.Queries.Rotation.{RotationRow, list_secret_versions_for_rotation, count_secret_versions}
use vaultly.Rotate.Defs.{
  Rewrapped, Counts, last_id, rewrap_rows, write_updates, rotate_batch, go_on, rotate_from, rotate,
}
use vaultly.Rotate.Page.{ids}
use vaultly.Rotate.Sorted.{Distinct, page, last_or, last_or-last_id, page_empty}
use vaultly.Rotate.Handles.{Handled, applied, rewrap_rows-Handled, write_updates-eq-ok}
use vaultly.Rotate.Progress.{AllRekeyed, IsProgress, begun, batch-Progress, finished}
use vaultly.Rotate.Ends.{Respects-rewrap_rows, Respects-rotate_batch, Respects-count}

list-eq-ok :
    (c n : ℕ) (st : Stamp) (d d' : Db) (rows : List RotationRow)
    → list_secret_versions_for_rotation c n st d ≡ ok (rows, d')
    → (page c n d.versions ≡ rows) × (d ≡ d')
unfolding list_secret_versions_for_rotation
list-eq-ok c n st d d' rows h = (cc, cc)

module _ (current next : Keyring) (aead : IsAead next.cipher) (n : ℕ) where
  -- A batch that returned: its updates, applied to every version.
  batch-eq-ok :
      (rows : List RotationRow) (w : World) (k : ℕ)
      → (rotate_batch current next false n rows w).0 ≡ ok k
      → (us : List Rewrapped) × Handled current next rows us
        × ((rotate_batch current next false n rows w).1.db.versions
            ≡ map (applied us) w.db.versions)
  unfolding rotate_batch pure
  batch-eq-ok rows w k h =
      let (b, ran, rest, same) = bind-eq-ok (rewrap_rows current next rows) _ w h in
      let w1 = (rewrap_rows current next rows w).1 in
      let (x, wrote, _, same2) =
        bind-eq-ok (in_tx (write_updates b.updates)) (λ _. pure b.skipped) w1 rest in
      let (done, left) = in_tx-eq-ok (write_updates b.updates) w1 wrote in
      (
        b.updates,
        rewrap_rows-Handled current next aead rows w b ran,
        ap (λ (w : World). w.db.versions) (same ∙ same2)
            ∙ ap (λ (d : Db). d.versions) left
            ∙ write_updates-eq-ok b.updates (advance w1) x done
            ∙ ap (λ (d : Db). map (applied b.updates) d.versions)
                (sym ((Respects-rewrap_rows current next {R = sameness} rows).at w)),
      )

  module _ (vs0 : List VersionRow) (positive : 0 < n) where
    after_page :
        (rows : List RotationRow) (fuel c : ℕ) (counts : Counts) (k : Counts) (w : World)
        → page c n w.db.versions ≡ rows
        → Distinct (ids w.db.versions)
        → IsProgress current next c vs0 w.db.versions
        → ((c : ℕ) (counts : Counts) (w : World)
            → Distinct (ids w.db.versions)
            → IsProgress current next c vs0 w.db.versions
            → (rotate_from current next false n fuel c counts w).0 ≡ ok (some k)
            → AllRekeyed current next vs0
                (rotate_from current next false n fuel c counts w).1.db.versions)
        → (go_on current next false n rows (rotate_from current next false n fuel) counts w).0
          ≡ ok (some k)
        → AllRekeyed current next vs0
            (go_on current next false n rows
              (rotate_from current next false n fuel)
              counts
              w).1.db.versions
    unfolding pure
    after_page [] fuel c counts k w e u p ih h =
        finished current next c vs0 w.db.versions
          (λ x m. page_empty c n w.db.versions x positive e m) p
    after_page (r ∷ rs) fuel c counts k w e u p ih h =
        let (skipped, ran, rest, same) =
          bind-eq-ok (rotate_batch current next false n (r ∷ rs)) _ w h in
        let (us, handled, versions) = batch-eq-ok (r ∷ rs) w skipped ran in
        let kept : ids w.db.versions
            ≡ ids (rotate_batch current next false n (r ∷ rs) w).1.db.versions =
          (Respects-rotate_batch current next false n (r ∷ rs)).at w in
        let moved : last_or c (page c n w.db.versions) ≡ last_id r rs =
          ap (last_or c) e ∙ last_or-last_id c r rs in
        let handled' = subst (λ rows. Handled current next rows us) (sym e) handled in
        let progress : IsProgress current next (last_id r rs) vs0
            (rotate_batch current next false n (r ∷ rs) w).1.db.versions =
          subst
            (λ c.
              IsProgress current next c vs0
                (rotate_batch current next false n (r ∷ rs) w).1.db.versions)
            moved
            (subst (IsProgress current next (last_or c (page c n w.db.versions)) vs0) (sym versions)
              (batch-Progress current next c n w.db.versions u us handled' vs0 w.db.versions
                (λ x m. m) p)) in
        subst (λ (w : World). AllRekeyed current next vs0 w.db.versions) (sym same)
          (ih (last_id r rs) _ _ (subst Distinct kept u) progress rest)

    completes :
        (fuel c : ℕ) (counts : Counts) (k : Counts) (w : World)
        → Distinct (ids w.db.versions)
        → IsProgress current next c vs0 w.db.versions
        → (rotate_from current next false n fuel c counts w).0 ≡ ok (some k)
        → AllRekeyed current next vs0
            (rotate_from current next false n fuel c counts w).1.db.versions
    unfolding rotate_from pure
    completes zero c counts k w u p h = cc
    completes (suc fuel) c counts k w u p h =
        let (rows, w', found, rest, same) =
          query-eq-ok (λ _. Error.internal) (list_secret_versions_for_rotation c n) _ w h in
        let (e, kept) = list-eq-ok c n (stamp w) w.db w'.db rows found in
        subst (λ (w : World). AllRekeyed current next vs0 w.db.versions) (sym same)
          (after_page rows fuel c counts k w'
            (subst (λ (d : Db). page c n d.versions ≡ rows) kept e)
            (subst (λ (d : Db). Distinct (ids d.versions)) kept u)
            (subst (λ (d : Db). IsProgress current next c vs0 d.versions) kept p)
            (λ c counts w u p h. completes fuel c counts k w u p h) rest)

positive_size : (n : ℕ) → (ltb n 1 || ltb 10000 n) ≡ false → 0 < n
positive_size n h = ground arith

no_versions : (vs : List VersionRow) (total : ℕ) → length vs ≡ total → (total == 0) ≡ true → vs ≡ []
no_versions [] total e h = refl
no_versions (v ∷ vs) total e h = absurd (ground (arith, e))

counted_versions :
    (st : Stamp) (d d' : Db) (total : ℕ)
    → count_secret_versions st d ≡ ok (total, d')
    → length d.versions ≡ total
unfolding count_secret_versions
counted_versions st d d' total h = cc

abbrev IsComplete : Keyring → Keyring → Db → Option Counts → Db → Type 0
IsComplete current next d none d' = Unit {0}
IsComplete current next d (some k) d' = AllRekeyed current next d.versions d'.versions

module _ (current next : Keyring) (aead : IsAead next.cipher) (n fuel : ℕ) where
  started :
      (total : ℕ) (d : Db)
      → 0 < n
      → length d.versions ≡ total
      → Distinct (ids d.versions)
      → All (λ i. 0 < i) (ids d.versions)
      → Yields d
          (if total == 0
            then pure (some (record { processed = 0; skipped = 0 }))
            else rotate_from current next false n fuel 0 (record { processed = 0; skipped = 0 }))
          (IsComplete current next d)
  started total d size e u ps = elim (Bool-cases (total == 0)) [
    | inl empty ↦ rw empty (
        Yields-pure d _ (
          subst (λ vs. AllRekeyed current next vs vs) (sym (no_versions d.versions total e empty))
            tt))
    | inr rows ↦ rw rows (record { at = λ w o same h. outcome w o same h })
  ]
    where
      outcome :
          (w : World) (o : Option Counts)
          → d ≡ w.db
          → (rotate_from current next false n fuel 0 (record { processed = 0; skipped = 0 }) w).0
            ≡ ok o
          → IsComplete current next d o
              (rotate_from current next false n fuel 0
                (record { processed = 0; skipped = 0 })
                w).1.db
      outcome w none same h = tt
      outcome w (some k) same h =
          completes current next aead n d.versions size fuel 0 _ k w
            (subst (λ (d : Db). Distinct (ids d.versions)) same u)
            (subst (λ (x : Db). IsProgress current next 0 d.versions x.versions) same
              (begun current next d.versions ps))
            h

  -- A rotation that completes leaves every version, in its place, with nothing changed but its wrapped
  -- key, and opening under the next master key: to the data key to which the current one opened it,
  -- unless its stored bytes are the same as before. The identifiers of versions are unique and not
  -- null, and the next key's cipher satisfies `IsAead`.
  pub rotate-AllRekeyed :
      (current_encoded next_encoded : Text) (w : World) (k : Counts)
      → Distinct (ids w.db.versions)
      → All (λ i. 0 < i) (ids w.db.versions)
      → (rotate current next false n current_encoded next_encoded fuel w).0 ≡ ok (some k)
      → AllRekeyed current next w.db.versions
          (rotate current next false n current_encoded next_encoded fuel w).1.db.versions
  unfolding rotate
  rotate-AllRekeyed current_encoded next_encoded w k u ps h =
      let yields : Yields w.db (rotate current next false n current_encoded next_encoded fuel)
          (IsComplete current next w.db) =
        Yields-quiet w.db _ _ (Respects-check _) (λ wc _ _ sized.
          Yields-quiet w.db _ _ (Respects-check _) (λ _ _ _ _.
            Yields-quiet w.db _ _ Respects-count (λ wt total same ran.
              let (after_db, e, _) =
                on_error-eq-ok (λ _. Error.internal) count_secret_versions wt ran in
              started total w.db
                (positive_size n (check_refused (ltb n 1 || ltb 10000 n) _ wc sized))
                (subst (λ (d : Db). length d.versions ≡ total) (sym same)
                  (counted_versions (stamp wt) wt.db after_db total e))
                u ps))) in
      yields.at w (some k) refl h
