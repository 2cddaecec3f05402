-- ===== src/Rotate/Ends.antt =====
-- The end of a rotation (backend/cmd/rotate-key/main.go): a batch moves the cursor, and there is an
-- end to the identifiers behind it.
use vaultly.Prelude.{
  ℕ, zero, suc, ◌≡◌, ◌≢◌, ◌<◌, ◌≤◌, refl, sym, ap, subst, ◌∙◌, Bool, none, some, List, [], ◌∷◌,
  length, All, ◌==◌, update_where, if◌then◌else◌, Bool-cases, inl, inr, arith, Text,
}
use vaultly.Domain.{Error}
use vaultly.Db.{Db, VersionRow, Bytes}
use vaultly.World.{World, Svc, Outcome, ok, err, stamp, pure, raise, ◌>>=◌, run, on_error, Action'}
use vaultly.World.Steps.{attempt}
use vaultly.World.Respects.{
  Relation, Respects, Changes, Respects-bind, Respects-pure, Respects-raise, Respects-run,
  Respects-if, Respects-on_error, Respects-in_tx, Respects-lift, Respects-check, sameness,
  Commits-of_Respects,
}
use vaultly.World.Returns.{bind-eq-ok, query-eq-ok}
use vaultly.World.Yields.{Yields, Yields-pure, Yields-quiet}
use vaultly.Queries.Reads.{IsRead, Changes-of_IsRead}
use vaultly.Crypto.{Keyring, Sealed, rewrap}
use vaultly.Crypto.Quiet.{Respects-wrap}
use vaultly.Queries.Rotation.{
  RotationRow, count_secret_versions, list_secret_versions_for_rotation,
  update_secret_version_wrapped_dek,
}
use vaultly.Rotate.Page.{ids, behind, behind-lt, IsListed, page-IsListed, last_id-IsListed}
use vaultly.Rotate.Defs.{
  Rewrapped, Batch, Counts, wrapped_of, add_skip, rewrapped_row, rewrap_rows, write_updates,
  last_id, rotate_batch, go_on, rotate_from, rotate,
}

-- The table keeps its identifiers.
abbrev keeps_ids : Relation
keeps_ids = record {
  Rel = λ d d'. ids d.versions ≡ ids d'.versions;
  same = λ d. refl;
  chain = λ a b c h k. h ∙ k;
}

update-ids :
    (id : ℕ) (dek : Bytes) (vs : List VersionRow)
    → ids vs ≡ ids (update_where (λ v. v.id == id) (λ v. record v { wrapped_dek = dek }) vs)
update-ids id dek [] = refl
update-ids id dek (v ∷ vs) = elim (Bool-cases (v.id == id)) [
  | inl hit ↦ rw hit (ap (λ is. v.id ∷ is) (update-ids id dek vs))
  | inr miss ↦ rw miss (ap (λ is. v.id ∷ is) (update-ids id dek vs))
]

update-Changes :
    (id : ℕ) (dek : Bytes) → Changes keeps_ids (update_secret_version_wrapped_dek id dek)
unfolding update_secret_version_wrapped_dek
update-Changes id dek = record {
  at = λ s d u d' e.
      let same : record d {
        versions = update_where (λ v. v.id == id) (λ v. record v { wrapped_dek = dek }) d.versions;
      }
          ≡ d' =
        cc in
      subst (λ d'. ids d.versions ≡ ids d'.versions) same (update-ids id dek d.versions);
}

module _ {R : Relation} where
  Respects-attempt : {E A : Type 0} (m : Action' E A) → Respects R m → Respects R (attempt m)
  unfolding attempt
  Respects-attempt m r = record { at = λ w. r.at w }

  Respects-rewrap :
      (k : Keyring) (s : Sealed) (next : Keyring) → Respects R (rewrap k (some s) (some next))
  unfolding rewrap
  Respects-rewrap k s next =
      Respects-bind _ _ (Respects-lift _)
        (λ dek. Respects-bind _ _ (Respects-wrap next dek) (λ wrapped. Respects-pure _))

module _ (current next : Keyring) where
  module _ {R : Relation} where
    Respects-rewrapped_row :
        (r : RotationRow) (rest : Svc Batch) (o : Outcome Error Sealed)
        → Respects R rest
        → Respects R (rewrapped_row current next r rest o)
    Respects-rewrapped_row r rest (ok s) h = Respects-bind _ _ h (λ b. Respects-pure _)
    Respects-rewrapped_row r rest (err e) h =
        Respects-bind _ _ (Respects-attempt _ (Respects-rewrap next (wrapped_of r) next))
          (λ o. skipped o)
      where
        skipped :
            (o : Outcome Error Sealed)
            → Respects R (elim o as (λ _. Svc Batch) [
              | err f ↦ raise e
              | ok s ↦ rest >>= λ b. pure (add_skip b)
            ])
        skipped (err f) = Respects-raise e
        skipped (ok s) = Respects-bind _ _ h (λ b. Respects-pure _)

    pub Respects-rewrap_rows : (rs : List RotationRow) → Respects R (rewrap_rows current next rs)
    unfolding rewrap_rows
    Respects-rewrap_rows [] = Respects-pure _
    Respects-rewrap_rows (r ∷ rs) =
        Respects-bind _ _ (Respects-attempt _ (Respects-rewrap current (wrapped_of r) next))
          (λ o. Respects-rewrapped_row r _ o (Respects-rewrap_rows rs))

  Respects-write_updates : (us : List Rewrapped) → Respects keeps_ids (write_updates us)
  unfolding write_updates
  Respects-write_updates [] = Respects-pure _
  Respects-write_updates (u ∷ us) =
      Respects-bind _ _ (Respects-on_error _ _ (Respects-run _ (update-Changes u.id u.dek)))
        (λ _. Respects-write_updates us)

  pub Respects-rotate_batch :
      (dry : Bool) (n : ℕ) (rs : List RotationRow)
      → Respects keeps_ids (rotate_batch current next dry n rs)
  unfolding rotate_batch
  Respects-rotate_batch dry n rs = Respects-bind _ _ (Respects-rewrap_rows rs) (λ b.
      Respects-bind _ _
        (Respects-if dry _ _ (Respects-pure _)
          (Respects-in_tx _ (Commits-of_Respects (Respects-write_updates b.updates))))
        (λ _. Respects-pure _))

  module _ (dry : Bool) (n : ℕ) where
    never_out :
        (rows : List RotationRow) (fuel cursor : ℕ) (is : List ℕ) (c : Counts) (w : World)
        → All (IsListed cursor is) rows
        → ids w.db.versions ≡ is
        → behind cursor is < suc fuel
        → ((cursor : ℕ) (c : Counts) (w : World)
            → behind cursor (ids w.db.versions) < fuel
            → (rotate_from current next dry n fuel cursor c w).0 ≢ ok none)
        → (go_on current next dry n rows (rotate_from current next dry n fuel) c w).0 ≢ ok none
    unfolding pure
    never_out [] fuel cursor is c w h same few ih stop = cc
    never_out (r ∷ rs) fuel cursor is c w h same few ih stop =
        let (skipped, ran, rest, _) =
          bind-eq-ok (rotate_batch current next dry n (r ∷ rs)) _ w stop in
        let (after, there) = last_id-IsListed cursor is r rs h in
        let kept : ids (rotate_batch current next dry n (r ∷ rs) w).1.db.versions ≡ is =
          sym ((Respects-rotate_batch dry n (r ∷ rs)).at w) ∙ same in
        ih (last_id r rs) _ _
          (subst (λ is. behind (last_id r rs) is < fuel) (sym kept)
            (omega (arith, behind-lt cursor (last_id r rs) is after there)))
          rest

    -- With more fuel than identifiers of versions behind the cursor, the loop over the batches never
    -- runs out of fuel, whatever the size of a batch, the statements and the keys do.
    pub rotate_from-ends :
        (fuel cursor : ℕ) (c : Counts) (w : World)
        → behind cursor (ids w.db.versions) < fuel
        → (rotate_from current next dry n fuel cursor c w).0 ≢ ok none
    unfolding rotate_from
    rotate_from-ends zero cursor c w few stop = absurd (omega (arith, few))
    rotate_from-ends (suc fuel) cursor c w few stop =
        let (rows, w', page, rest, _) =
          query-eq-ok (λ _. Error.internal) (list_secret_versions_for_rotation cursor n) _ w stop in
        let (rows_listed, same) = page-IsListed cursor n (stamp w) w.db w'.db rows page in
        never_out rows fuel cursor (ids w.db.versions) c w' rows_listed
          (ap (λ (d : Db). ids d.versions) (sym same)) few
          (λ cursor c w few. rotate_from-ends fuel cursor c w few) rest

behind-le-length : (c : ℕ) (vs : List VersionRow) → behind c (ids vs) ≤ length vs
behind-le-length c [] = omega arith
behind-le-length c (v ∷ vs) = ground (arith, behind-le-length c vs)

count_secret_versions-IsRead : IsRead count_secret_versions
unfolding count_secret_versions
count_secret_versions-IsRead = record { at = λ s d a d' e. cc e }

pub Respects-count : Respects sameness (on_error (λ _. Error.internal) (run count_secret_versions))
Respects-count =
    Respects-on_error _ _ (Respects-run _ (Changes-of_IsRead _ count_secret_versions-IsRead))

module _ (current next : Keyring) (dry : Bool) (n fuel : ℕ) where
  started :
      (total : ℕ) (d : Db)
      → length d.versions < fuel
      → Yields d
          (if total == 0
            then pure (some (record { processed = 0; skipped = 0 }))
            else rotate_from current next dry n fuel 0 (record { processed = 0; skipped = 0 }))
          (λ o _. o ≢ none)
  started total d few = elim (Bool-cases (total == 0)) [
    | inl empty ↦ rw empty (Yields-pure d _ (λ e. cc))
    | inr rows ↦ rw rows (record {
      at = λ w o same h out.
          rotate_from-ends current next dry n fuel 0 _ w
            (omega
              (arith, behind-le-length 0 w.db.versions, ap (λ (d : Db). length d.versions) same))
            (h ∙ ap (λ o. ok o) out);
    })
  ]

  -- A rotation with more fuel than there are versions never runs out of it: the command's loop ends,
  -- with a result or an error, whatever the flags, the keys and the statements do.
  pub rotate-ends :
      (current_encoded next_encoded : Text) (w : World)
      → length w.db.versions < fuel
      → (rotate current next dry n current_encoded next_encoded fuel w).0 ≢ ok none
  unfolding rotate
  rotate-ends current_encoded next_encoded w few stop =
      let yields : Yields w.db (rotate current next dry n current_encoded next_encoded fuel)
          (λ o _. o ≢ none) =
        Yields-quiet w.db _ _ (Respects-check _) (λ _ _ _ _.
          Yields-quiet w.db _ _ (Respects-check _) (λ _ _ _ _.
            Yields-quiet w.db _ _ Respects-count (λ _ total _ _. started total w.db few))) in
      yields.at w none refl stop refl
