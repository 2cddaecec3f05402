-- ===== src/Rotate/Handles.antt =====
-- What the updates of a batch do to the versions (backend/cmd/rotate-key/main.go).
use vaultly.Prelude.{
  ℕ, ◌≡◌, ◌≢◌, ◌<◌, ◌⊎◌, inl, inr, refl, sym, ap, ◌∙◌, subst, false, List, [], ◌∷◌, map, All,
  update_where, ◌==◌, ==_iff, some, if◌then◌else◌, arith,
}
use vaultly.Domain.{Error}
use vaultly.Db.{Db, VersionRow, Bytes}
use vaultly.World.{World, Svc, Outcome, ok, err, Stamp, stamp, Action', pure, raise, ◌>>=◌}
use vaultly.World.Steps.{attempt}
use vaultly.World.Yields.{ok_injective}
use vaultly.World.Returns.{bind-eq-ok, query-eq-ok}
use vaultly.Crypto.{Keyring, Sealed, IsAead, unwrap, rewrap}
use vaultly.Crypto.RoundTrip.{rewrap-eq-ok}
use vaultly.Queries.Rotation.{RotationRow, update_secret_version_wrapped_dek}
use vaultly.Rotate.Defs.{
  Rewrapped, Batch, wrapped_of, add_update, add_skip, rewrapped_row, rewrap_rows, write_updates,
}
use vaultly.Rotate.Page.{row_of}
use vaultly.Rotate.Sorted.{In, Ascends, In-behind}

-- A version after the rotation: it opens under the next key, to what it opened to under the current
-- one, unless its stored bytes are the ones of before; and nothing but the wrapped key is changed.
pub record IsRekeyed (current next : Keyring) (v v' : VersionRow) : Type 0 where
  pub dek : Bytes
  pub rest : v' ≡ record v { wrapped_dek = v'.wrapped_dek }
  pub opens : unwrap next v'.wrapped_dek ≡ ok dek
  pub from : (unwrap current v.wrapped_dek ≡ ok dek) ⊎ (v'.wrapped_dek ≡ v.wrapped_dek)

-- The updates that a batch makes of its rows.
pub data Handled (current next : Keyring) : List RotationRow → List Rewrapped → Type 0 where
  done : Handled current next [] []
  update :
      (r : RotationRow) (dek new : Bytes) {rs : List RotationRow} {us : List Rewrapped}
      → unwrap current r.wrapped_dek ≡ ok dek
      → unwrap next new ≡ ok dek
      → Handled current next rs us
      → Handled current next (r ∷ rs) (record { id = r.id; dek = new } ∷ us)
  skip :
      (r : RotationRow) (dek : Bytes) {rs : List RotationRow} {us : List Rewrapped}
      → unwrap next r.wrapped_dek ≡ ok dek
      → Handled current next rs us
      → Handled current next (r ∷ rs) us

attempted :
    {E A : Type 0} (m : Action' E A) (w : World) (o : Outcome E A)
    → (attempt m w).0 ≡ ok o
    → (m w).0 ≡ o
unfolding attempt
attempted m w o h = cc

updates_of : {b b' : Batch} → Path (Outcome Error Batch) (ok b) (ok b') → b.updates ≡ b'.updates
updates_of h = ap (λ (b : Batch). b.updates) (ok_injective h)

module _ (current next : Keyring) (aead : IsAead next.cipher) where
  module _ (r : RotationRow) (rs : List RotationRow)
      (ih : (w : World) (b : Batch)
        → (rewrap_rows current next rs w).0 ≡ ok b
        → Handled current next rs b.updates) where
    row_skipped :
        (e : Error) (o : Outcome Error Sealed) (w w' : World) (b : Batch)
        → (rewrap next (some (wrapped_of r)) (some next) w).0 ≡ o
        → ((elim o as (λ _. Svc Batch) [
          | err f ↦ raise e
          | ok s ↦ rewrap_rows current next rs >>= λ b. pure (add_skip b)
        ])
            w').0
          ≡ ok b
        → Handled current next (r ∷ rs) b.updates
    unfolding raise pure
    row_skipped e (err f) w w' b ran h = cc
    row_skipped e (ok s) w w' b ran h =
        let (b', rest, end, _) =
          bind-eq-ok (rewrap_rows current next rs) (λ b. pure (add_skip b)) w' h in
        let (dek, opens, _, _, _) = rewrap-eq-ok next next w (wrapped_of r) s aead ran in
        subst (Handled current next (r ∷ rs)) (updates_of end) (skip r dek opens (ih w' b' rest))

    row-Handled :
        (o : Outcome Error Sealed) (w w' : World) (b : Batch)
        → (rewrap current (some (wrapped_of r)) (some next) w).0 ≡ o
        → (rewrapped_row current next r (rewrap_rows current next rs) o w').0 ≡ ok b
        → Handled current next (r ∷ rs) b.updates
    unfolding pure
    row-Handled (ok s) w w' b ran h =
        let (b', rest, end, _) =
          bind-eq-ok (rewrap_rows current next rs) (λ b. pure (add_update r.id s b)) w' h in
        let (dek, opened, opens, _, _) = rewrap-eq-ok current next w (wrapped_of r) s aead ran in
        subst (Handled current next (r ∷ rs)) (updates_of end)
          (update r dek s.wrapped_dek opened opens (ih w' b' rest))
    row-Handled (err e) w w' b ran h =
        let (o, tried, rest, _) =
          bind-eq-ok (attempt (rewrap next (some (wrapped_of r)) (some next))) _ w' h in
        row_skipped e o w' _ b
          (attempted (rewrap next (some (wrapped_of r)) (some next)) w' o tried) rest

  pub rewrap_rows-Handled :
      (rs : List RotationRow) (w : World) (b : Batch)
      → (rewrap_rows current next rs w).0 ≡ ok b
      → Handled current next rs b.updates
  unfolding rewrap_rows pure
  rewrap_rows-Handled [] w b h = subst (Handled current next []) (updates_of h) done
  rewrap_rows-Handled (r ∷ rs) w b h =
      let (o, tried, rest, _) =
        bind-eq-ok (attempt (rewrap current (some (wrapped_of r)) (some next))) _ w h in
      row-Handled r rs (λ w b h. rewrap_rows-Handled rs w b h) o w _ b
        (attempted (rewrap current (some (wrapped_of r)) (some next)) w o tried) rest

-- One update, and all of a batch, on one version.
abbrev pub updated : Rewrapped → VersionRow → VersionRow
updated u v = if v.id == u.id then record v { wrapped_dek = u.dek } else v

abbrev pub applied : List Rewrapped → VersionRow → VersionRow
applied [] v = v
applied (u ∷ us) v = applied us (updated u v)

map_self : (vs : List VersionRow) → map (λ v. v) vs ≡ vs
map_self [] = refl
map_self (v ∷ vs) = ap (λ l. v ∷ l) (map_self vs)

map-map :
    (f g : VersionRow → VersionRow) (vs : List VersionRow)
    → map f (map g vs) ≡ map (λ v. f (g v)) vs
map-map f g [] = refl
map-map f g (v ∷ vs) = ap (λ l. f (g v) ∷ l) (map-map f g vs)

update-map :
    (u : Rewrapped) (vs : List VersionRow)
    → update_where (λ v. v.id == u.id) (λ v. record v { wrapped_dek = u.dek }) vs
      ≡ map (updated u) vs
update-map u [] = refl
update-map u (v ∷ vs) = ap (λ l. updated u v ∷ l) (update-map u vs)

update-eq-ok :
    (u : Rewrapped) (st : Stamp) (d d' : Db) (x : Unit {0})
    → update_secret_version_wrapped_dek u.id u.dek st d ≡ ok (x, d')
    → d'.versions ≡ map (updated u) d.versions
unfolding update_secret_version_wrapped_dek
update-eq-ok u st d d' x h =
    let same : record d {
      versions =
          update_where (λ v. v.id == u.id) (λ v. record v { wrapped_dek = u.dek }) d.versions;
    }
        ≡ d' =
      cc in
    sym (ap (λ (d : Db). d.versions) same) ∙ update-map u d.versions

pub write_updates-eq-ok :
    (us : List Rewrapped) (w : World) (x : Unit {0})
    → (write_updates us w).0 ≡ ok x
    → (write_updates us w).1.db.versions ≡ map (applied us) w.db.versions
unfolding write_updates pure
write_updates-eq-ok [] w x h = sym (map_self w.db.versions)
write_updates-eq-ok (u ∷ us) w x h =
    let (y, w', made, rest, same) =
      query-eq-ok (λ _. Error.internal) (update_secret_version_wrapped_dek u.id u.dek)
        (λ _. write_updates us) w h in
    ap (λ (w : World). w.db.versions) same
    ∙ write_updates-eq-ok us w' x rest
    ∙ ap (map (applied us)) (update-eq-ok u (stamp w) w.db w'.db y made)
    ∙ map-map (applied us) (updated u) w.db.versions

other : (u : Rewrapped) (v : VersionRow) → v.id ≢ u.id → updated u v ≡ v
other u v ne = rw (differs v.id u.id ne)
  where
    differs : (a b : ℕ) → a ≢ b → (a == b) ≡ false
    differs a b ne = ground (arith, ne)

applied_other :
    (us : List Rewrapped) (v : VersionRow) → All (λ u. v.id ≢ u.id) us → applied us v ≡ v
applied_other [] v h = refl
applied_other (u ∷ us) v h = ap (applied us) (other u v h.0) ∙ applied_other us v h.1

Handled-All :
    {current next : Keyring} (P : ℕ → Type 0) {rs : List RotationRow} {us : List Rewrapped}
    → Handled current next rs us
    → All (λ r. P r.id) rs
    → All (λ u. P u.id) us
Handled-All P done h = tt
Handled-All P (update r dek new o n rest) h = (h.0, Handled-All P rest h.1)
Handled-All P (skip r dek n rest) h = Handled-All P rest h.1

-- A version whose identifier no row has is left alone.
pub Handled_other :
    {current next : Keyring} {rs : List RotationRow} {us : List Rewrapped} (v : VersionRow)
    → Handled current next rs us
    → All (λ r. v.id ≢ r.id) rs
    → applied us v ≡ v
Handled_other {us = us} v h absent = applied_other us v (Handled-All (λ i. v.id ≢ i) h absent)

above : (i : ℕ) (rs : List RotationRow) → All (λ q. i < q.id) rs → All (λ q. i ≢ q.id) rs
above i [] h = tt
above i (r ∷ rs) h = (λ e. absurd (omega (arith, h.0, e)), above i rs h.1)

same_row :
    (v : VersionRow) (r : RotationRow)
    → row_of v ≡ r
    → (v.id ≡ r.id) × (v.wrapped_dek ≡ r.wrapped_dek)
same_row v r e = (ap (λ (r : RotationRow). r.id) e, ap (λ (r : RotationRow). r.wrapped_dek) e)

hit :
    (u : Rewrapped) (v : VersionRow) → v.id ≡ u.id → updated u v ≡ record v { wrapped_dek = u.dek }
hit u v e = rw ((==_iff v.id u.id).1 e)

module _ {current next : Keyring} where
  -- The row of a version, and rows behind it: what the other updates leave.
  left_alone :
      (r : RotationRow) {rs : List RotationRow} {us : List Rewrapped} (v : VersionRow)
      → Handled current next rs us
      → All (λ q. r.id < q.id) rs
      → v.id ≡ r.id
      → applied us v ≡ v
  left_alone r {rs} v h a e =
      Handled_other v h (subst (λ i. All (λ q. i ≢ q.id) rs) (sym e) (above r.id rs a))

  -- A version of which the batch has the row.
  pub applied-IsRekeyed :
      (rs : List RotationRow) (us : List Rewrapped) (v : VersionRow)
      → Handled current next rs us
      → Ascends rs
      → In (row_of v) rs
      → IsRekeyed current next v (applied us v)
  applied-IsRekeyed rs us v done a m = absurd m
  applied-IsRekeyed (_ ∷ rs) us v (update r dek new {us = rest} o n h) a (inl e) =
      let (same_id, same_dek) = same_row v r e in
      let changed : VersionRow = record v { wrapped_dek = new } in
      subst (IsRekeyed current next v)
        (sym (
          ap (applied rest) (hit (record { id = r.id; dek = new }) v same_id)
          ∙ left_alone r changed h a.0 same_id))
        (record {
          dek = dek;
          rest = refl;
          opens = n;
          from = inl (subst (λ b. unwrap current b ≡ ok dek) (sym same_dek) o);
        })
  applied-IsRekeyed (_ ∷ rs) us v (update r dek new {us = rest} o n h) a (inr m) =
      let less = In-behind (row_of v) r.id rs a.0 m in
      subst (λ x. IsRekeyed current next v (applied rest x))
        (sym (other (record { id = r.id; dek = new }) v (λ e. absurd (omega (arith, less, e)))))
        (applied-IsRekeyed rs rest v h a.1 m)
  applied-IsRekeyed (_ ∷ rs) us v (skip r dek n h) a (inl e) =
      let (same_id, same_dek) = same_row v r e in
      subst (IsRekeyed current next v) (sym (left_alone r v h a.0 same_id)) (record {
        dek = dek;
        rest = refl;
        opens = subst (λ b. unwrap next b ≡ ok dek) (sym same_dek) n;
        from = inr refl;
      })
  applied-IsRekeyed (_ ∷ rs) us v (skip r dek n h) a (inr m) = applied-IsRekeyed rs us v h a.1 m
