-- ===== src/Workspaces/Count.antt =====
-- The number of a workspace's owners under the writes of members
-- (backend/internal/db/sqlcgen/workspaces.sql.go).
use vaultly.Prelude.{
  ℕ, ◌+◌, ◌≡◌, ◌≢◌, ◌≤◌, refl, true, false, not, some, List, [], ◌∷◌, first, any, keep,
  update_where, Bool-cases, inl, inr, arith,
}
use vaultly.Domain.{Role, is_owner}
use vaultly.Db.{MemberRow}
use vaultly.Queries.Roles.{is_member}
use vaultly.Queries.Members.{owners, with_role}

-- The primary key.
abbrev pub HasUniqueMembers : List MemberRow → Type 0
HasUniqueMembers [] = Unit
HasUniqueMembers (m ∷ ms) =
    (any (is_member m.workspace_id m.user_id) ms ≡ false) × HasUniqueMembers ms

module _ (W U : ℕ) (r : Role) where
  update_absent :
      (ms : List MemberRow)
      → any (is_member W U) ms ≡ false
      → update_where (is_member W U) (with_role r) ms ≡ ms
  update_absent [] h = refl
  update_absent (m ∷ ms) h = ground (arith, update_absent ms)

  -- A new owner adds to the owners.
  pub owners-update_owner :
      (ws : ℕ) (ms : List MemberRow)
      → is_owner r ≡ true
      → owners ws ms ≤ owners ws (update_where (is_member W U) (with_role r) ms)
  owners-update_owner ws [] h = omega arith
  owners-update_owner ws (m ∷ ms) h = ground (arith, owners-update_owner ws ms h)

  -- Other workspaces are not touched.
  pub owners-update_ne :
      (ws : ℕ) (ms : List MemberRow)
      → ws ≢ W
      → owners ws (update_where (is_member W U) (with_role r) ms) ≡ owners ws ms
  owners-update_ne ws [] ne = refl
  owners-update_ne ws (m ∷ ms) ne = ground (arith, owners-update_ne ws ms ne)

  -- One owner is lost at most.
  pub owners-update :
      (ws : ℕ) (ms : List MemberRow)
      → HasUniqueMembers ms
      → owners ws ms ≤ owners ws (update_where (is_member W U) (with_role r) ms) + 1
  owners-update ws [] h = omega arith
  owners-update ws (m ∷ ms) h = elim (Bool-cases (is_member W U m)) [
    | inl hit ↦
        let absent : any (is_member W U) ms ≡ false = ground arith in
        rw (hit, update_absent ms absent) (ground arith)
    | inr miss ↦ rw miss (ground (arith, owners-update ws ms h.1))
  ]

  -- None is lost where the member was not one.
  pub owners-update_other :
      (ws : ℕ) (ms : List MemberRow) (m : MemberRow)
      → HasUniqueMembers ms
      → first (is_member W U) ms ≡ some m
      → is_owner m.role ≡ false
      → owners ws ms ≤ owners ws (update_where (is_member W U) (with_role r) ms)
  owners-update_other ws [] m h e o = omega arith
  owners-update_other ws (x ∷ ms) m h e o = elim (Bool-cases (is_member W U x)) [
    | inl hit ↦
        let absent : any (is_member W U) ms ≡ false = ground arith in
        let same : x ≡ m = ground arith in rw (hit, update_absent ms absent) (ground arith)
    | inr miss ↦
        let found : first (is_member W U) ms ≡ some m = ground arith in
        rw miss (ground (arith, owners-update_other ws ms m h.1 found o))
  ]

abbrev pub without : ℕ → ℕ → List MemberRow → List MemberRow
without W U ms = keep (λ m. not (is_member W U m)) ms

module _ (W U : ℕ) where
  remove_absent : (ms : List MemberRow) → any (is_member W U) ms ≡ false → without W U ms ≡ ms
  remove_absent [] h = refl
  remove_absent (m ∷ ms) h = ground (arith, remove_absent ms)

  pub owners-remove_ne :
      (ws : ℕ) (ms : List MemberRow) → ws ≢ W → owners ws (without W U ms) ≡ owners ws ms
  owners-remove_ne ws [] ne = refl
  owners-remove_ne ws (m ∷ ms) ne = ground (arith, owners-remove_ne ws ms ne)

  pub owners-remove :
      (ws : ℕ) (ms : List MemberRow)
      → HasUniqueMembers ms
      → owners ws ms ≤ owners ws (without W U ms) + 1
  owners-remove ws [] h = omega arith
  owners-remove ws (m ∷ ms) h = elim (Bool-cases (is_member W U m)) [
    | inl hit ↦
        let absent : any (is_member W U) ms ≡ false = ground arith in
        rw (hit, remove_absent ms absent) (ground arith)
    | inr miss ↦ rw miss (ground (arith, owners-remove ws ms h.1))
  ]

  pub owners-remove_other :
      (ws : ℕ) (ms : List MemberRow) (m : MemberRow)
      → HasUniqueMembers ms
      → first (is_member W U) ms ≡ some m
      → is_owner m.role ≡ false
      → owners ws ms ≤ owners ws (without W U ms)
  owners-remove_other ws [] m h e o = omega arith
  owners-remove_other ws (x ∷ ms) m h e o = elim (Bool-cases (is_member W U x)) [
    | inl hit ↦
        let absent : any (is_member W U) ms ≡ false = ground arith in
        let same : x ≡ m = ground arith in rw (hit, remove_absent ms absent) (ground arith)
    | inr miss ↦
        let found : first (is_member W U) ms ≡ some m = ground arith in
        rw miss (ground (arith, owners-remove_other ws ms m h.1 found o))
  ]
