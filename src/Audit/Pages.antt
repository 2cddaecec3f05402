-- ===== src/Audit/Pages.antt =====
-- The pages of the feed (backend/internal/service/audit.go, backend/internal/db/sqlcgen/audit.sql.go).
use vaultly.Prelude.{
  ℕ, zero, suc, ◌≡◌, refl, sym, ap, subst, ◌∙◌, Bool, true, false, some, List, [], ◌∷◌, ◌++◌,
  length, map, take, keep, All, ltb, ◌<◌, ◌≤◌, Bool-cases, inl, inr, arith, ℤ, pos, negsuc,
}
use mathlib.Core.List.{append-nil}
use vaultly.Domain.{viewer}
use vaultly.Db.{Db, AuditRow}
use vaultly.World.{World, ok, run, translated}
use vaultly.World.Respects.{Respects, respects_rules, sameness, Respects-run}
use vaultly.World.Yields.{Yields, Yields-quiet, Yields-pure}
use vaultly.Queries.Reads.{IsRead, Changes-of_IsRead}
use vaultly.Authz.Laws.{Respects-require_workspace_role}
use vaultly.Audit.Defs.{
  Codec, ListAuditLogsParams, ListAuditLogsRow, precedes, is_before, matches, newest_first, feed,
  list_audit_logs,
}
use vaultly.Audit.Order.{
  Unique, Descends, All-keep, All-newest_first, Unique-keep, newest_first-Descends, All-append,
  is_behind, keep-newest_first, keep_none, keep-append, keep_behind, keep-keep,
}
use vaultly.Audit.Feed.{
  AuditFilter, AuditPage, CursorCodec, page_limit, entry_of, page_of, list_audit,
}

All-kept : (t : AuditRow → Bool) (qs : List AuditRow) → All (λ q. t q ≡ true) (keep t qs)
All-kept t [] = tt
All-kept t (q ∷ qs) = elim (Bool-cases (t q)) [
  | inl y ↦ rw y (y, All-kept t qs)
  | inr n ↦ rw n (All-kept t qs)
]

-- New rows that are not behind `x` do not come into the feed behind it.
unchanged :
    (t : AuditRow → Bool) (x : AuditRow) (rows news : List AuditRow)
    → All (λ r. is_behind x r ≡ false) news
    → keep (is_behind x) (keep t (rows ++ news)) ≡ keep (is_behind x) (keep t rows)
unchanged t x rows news new =
    ap (keep (is_behind x)) (keep-append t rows news)
    ∙ keep-append (is_behind x) (keep t rows) (keep t news)
    ∙ ap (λ l. keep (is_behind x) (keep t rows) ++ l)
        (keep_none (is_behind x) (keep t news) (All-keep (λ r. is_behind x r ≡ false) t news new))
    ∙ append-nil _

-- The feed behind the row `x` of a feed is what followed `x` in it, also in a log that has since got
-- rows that are not behind `x`, where identifiers are unique.
pub feed_continues :
    (p : ListAuditLogsParams) (d : Db) (front rest news : List AuditRow) (x : AuditRow)
    → Unique d.audit_logs
    → feed p d ≡ front ++ x ∷ rest
    → All (λ r. precedes r x.created_at (some x.id) ≡ false) news
    → feed
        (record p { before_created_at = some x.created_at; before_id = some x.id })
        (record d { audit_logs = d.audit_logs ++ news })
      ≡ rest
unfolding feed
feed_continues p d front rest news x u e new =
    let t = is_before p.before_created_at p.before_id in
    let rows = keep (matches p) d.audit_logs in
    let shown : All (λ r. t r ≡ true) (front ++ x ∷ rest) =
      subst (All (λ r. t r ≡ true)) e
        (All-newest_first (λ r. t r ≡ true) (keep t rows) (All-kept t rows)) in
    let unique : Unique (keep t rows) =
      Unique-keep t rows (Unique-keep (matches p) d.audit_logs u) in
    ap newest_first (unchanged (matches p) x d.audit_logs news new)
    ∙ ap newest_first (
        sym (
          keep-keep p.before_created_at p.before_id x rows
            (All-append (λ r. t r ≡ true) front x rest shown)))
    ∙ sym (keep-newest_first (is_behind x) (keep t rows) unique)
    ∙ ap (keep (is_behind x)) e
    ∙ keep_behind front x rest (subst Descends e (newest_first-Descends (keep t rows) unique))

-- The limit of a page is positive and at most 200, and a positive limit that was asked for bounds it.
page_limit_bounds : (z : ℤ) → (0 < page_limit z) × (page_limit z ≤ 200)
unfolding page_limit
page_limit_bounds (negsuc n) = omega arith
page_limit_bounds (pos n) = ground arith

length-take : {A : Type 0} (n : ℕ) (xs : List A) → length (take n xs) ≤ n
length-take zero xs = omega arith
length-take (suc n) [] = omega arith
length-take (suc n) (x ∷ xs) = omega (arith, length-take n xs)

length-map : {A B : Type 0} (f : A → B) (xs : List A) → length (map f xs) ≡ length xs
length-map f [] = refl
length-map f (x ∷ xs) = ap suc (length-map f xs)

page_of_bounds :
    (c : Codec) (k : CursorCodec) (n : ℕ) (rows : List ListAuditLogsRow)
    → length (page_of c k n rows).entries ≤ n
unfolding page_of
page_of_bounds c k n rows = elim (Bool-cases (ltb n (length rows))) [
  | inl more_ ↦
      rw (more_, page_of) (omega (arith, length-map (entry_of c) (take n rows), length-take n rows))
  | inr all_ ↦ rw (all_, page_of) (ground (arith, length-map (entry_of c) rows))
]

list_audit_logs-IsRead : (p : ListAuditLogsParams) → IsRead (list_audit_logs p)
unfolding list_audit_logs
list_audit_logs-IsRead p = record { at = λ s d a d' e. cc e }

Respects-list_audit_logs :
    (p : ListAuditLogsParams) → Respects sameness (translated (run (list_audit_logs p)))
Respects-list_audit_logs p =
    search (respects_rules, Respects-run, Changes-of_IsRead, list_audit_logs-IsRead)

-- A page that `List` returns has at most as many entries as its limit, which is between 1 and 200;
-- and it changes no table.
pub list_audit_bounds :
    (c : Codec) (k : CursorCodec) (user_id workspace_id : ℕ) (f : AuditFilter) (w : World)
    (page : AuditPage)
    → (list_audit c k user_id workspace_id f w).0 ≡ ok page
    → (length page.entries ≤ page_limit f.limit)
      × (0 < page_limit f.limit)
      × (page_limit f.limit ≤ 200)
      × ((list_audit c k user_id workspace_id f w).1.db ≡ w.db)
unfolding list_audit
list_audit_bounds c k user_id workspace_id f w page h =
    let n = page_limit f.limit in
    let yields : Yields w.db (list_audit c k user_id workspace_id f)
        (λ page d'. (length page.entries ≤ n) × (d' ≡ w.db)) =
      Yields-quiet w.db _ _ (Respects-require_workspace_role user_id workspace_id viewer)
        (λ _ _ _ _.
          Yields-quiet w.db _ _ (Respects-list_audit_logs _)
            (λ _ rows _ _. Yields-pure _ _ (page_of_bounds c k n rows, refl))) in
    let (few, same) = yields.at w page refl h in
    let (positive, most) = page_limit_bounds f.limit in (few, positive, most, same)
