-- ===== src/Calls/Invariant.antt =====
-- The history under sequences of calls (backend/internal/service/secret.go,
-- backend/internal/service/promotion.go).
use vaultly.Prelude.{ℕ, List, [], ◌∷◌}
use vaultly.World.{World}
use vaultly.World.Respects.{Respects, respects_rules, Respects-bind, Respects-pure}
use vaultly.Secrets.{Deps}
use vaultly.Secrets.History.{HasHistory, Grows, evolution, Evolves, Evolves-refl, Evolves-trans}
use vaultly.Secrets.Preserve.{
  Respects-create, Respects-update, Respects-update_description, Respects-delete, Respects-rollback,
  Respects-list, Respects-reveal, Respects-get, Respects-list_versions, Respects-reveal_version,
}
use vaultly.Promotion.Preserve.{Respects-promote}
use vaultly.Calls.Defs.{
  Call, create_call, update_call, describe_call, delete_call, rollback_call, promote_call,
  list_call, get_call, list_versions_call, reveal_call, reveal_version_call, serve, serve_all,
}

ruleset calls = (
  respects_rules, Respects-create, Respects-update, Respects-update_description, Respects-delete,
  Respects-rollback, Respects-promote,
)

Respects-serve : (deps : Deps) (user : ℕ) (c : Call) → Respects evolution (serve deps user c)
unfolding serve
Respects-serve deps user (create_call i) = search calls depth 9
Respects-serve deps user (update_call i) = search calls depth 9
Respects-serve deps user (describe_call id t) =
    Respects-bind _ _ (Respects-update_description deps user id t) (λ _. Respects-pure tt)
Respects-serve deps user (delete_call id a) =
    Respects-bind _ _ (Respects-delete deps user id a) (λ _. Respects-pure tt)
Respects-serve deps user (rollback_call id v a) =
    Respects-bind _ _ (Respects-rollback deps user id v a) (λ _. Respects-pure tt)
Respects-serve deps user (promote_call i) = search calls depth 9
Respects-serve deps user (list_call id) =
    Respects-bind _ _ (Respects-list deps user id) (λ _. Respects-pure tt)
Respects-serve deps user (get_call id) =
    Respects-bind _ _ (Respects-get deps user id) (λ _. Respects-pure tt)
Respects-serve deps user (list_versions_call id) =
    Respects-bind _ _ (Respects-list_versions deps user id) (λ _. Respects-pure tt)
Respects-serve deps user (reveal_call id a) =
    Respects-bind _ _ (Respects-reveal deps user id a) (λ _. Respects-pure tt)
Respects-serve deps user (reveal_version_call id v a) =
    Respects-bind _ _ (Respects-reveal_version deps user id v a) (λ _. Respects-pure tt)

serve_all-Evolves :
    (deps : Deps) (cs : List (ℕ × Call)) (w : World) → Evolves w.db (serve_all deps cs w).db
unfolding serve_all
serve_all-Evolves deps [] w = Evolves-refl w.db
serve_all-Evolves deps ((user, c) ∷ cs) w =
    Evolves-trans w.db _ _ ((Respects-serve deps user c).at w)
      (serve_all-Evolves deps cs (serve deps user c w).1)

module _ (deps : Deps) (cs : List (ℕ × Call)) (w : World) (h : HasHistory w.db) where
  -- Whatever calls are served, in whatever order, by whatever users, and whichever statements,
  -- commits and draws of random bytes fail on the way: if the history was sound (the stored version
  -- numbers of each secret are 1 up to its pointer, each once, newest first), it is sound after.
  pub serve_all-HasHistory : HasHistory (serve_all deps cs w).db
  serve_all-HasHistory = (serve_all-Evolves deps cs w h).0

  -- From a sound history the calls only add rows to the table of versions: every row that was stored
  -- is stored after, unchanged and in the same place from the oldest on.
  pub serve_all-Grows : Grows w.db (serve_all deps cs w).db
  serve_all-Grows = (serve_all-Evolves deps cs w h).1
