-- ===== src/Server/OnDatabase.antt =====
-- The server after its start over PostgreSQL.
use mathlib.Core.Path.{subst}
use agent_secyrity.Prelude.{
  ◌≡◌, ◌↔◌, refl, sym, ap, ◌∙◌, inl, inr, true, false, none, List, [], ◌∷◌, map, ◌==◌,
}
use agent_secyrity.Strings.{Folding}
use agent_secyrity.Maps.{Iteration, empty}
use agent_secyrity.Maps.Alike.{Alike-empty}
use agent_secyrity.Domain.{RuntimeEvent, PolicyPack, Time, EvaluationResult, decision_deny}
use agent_secyrity.Domain.Event.{normalize}
use agent_secyrity.Domain.Errors.{Result, ok, err, Result-cases, background}
use agent_secyrity.Interfaces.{PackStore}
use agent_secyrity.PolicyPack.Invariant.{IsValid-new}
use agent_secyrity.Policy.Matching.{matches}
use agent_secyrity.Auth.{ApiKeyConfig}
use agent_secyrity.Runtime.{Readings, stamped, default_ttl, evaluate_event}
use agent_secyrity.Runtime.Memory.{pack_store}
use agent_secyrity.Http.{Handler}
use agent_secyrity.Baseline.{secret_file_access, default_policy_packs}
use agent_secyrity.Postgres.{Json, Database}
use agent_secyrity.Postgres.Packs.{policy_pack_store}
use agent_secyrity.Postgres.Opening.{Driver}
use agent_secyrity.Postgres.Tables.{IsTable, IsRowOf}
use agent_secyrity.Postgres.Service.{
  Change, Changed, database_service, Mirrors, changes-Mirrors, database_denied_iff,
}
use agent_secyrity.Server.{
  Environment, StoreSet, service_of, new_stores, unless_failed, seed, handler_with, new_handler,
  with_seeded, start,
}
use agent_secyrity.Server.Seeding.{seeded, seed-default_policy_packs, Denier-seeded}
use agent_secyrity.Server.Starting.{
  Started, over_memory, over_database, database_stores, with_stores, init_database, start_server,
}

module _ {S : Type 0} (packs : PackStore S) (now : Time) where
  seed-Changed :
      (ps : List PolicyPack) (s s' : S)
      → seed packs now ps s ≡ (s', ok tt)
      → Changed packs (map (Change.put now) ps) s s'
  unfolding seed
  seed-Changed [] s s' h = subst (Changed packs [] s) (ap (λ p. p.0) h) (Changed.unchanged s)
  seed-Changed (p ∷ ps) s s' h =
      let between = (packs.upsert background now p s).0 in
      elim (Result-cases (packs.upsert background now p s).1) [
        | inr (e, failing) ↦ absurd (cc (ap (λ q. q.1) (rw failing at h)))
        | inl (u, done) ↦
            Changed.changed (Change.put now p) (map (Change.put now) ps) s between s'
              (ap (λ r. (between, r)) done) (seed-Changed ps between s' (rw done at h))
      ]

  Changed-seed :
      (ps : List PolicyPack) (s s' : S)
      → Changed packs (map (Change.put now) ps) s s'
      → seed packs now ps s ≡ (s', ok tt)
  unfolding seed
  Changed-seed [] _ _ (Changed.unchanged s) = refl
  Changed-seed (p ∷ ps) _ _ (Changed.changed c cs s s' s'' done rest) =
      ap (unless_failed (λ u. seed packs now ps u)) done ∙ Changed-seed ps s' s'' rest

module _ {S : Type 0} (env : Environment) (stores : StoreSet S) (s' : S) (handler : Handler S) where
  seeded_cases :
      (p : S × Result (Unit {0}))
      → with_seeded env stores p ≡ (s', ok handler)
      → (p ≡ (s', ok tt)) × (new_handler env stores ≡ ok handler)
  seeded_cases (s, err e) h = absurd (cc (ap (λ q. q.1) h))
  seeded_cases (s, ok u) h = (ap (λ q. (q.0, ok tt)) h, ap (λ q. q.1) h)

  -- A start that gives a handler has seeded the packs.
  start_cases :
      (now : Time) (s : S)
      → start env stores now s ≡ (s', ok handler)
      → (seed stores.policy_packs now (default_policy_packs "default") s ≡ (s', ok tt))
        × (new_handler env stores ≡ ok handler)
  unfolding start
  start_cases now s h = seeded_cases _ h

handled : {S : Type 0} → Handler S → Result (Handler S) → Handler S
handled handler (ok other) = other
handled handler (err e) = handler

service-handler_with :
    {S : Type 0} (stores : StoreSet S) (keys : Result ApiKeyConfig) (handler : Handler S)
    → handler_with stores keys ≡ ok handler
    → handler.service ≡ service_of stores
unfolding handled
service-handler_with stores (err e) handler h = absurd (cc h)
service-handler_with stores (ok keys) handler h = sym (ap (λ r. (handled handler r).service) h)

module _ {D J : Type 0} (json : Json J) (db : Database D J) (driver : Driver D)
    (table : IsTable json db) ⦃order : Iteration⦄ ⦃folding : Folding⦄ where
  pub new-Mirrors : (d : D) → table.rows d ≡ empty → Mirrors json db table new_stores d
  new-Mirrors d nothing = record {
    valid = IsValid-new;
    holds = record { packs = rw nothing (Alike-empty (IsRowOf json db)) };
  }

  -- After the seeding the table holds the packs of the in-memory store after its own.
  pub seeded-Mirrors :
      (now : Time) (d d' : D)
      → table.rows d ≡ empty
      → seed (policy_pack_store json db) now (default_policy_packs "default") d ≡ (d', ok tt)
      → Mirrors json db table seeded d'
  seeded-Mirrors now d d' nothing done =
      let (s', series, v) =
        changes-Mirrors json db table _ new_stores d d' (new-Mirrors d nothing)
          (seed-Changed (policy_pack_store json db) now _ d d' done) in
      let same : s' ≡ seeded =
        ap (λ p. p.0)
          (sym (Changed-seed pack_store now _ new_stores s' series)
            ∙ seed-default_policy_packs now) in
      subst (λ s. Mirrors json db table s d') same v

  running : D × Result (Handler D) → Started D → D × Result (Handler D)
  running p (over_memory q) = p
  running p (over_database q) = q

  -- A server that started over the database: its stores were opened, then it was seeded.
  start_server_cases :
      (env : Environment) (now : Time) (d d₁ d₂ : D) (handler : Handler D)
      → (env "DATABASE_URL" == "") ≡ false
      → init_database json db driver (env "DATABASE_URL") d
        ≡ (d₁, ok (database_stores json db driver))
      → start_server json db driver env now d ≡ over_database (d₂, ok handler)
      → (seed (policy_pack_store json db) now (default_policy_packs "default") d₁ ≡ (d₂, ok tt))
        × (handler.service ≡ database_service json db default_ttl)
  unfolding start_server new_handler running
  start_server_cases env now d d₁ d₂ handler named opened started =
      let stores = database_stores json db driver in
      let began : start env stores now d₁ ≡ (d₂, ok handler) =
        ap (with_stores json db driver env now) (sym opened)
        ∙ ap (running (d₂, ok handler)) (rw named at started) in
      let (done, made) = start_cases env stores d₂ handler now d₁ began in
      (done, service-handler_with stores _ handler made)

  -- With a DATABASE_URL and an empty table of packs behind it, once the server has started, its first
  -- evaluation, of a valid event of the tenant "default" without an approval identifier, with a
  -- listing that finds its context not cancelled, denies the event, where it returns a result,
  -- exactly if the event is an access to a secret file.
  pub start_server_denies :
      (env : Environment) (now : Time) (d d₁ d₂ : D) (handler : Handler D) (at : Readings)
      (event normal : RuntimeEvent) (result : EvaluationResult)
      → (env "DATABASE_URL" == "") ≡ false
      → init_database json db driver (env "DATABASE_URL") d
        ≡ (d₁, ok (database_stores json db driver))
      → table.rows d₁ ≡ empty
      → start_server json db driver env now d ≡ over_database (d₂, ok handler)
      → at.listing ≡ none
      → normalize event ≡ ok normal
      → normal.approval_id ≡ ""
      → normal.tenant_id ≡ "default"
      → (evaluate_event handler.service at event d₂).1 ≡ ok result
      → (result.decision ≡ decision_deny)
        ↔ (matches secret_file_access (stamped at.received normal) ≡ true)
  unfolding stamped
  start_server_denies env now d d₁ d₂ handler at event normal result named opened nothing started
        calm is_normal unnamed own returned =
      let (done, service) = start_server_cases env now d d₁ d₂ handler named opened started in
      let denied =
        database_denied_iff json db table default_ttl at event normal seeded d₂ result
          (seeded-Mirrors now d₁ d₂ nothing done) calm is_normal unnamed
          (subst (λ s. (evaluate_event s at event d₂).1 ≡ ok result) service returned) in
      let matching = Denier-seeded (stamped at.received normal) own in
      (λ e. matching.0 (denied.0 e), λ e. denied.1 (matching.1 e))
