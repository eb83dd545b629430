-- ===== src/Postgres/Service.antt =====
-- The server over PostgreSQL, beside the one over the in-memory stores: the same changes of policy
-- packs, then the evaluation of an event.
use agent_secyrity.Prelude.{
  refl, ◌≡◌, ◌↔◌, sym, ap, ◌∙◌, inl, inr, String, Bool, none, some, List, [], ◌∷◌,
}
use agent_secyrity.Prelude.Int.{ℤ}
use agent_secyrity.Strings.{Folding}
use agent_secyrity.Maps.{Iteration}
use agent_secyrity.Domain.{RuntimeEvent, PolicyPack, Time, EvaluationResult, decision_deny}
use agent_secyrity.Domain.Event.{normalize}
use agent_secyrity.Domain.Errors.{Result, ok, Result-cases, background}
use agent_secyrity.Interfaces.{PackStore}
use agent_secyrity.Policy.Matching.{matches, matches_tenant}
use agent_secyrity.Policy.Engine.{Engine, evaluate, applies}
use agent_secyrity.Policy.Packs.{new_engine_from_packs}
use agent_secyrity.Policy.Packs.Order.{packs_decision_perm}
use agent_secyrity.PolicyPack.{MemoryStore}
use agent_secyrity.PolicyPack.Invariant.{IsValid, upsert-IsValid, set_enabled-IsValid}
use agent_secyrity.PolicyPack.Listing.{packs_of}
use agent_secyrity.PolicyPack as Memory
use agent_secyrity.Runtime.{Service, Readings, stamped, choose_engine, evaluate_event}
use agent_secyrity.Runtime.Memory.{Stores, memory_service, pack_store}
use agent_secyrity.Runtime.Denial.{
  Denier, packs_deny-Denier, decided_by_engine, choose_engine-enabled,
}
use agent_secyrity.Postgres.{Json, Database}
use agent_secyrity.Postgres.Packs.{policy_pack_store, list_enabled}
use agent_secyrity.Postgres.Audits.{audit_store}
use agent_secyrity.Postgres.Approvals.{approval_store}
use agent_secyrity.Postgres.Tables.{IsTable, Holds}
use agent_secyrity.Postgres.Writes.{upsert-Holds, set_enabled-Holds}
use agent_secyrity.Postgres.Enabled.{list_enabled-Holds}

-- A change of the policy packs, at a time of the clock.
pub data Change : Type 0 where
  put : Time → PolicyPack → Change
  switch : Time → String → String → Bool → Change

module _ {S : Type 0} where
  abbrev pub change : PackStore S → Change → S → S × Result (Unit {0})
  change store (put now pack) s = store.upsert background now pack s
  change store (switch now tenant_id id enabled) s =
      store.set_enabled background now tenant_id id enabled s

  -- The states that a series of successful changes leads to.
  pub data Changed (store : PackStore S) : List Change → S → S → Type 0 where
    unchanged : (s : S) → Changed store [] s s
    changed :
        (c : Change) (cs : List Change) (s s' s'' : S)
        → change store c s ≡ (s', ok tt)
        → Changed store cs s' s''
        → Changed store (c ∷ cs) s s''

module _ {D J : Type 0} (json : Json J) (db : Database D J) where
  -- NewServiceWithOptions, with the three stores on PostgreSQL
  abbrev pub database_service : ℤ → Service D
  database_service ttl = record {
    engine = none;
    pack_store = some (policy_pack_store json db);
    store = audit_store json db;
    approval_store = some (approval_store json db);
    approval_ttl = ttl;
  }

  module _ ⦃order : Iteration⦄ (table : IsTable json db) where
    -- The in-memory state, whose packs are valid, and whose packs the table holds.
    pub record Mirrors (s : Stores) (d : D) : Type 0 where
      pub valid : IsValid s.packs
      pub holds : Holds json db table s.packs d

    change-Mirrors :
        (c : Change) (s : Stores) (d d' : D)
        → Mirrors s d
        → change (policy_pack_store json db) c d ≡ (d', ok tt)
        → (s' : Stores) × (change pack_store c s ≡ (s', ok tt)) × Mirrors s' d'
    change-Mirrors (put now pack) s d d' v done =
        let (fine, kept) = upsert-Holds json db table none now s.packs d d' v.holds pack done in
        (
          record s { packs = (Memory.upsert none pack s.packs).0 },
          ap (λ r. (record s { packs = (Memory.upsert none pack s.packs).0 }, r)) fine,
          record { valid = upsert-IsValid none pack s.packs v.valid; holds = kept },
        )
    change-Mirrors (switch now t i b) s d d' v done =
        let (fine, kept) =
          set_enabled-Holds json db table none now s.packs d d' v.holds t i b v.valid done in
        (
          record s { packs = (Memory.set_enabled none t i b s.packs).0 },
          ap (λ r. (record s { packs = (Memory.set_enabled none t i b s.packs).0 }, r)) fine,
          record { valid = set_enabled-IsValid none t i b s.packs v.valid; holds = kept },
        )

    -- A series of changes that succeeds on the database succeeds on the in-memory store, and the
    -- table then holds the packs of the in-memory store.
    pub changes-Mirrors :
        (cs : List Change) (s : Stores) (d d' : D)
        → Mirrors s d
        → Changed (policy_pack_store json db) cs d d'
        → (s' : Stores) × Changed pack_store cs s s' × Mirrors s' d'
    changes-Mirrors _ s _ _ v (unchanged d) = (s, unchanged s, v)
    changes-Mirrors _ s _ _ v (changed c cs d d' d'' done rest) =
        let (s', first, v') = change-Mirrors c s d d' v done in
        let (s'', others, v'') = changes-Mirrors cs s' d' d'' v' rest in
        (s'', changed c cs s s' s'' first others, v'')

module _ ⦃order : Iteration⦄ ⦃folding : Folding⦄ {D J : Type 0} (json : Json J) (db : Database D J)
    (table : IsTable json db) where
  database_engine :
      (ttl : ℤ) (tenant_id : String) (d : D) (engine : Engine)
      → choose_engine (database_service json db ttl) none tenant_id d ≡ ok engine
      → (packs : List PolicyPack) × (list_enabled json db none tenant_id d ≡ ok packs)
        × (new_engine_from_packs packs ≡ engine)
  unfolding choose_engine
  database_engine ttl tenant_id d engine chosen =
      elim (Result-cases (list_enabled json db none tenant_id d)) [
        | inr (e, failing) ↦ absurd (cc (rw (choose_engine, failing) at chosen))
        | inl (packs, listed) ↦ (packs, listed, cc (rw (choose_engine, listed) at chosen))
      ]

  -- The engines that the two services choose for a tenant decide every event alike.
  engines_alike :
      (ttl ttl' : ℤ) (tenant_id : String) (event : RuntimeEvent) (s : Stores) (d : D)
      (engine engine' : Engine)
      → Mirrors json db table s d
      → choose_engine (database_service json db ttl) none tenant_id d ≡ ok engine
      → choose_engine (memory_service ttl') none tenant_id s ≡ ok engine'
      → (evaluate engine event).decision ≡ (evaluate engine' event).decision
  engines_alike ttl ttl' tenant_id event s d engine engine' v chosen chosen' =
      let (packs, listed, made) = database_engine ttl tenant_id d engine chosen in
      let stored = packs_of (Memory.list_enabled none tenant_id s.packs) in
      let made' : new_engine_from_packs stored ≡ engine' =
        cc (choose_engine-enabled ttl' tenant_id s, chosen') in
      ap (λ e. (evaluate e event).decision) (sym made)
      ∙ packs_decision_perm event packs stored
          (list_enabled-Holds json db table s.packs d tenant_id packs v.holds listed)
      ∙ ap (λ e. (evaluate e event).decision) made'

  -- No policy reads the time that an event is stamped with.
  evaluate-stamped :
      (engine : Engine) (t t' : Time) (normal : RuntimeEvent)
      → evaluate engine (stamped t normal) ≡ evaluate engine (stamped t' normal)
  unfolding evaluate applies matches matches_tenant stamped
  evaluate-stamped engine t t' normal = refl

  -- Where the table holds the packs of the in-memory store, and neither listing finds its context
  -- cancelled, the service over PostgreSQL and the one over the in-memory stores decide an event
  -- without an approval identifier alike, if both return a result, whatever their clocks say.
  pub decides_alike :
      (ttl ttl' : ℤ) (at at' : Readings) (event normal : RuntimeEvent) (s : Stores) (d : D)
      (result result' : EvaluationResult)
      → Mirrors json db table s d
      → at.listing ≡ none
      → at'.listing ≡ none
      → normalize event ≡ ok normal
      → normal.approval_id ≡ ""
      → (evaluate_event (database_service json db ttl) at event d).1 ≡ ok result
      → (evaluate_event (memory_service ttl') at' event s).1 ≡ ok result'
      → result.decision ≡ result'.decision
  decides_alike ttl ttl' at at' event normal s d result result' v calm calm' is_normal unnamed
        returned returned' =
      let tenant_id = normal.tenant_id in
      let (engine, chosen, decided) =
        decided_by_engine (database_service json db ttl) at event normal d result is_normal unnamed
          returned in
      let (engine', chosen', decided') =
        decided_by_engine (memory_service ttl') at' event normal s result' is_normal unnamed
          returned' in
      decided
      ∙ engines_alike ttl ttl' tenant_id _ s d engine engine' v
          (ap (λ ctx. choose_engine (database_service json db ttl) ctx tenant_id d) (sym calm)
            ∙ chosen)
          (ap (λ ctx. choose_engine (memory_service ttl') ctx tenant_id s) (sym calm') ∙ chosen')
      ∙ ap (λ r. r.decision) (evaluate-stamped engine' at.received at'.received normal)
      ∙ sym decided'

  -- Where the table holds the packs of a valid in-memory store, the service over PostgreSQL denies an
  -- event without an approval identifier, where it returns a result, exactly if an enabled pack that
  -- the in-memory store finds for the tenant denies it.
  pub database_denied_iff :
      (ttl : ℤ) (at : Readings) (event normal : RuntimeEvent) (s : Stores) (d : D)
      (result : EvaluationResult)
      → Mirrors json db table s d
      → at.listing ≡ none
      → normalize event ≡ ok normal
      → normal.approval_id ≡ ""
      → (evaluate_event (database_service json db ttl) at event d).1 ≡ ok result
      → (result.decision ≡ decision_deny)
        ↔ ∥ ((pack : PolicyPack) × Denier (stamped at.received normal) s.packs pack) ∥₁
  unfolding stamped
  database_denied_iff ttl at event normal s d result v calm is_normal unnamed returned =
      let tenant_id = normal.tenant_id in
      let arrived = stamped at.received normal in
      let (engine, chosen, decided) =
        decided_by_engine (database_service json db ttl) at event normal d result is_normal unnamed
          returned in
      let same =
        engines_alike ttl ttl tenant_id arrived s d engine _ v
          (ap (λ ctx. choose_engine (database_service json db ttl) ctx tenant_id d) (sym calm)
            ∙ chosen)
          (choose_engine-enabled ttl tenant_id s) in
      rw (decided ∙ same) (packs_deny-Denier arrived s.packs v.valid)
