-- ===== src/Server/Seeding.antt =====
-- The server after its start, over the in-memory stores.
use mathlib.Core.Logic.{∥∥₁_elim}
use mathlib.Core.Path.{subst}
use agent_secyrity.Prelude.{
  ◌≡◌, ◌≢◌, ◌↔◌, ◌⊎◌, refl, sym, ap, ◌∙◌, inl, inr, String, Bool, true, false, none, some, List, [],
  ◌∷◌, ◌==◌, arith,
}
use agent_secyrity.Strings.{Folding, is_blank, equal_fold_refl, trim_space}
use agent_secyrity.Maps.{Iteration, lookup, insert, insert_cases, lookup-empty}
use agent_secyrity.Keys.{key}
use agent_secyrity.Domain.{
  RuntimeEvent, Policy, PolicyPack, Time, decision_deny, decision_require_approval, decision_redact,
  EvaluationResult,
}
use agent_secyrity.Domain.Event.{normalize}
use agent_secyrity.Domain.Errors.{ok, Result}
use agent_secyrity.Policy.Matching.{matches, same_text}
use agent_secyrity.Policy.Engine.{applies}
use agent_secyrity.Policy.Packs.{inherit}
use agent_secyrity.PolicyPack.{MemoryStore, new_memory_store, upsert, get, with_defaults, assign}
use agent_secyrity.PolicyPack.Invariant.{IsValid, IsValid-new, upsert-IsValid}
use agent_secyrity.Auth.{ApiKeyConfig, parse_api_keys}
use agent_secyrity.Runtime.{Readings, stamped, default_ttl, evaluate_event}
use agent_secyrity.Runtime.Memory.{Stores, memory_service, pack_store}
use agent_secyrity.Runtime.Denial.{Denier, DeniesIn, denied_iff}
use agent_secyrity.Http.{Handler}
use agent_secyrity.Http.Memory.{memory_handler}
use agent_secyrity.Baseline.{
  secret_file_access, secret_file_policy, code_repository_pack, customer_support_pack,
  finance_operations_pack, data_analysis_pack, default_policy_packs,
}
use agent_secyrity.Baseline.Verdicts.{applies_of_tenant}
use agent_secyrity.Server.{Environment, memory_stores, new_stores, seed, new_handler, start}

abbrev stored : PolicyPack → MemoryStore → MemoryStore
stored pack s = record { packs = insert (key pack.tenant_id pack.id) (with_defaults pack) s.packs }

upsert-eq :
    (pack : PolicyPack) (s : MemoryStore)
    → (pack.tenant_id == "") ≡ false
    → (pack.id == "") ≡ false
    → upsert none pack s ≡ (stored pack s, ok tt)
unfolding upsert
upsert-eq pack s named filled = rw (named, filled) refl

-- The packs after the loop over the baseline packs of a tenant.
abbrev seeded_packs : MemoryStore
seeded_packs = stored (data_analysis_pack "default") (
    stored (finance_operations_pack "default") (
      stored (customer_support_pack "default")
        (stored (code_repository_pack "default") new_memory_store)))

identified :
    (((code_repository_pack "default").tenant_id == "") ≡ false)
    × (((code_repository_pack "default").id == "") ≡ false)
    × (((customer_support_pack "default").tenant_id == "") ≡ false)
    × (((customer_support_pack "default").id == "") ≡ false)
    × (((finance_operations_pack "default").tenant_id == "") ≡ false)
    × (((finance_operations_pack "default").id == "") ≡ false)
    × (((data_analysis_pack "default").tenant_id == "") ≡ false)
    × (((data_analysis_pack "default").id == "") ≡ false)
unfolding code_repository_pack customer_support_pack finance_operations_pack data_analysis_pack
identified = (refl, refl, refl, refl, refl, refl, refl, refl)

abbrev pub seeded : Stores
seeded = record new_stores { packs = seeded_packs }

module _ ⦃order : Iteration⦄ where
  seed_step :
      (now : Time) (pack : PolicyPack) (rest : List PolicyPack) (s : Stores)
      → (pack.tenant_id == "") ≡ false
      → (pack.id == "") ≡ false
      → seed pack_store now (pack ∷ rest) s
        ≡ seed pack_store now rest (record s { packs = stored pack s.packs })
  unfolding seed
  seed_step now pack rest s named filled = rw (upsert-eq pack s.packs named filled) refl

  seed_done : (now : Time) (s : Stores) → seed pack_store now [] s ≡ (s, ok tt)
  unfolding seed
  seed_done now s = refl

  -- The loop over the baseline packs succeeds.
  pub seed-default_policy_packs :
      (now : Time)
      → seed pack_store now (default_policy_packs "default") new_stores ≡ (seeded, ok tt)
  unfolding default_policy_packs
  seed-default_policy_packs now =
      let (a, b, c, d, e, f, g, h) = identified in
      let after_code = stored (code_repository_pack "default") new_memory_store in
      let after_support = stored (customer_support_pack "default") after_code in
      let after_finance = stored (finance_operations_pack "default") after_support in
      seed_step now (code_repository_pack "default") _ new_stores a b
      ∙ seed_step now (customer_support_pack "default") _ (record new_stores { packs = after_code })
          c d
      ∙ seed_step now (finance_operations_pack "default") _
          (record new_stores { packs = after_support }) e f
      ∙ seed_step now (data_analysis_pack "default") []
          (record new_stores { packs = after_finance }) g h
      ∙ seed_done now _

stored-IsValid :
    (pack : PolicyPack) (s : MemoryStore)
    → (pack.tenant_id == "") ≡ false
    → (pack.id == "") ≡ false
    → IsValid s
    → IsValid (stored pack s)
stored-IsValid pack s named filled valid =
    subst (λ p. IsValid p.0) (upsert-eq pack s named filled) (upsert-IsValid none pack s valid)

IsValid-seeded_packs : IsValid seeded_packs
IsValid-seeded_packs =
    let (a, b, c, d, e, f, g, h) = identified in
    stored-IsValid _ _ g h
      (stored-IsValid _ _ e f (stored-IsValid _ _ c d (stored-IsValid _ _ a b IsValid-new)))

lookup_of_get :
    (tenant_id id : String) (pack : PolicyPack) (s : MemoryStore)
    → get none tenant_id id s ≡ ok pack
    → lookup (key tenant_id id) s.packs ≡ some pack
unfolding get
lookup_of_get tenant_id id pack s h = ground arith

found :
    (id : String) (pack : PolicyPack)
    → get none "default" id seeded_packs ≡ ok pack
    → (pack ≡ with_defaults (code_repository_pack "default"))
      ⊎ ((pack ≡ with_defaults (customer_support_pack "default"))
          ⊎ ((pack ≡ with_defaults (finance_operations_pack "default"))
              ⊎ (pack ≡ with_defaults (data_analysis_pack "default"))))
found id pack h =
    elim (insert_cases _ _ _ pack _ (lookup_of_get "default" id pack seeded_packs h)) [
      | inl (k, same) ↦ inr (inr (inr (sym same)))
      | inr m ↦ elim (insert_cases _ _ _ pack _ m) [
        | inl (k, same) ↦ inr (inr (inl (sym same)))
        | inr m' ↦ elim (insert_cases _ _ _ pack _ m') [
          | inl (k, same) ↦ inr (inl (sym same))
          | inr m'' ↦ elim (insert_cases _ _ _ pack _ m'') [
            | inl (k, same) ↦ inl (sym same)
            | inr nothing ↦ absurd (cc (nothing, lookup-empty {V = PolicyPack} (key "default" id)))
          ]
        ]
      ]
    ]

code_stored :
    get none "default" (code_repository_pack "default").id seeded_packs
    ≡ ok (with_defaults (code_repository_pack "default"))
unfolding get lookup insert key code_repository_pack customer_support_pack finance_operations_pack
    data_analysis_pack
code_stored = refl

default_filled : is_blank "default" ≡ false
unfolding is_blank trim_space
default_filled = refl

different : (decision_require_approval ≢ decision_deny) × (decision_redact ≢ decision_deny)
different = (λ e. cc e, λ e. cc e)

module _ ⦃order : Iteration⦄ ⦃folding : Folding⦄ (event : RuntimeEvent)
    (own : event.tenant_id ≡ "default") where
  same_default : same_text "default" event.tenant_id ≡ true
  same_default = rw own (equal_fold_refl (trim_space "default"))

  applies_default :
      (pack : PolicyPack) (p : Policy)
      → pack.tenant_id ≡ "default"
      → p.tenant_id ≡ "default"
      → p.enabled ≡ true
      → applies event (inherit (with_defaults pack) (assign pack p)) ≡ matches p.conditions event
  unfolding assign
  applies_default pack p tenant tenant' enabled =
      applies_of_tenant event (with_defaults pack) (assign pack p) "default" default_filled
        same_default (rw (tenant, tenant') refl) enabled

  DeniesIn-seeded :
      (pack : PolicyPack)
      → get none "default" pack.id seeded_packs ≡ ok pack
      → DeniesIn event pack
      → matches secret_file_access event ≡ true
  unfolding code_repository_pack customer_support_pack finance_operations_pack data_analysis_pack
      assign
  DeniesIn-seeded pack here hit = elim (found pack.id pack here) [
    | inl code ↦ elim (subst (DeniesIn event) code hit) [
      | inl (applied, denies) ↦
          sym (
            applies_default (code_repository_pack "default") (secret_file_policy "default") refl
              refl refl)
          ∙ applied
      | inr (inl (applied, denies)) ↦ absurd (different.0 denies)
      | inr (inr nothing) ↦ absurd nothing
    ]
    | inr (inl support) ↦ elim (subst (DeniesIn event) support hit) [
      | inl (applied, denies) ↦ absurd (different.1 denies)
      | inr (inl (applied, denies)) ↦ absurd (different.0 denies)
      | inr (inr nothing) ↦ absurd nothing
    ]
    | inr (inr (inl finance)) ↦ elim (subst (DeniesIn event) finance hit) [
      | inl (applied, denies) ↦ absurd (different.0 denies)
      | inr nothing ↦ absurd nothing
    ]
    | inr (inr (inr data_analysis)) ↦ elim (subst (DeniesIn event) data_analysis hit) [
      | inl (applied, denies) ↦ absurd (different.0 denies)
      | inr nothing ↦ absurd nothing
    ]
  ]

  Denier-code :
      matches secret_file_access event ≡ true
      → Denier event seeded_packs (with_defaults (code_repository_pack "default"))
  unfolding code_repository_pack assign
  Denier-code hit = (
    refl,
    sym own,
    code_stored,
    inl (
      applies_default (code_repository_pack "default") (secret_file_policy "default") refl refl refl
          ∙ hit,
      refl,
    ),
  )

  Bool_set : IsSet Bool
  Bool_set = hlevel

  pub Denier-seeded :
      ∥ ((pack : PolicyPack) × Denier event seeded_packs pack) ∥₁
      ↔ (matches secret_file_access event ≡ true)
  Denier-seeded = (
    λ t. ∥∥₁_elim t (Bool_set _ _) λ (pack, (on, tenant, here, hit)).
        DeniesIn-seeded pack (ap (λ u. get none u pack.id seeded_packs) (sym (tenant ∙ own)) ∙ here)
          hit,
    λ hit. ∣ (with_defaults (code_repository_pack "default"), Denier-code hit) ∣₁,
  )

module _ ⦃order : Iteration⦄ ⦃folding : Folding⦄ (env : Environment) (keys : ApiKeyConfig)
    (now : Time) (configured : parse_api_keys (env "AGENT_SECURITY_API_KEYS") ≡ ok keys) where
  start-eq : start env memory_stores now new_stores ≡ (seeded, ok (memory_handler keys default_ttl))
  unfolding start new_handler
  start-eq = rw (seed-default_policy_packs now, configured) refl

  -- The server starts over the in-memory stores if its keys can be parsed, and its first evaluation,
  -- of a valid event of the tenant "default" without an approval identifier, with a listing of the
  -- packs that is not cancelled, denies the event, where it returns a result, exactly if the event is
  -- an access to a secret file.
  pub start_denies :
      (at : Readings) (event normal : RuntimeEvent) (result : EvaluationResult) (s : Stores)
      (started : Result (Handler Stores))
      → at.listing ≡ none
      → normalize event ≡ ok normal
      → normal.approval_id ≡ ""
      → normal.tenant_id ≡ "default"
      → start env memory_stores now new_stores ≡ (s, started)
      → (evaluate_event (memory_service default_ttl) at event s).1 ≡ ok result
      → (started ≡ ok (memory_handler keys default_ttl))
        × ((result.decision ≡ decision_deny)
            ↔ (matches secret_file_access (stamped at.received normal) ≡ true))
  unfolding stamped
  start_denies at event normal result s started calm is_normal unnamed own begun returned =
      let at_start = sym start-eq ∙ begun in
      let first =
        subst (λ u. (evaluate_event (memory_service default_ttl) at event u).1 ≡ ok result)
          (sym (ap (λ p. p.0) at_start)) returned in
      let denied =
        denied_iff default_ttl at event normal seeded result IsValid-seeded_packs calm is_normal
          unnamed first in
      let matching = Denier-seeded (stamped at.received normal) own in
      (sym (ap (λ p. p.1) at_start), (λ d. matching.0 (denied.0 d), λ m. denied.1 (matching.1 m)))
