-- ===== src/Http/Confined/Runs.antt =====
-- Any series of requests to the server over the in-memory stores, from its start on.
use agent_secyrity.Prelude.{◌≡◌, true, none, List, [], ◌∷◌, All, inl, inr, arith}
use agent_secyrity.Prelude.Int.{ℤ}
use agent_secyrity.Strings.{Folding}
use agent_secyrity.Maps.{Iteration}
use agent_secyrity.Domain.Errors.{ok, Result-cases}
use agent_secyrity.Auth.{ApiKey, ApiKeyConfig, authenticate_request, is_enabled}
use agent_secyrity.Runtime.Memory.{Stores, pack_store}
use agent_secyrity.Domain.{Time, PolicyPack}
use agent_secyrity.PolicyPack as Packs
use agent_secyrity.Baseline.{
  code_repository_pack, customer_support_pack, finance_operations_pack, data_analysis_pack,
  default_policy_packs,
}
use agent_secyrity.Keys.{HasNoNul}
use agent_secyrity.Server.{Environment, memory_stores, new_stores, seed, start}
use agent_secyrity.Http.{Request, Codec, Moments}
use agent_secyrity.Http.Memory.{memory_handler}
use agent_secyrity.Http.Access.{IsPlain}
use agent_secyrity.Http.Router.{serve}
use agent_secyrity.Http.Confined.{Shown}
use agent_secyrity.Http.Effects.{
  Effect, kept, upserted_pack, switched_pack, evaluated, decided_request, serve-Effect,
}
use agent_secyrity.Http.Confined.Serve.{serve-Shown}
use agent_secyrity.Http.Confined.Sound.{IsSound, IsSound-new, upsert-IsSound, set_enabled-IsSound}
use agent_secyrity.Http.Confined.Keeping.{decide-IsSound, evaluate_event-IsSound}
use agent_secyrity.Http.Confined.Stores.{KeepsTenants-memory}

Effect-IsSound :
    ⦃order : Iteration⦄ ⦃folding : Folding⦄ (ttl : ℤ) (s s' : Stores)
    → Effect ttl s s'
    → IsSound s
    → IsSound s'
Effect-IsSound ttl _ _ (kept s) sound = sound
Effect-IsSound ttl _ _ (upserted_pack s ctx pack plain) sound =
    upsert-IsSound ctx pack s sound plain
Effect-IsSound ttl _ _ (switched_pack s ctx t id enabled) sound =
    set_enabled-IsSound ctx t id enabled s sound
Effect-IsSound ttl _ _ (evaluated s at event plain) sound =
    evaluate_event-IsSound ttl at event s plain sound
Effect-IsSound ttl _ _ (decided_request s ctx clock t id input) sound =
    decide-IsSound ctx clock t id input s sound

seed-IsSound :
    ⦃order : Iteration⦄ (now : Time) (packs : List PolicyPack) (s : Stores)
    → All (λ p. HasNoNul p.tenant_id) packs
    → IsSound s
    → IsSound (seed pack_store now packs s).0
unfolding seed
seed-IsSound now [] s plain sound = sound
seed-IsSound now (pack ∷ packs) s (here, rest) sound =
    let kept = upsert-IsSound none pack s sound here in
    elim (Result-cases (Packs.upsert none pack s.packs).1) [
      | inr (e, failed) ↦ rw failed kept
      | inl (u, done) ↦ rw done (seed-IsSound now packs _ rest kept)
    ]

-- The stores with which main begins to listen.
start-IsSound :
    ⦃order : Iteration⦄ (env : Environment) (now : Time)
    → IsSound (start env memory_stores now new_stores).0
unfolding start default_policy_packs code_repository_pack customer_support_pack
    finance_operations_pack data_analysis_pack
start-IsSound env now =
    let packs = default_policy_packs "default" in
    let kept =
      seed-IsSound now packs new_stores
        (omega arith, (omega arith, (omega arith, (omega arith, tt)))) IsSound-new in
    elim (Result-cases (seed pack_store now packs new_stores).1) [
      | inr (e, failed) ↦ rw failed kept
      | inl (u, done) ↦ rw done kept
    ]

module _ {B : Type 0} (codec : Codec B) ⦃order : Iteration⦄ ⦃folding : Folding⦄
    (keys : ApiKeyConfig) (ttl : ℤ) where
  -- The states that requests lead to, one after the other, about no tenant with a NUL character: from
  -- the stores with which main begins to listen, or from empty ones.
  pub data Served : Stores → Type 0 where
    started : (env : Environment) (now : Time) → Served (start env memory_stores now new_stores).0
    empty : Served new_stores
    served :
        (s : Stores) (at : Moments) (r : Request B)
        → Served s
        → IsPlain codec (memory_handler keys ttl) at r
        → Served (serve codec (memory_handler keys ttl) at r s).0

  Served-IsSound : (s : Stores) → Served s → IsSound s
  Served-IsSound _ (started env now) = start-IsSound env now
  Served-IsSound _ empty = IsSound-new
  Served-IsSound _ (served s at r past plain) =
      Effect-IsSound ttl s _ (serve-Effect codec keys ttl at r s plain) (Served-IsSound s past)

  -- With keys configured, whatever requests came before since main began to listen, with the baseline
  -- packs in the in-memory stores, or since these were empty, the response to a request with a configured
  -- key shows no pack, approval request or audit record of a tenant that the key may not use, where
  -- no tenant that this or an earlier request is about has a NUL character.
  pub Served-Shown :
      (at : Moments) (r : Request B) (s : Stores) (k : ApiKey)
      → is_enabled keys ≡ true
      → Served s
      → IsPlain codec (memory_handler keys ttl) at r
      → authenticate_request keys r.authorization ≡ ok k
      → Shown k (serve codec (memory_handler keys ttl) at r s).1.payload
  Served-Shown at r s k enabled past plain known =
      serve-Shown codec (memory_handler keys ttl) at IsSound (KeepsTenants-memory keys ttl) enabled
        r s k (Served-IsSound s past) plain known
