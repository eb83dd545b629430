-- ===== src/Http/Finality.antt =====
-- A decided approval request, through any requests to the server over the in-memory stores.
use agent_secyrity.Prelude.{ℕ, ◌+◌, ◌^◌, ◌<◌, ◌≡◌, ◌≢◌, refl, String, none, arith}
use agent_secyrity.Prelude.Int.{ℤ}
use agent_secyrity.Strings.{Folding}
use agent_secyrity.Maps.{Iteration}
use agent_secyrity.Keys.{key}
use agent_secyrity.Domain.{ApprovalRequest, approval_status_pending}
use agent_secyrity.Domain.Errors.{ok}
use agent_secyrity.Auth.{ApiKeyConfig}
use agent_secyrity.Approval.{get}
use agent_secyrity.Approval.Fresh.{IsValid}
use agent_secyrity.Approval.History.{run_keeps_settled}
use agent_secyrity.Runtime.Memory.{Stores}
use agent_secyrity.Http.{Request, Codec, Moments}
use agent_secyrity.Http.Memory.{memory_handler}
use agent_secyrity.Http.Access.{IsPlain}
use agent_secyrity.Http.Router.{serve}
use agent_secyrity.Http.Effects.{
  Effect, kept, upserted_pack, switched_pack, evaluated, decided_request, serve-Effect,
}
use agent_secyrity.Http.Confined.Sound.{request_found}
use agent_secyrity.Http.Settled.{
  Changed, Changed-same, Changed-trans, Changed-decide, evaluate_event-Changed,
}

Effect-Changed :
    ⦃order : Iteration⦄ ⦃folding : Folding⦄ (ttl : ℤ) (s s' : Stores)
    → Effect ttl s s'
    → Changed 1 s.approvals s'.approvals
Effect-Changed ttl _ _ (kept s) = Changed-same 1 s.approvals
Effect-Changed ttl _ _ (upserted_pack s ctx pack plain) = Changed-same 1 s.approvals
Effect-Changed ttl _ _ (switched_pack s ctx t id enabled) = Changed-same 1 s.approvals
Effect-Changed ttl _ _ (evaluated s at event plain) = evaluate_event-Changed ttl at event s plain
Effect-Changed ttl _ _ (decided_request s ctx clock t id input) =
    Changed-decide ctx clock t id input s.approvals

module _ {B : Type 0} (codec : Codec B) ⦃order : Iteration⦄ ⦃folding : Folding⦄
    (keys : ApiKeyConfig) (ttl : ℤ) where
  -- `n` requests lead from one state to another, each about a tenant without a NUL character.
  pub data Requests : ℕ → Stores → Stores → Type 0 where
    no_requests : (s : Stores) → Requests 0 s s
    one_more :
        (n : ℕ) (s s' : Stores) (at : Moments) (r : Request B)
        → Requests n s s'
        → IsPlain codec (memory_handler keys ttl) at r
        → Requests (n + 1) s (serve codec (memory_handler keys ttl) at r s').0

  Requests-Changed : (n : ℕ) (s s' : Stores) → Requests n s s' → Changed n s.approvals s'.approvals
  Requests-Changed _ _ _ (no_requests s) = Changed-same 0 s.approvals
  Requests-Changed _ _ _ (one_more n s s' at r past plain) =
      Changed-trans n 1 s.approvals s'.approvals _ (Requests-Changed n s s' past)
        (Effect-Changed ttl s' _ (serve-Effect codec keys ttl at r s' plain))

  -- An approval request that has a verdict, or has expired, is what Get returns for it after any
  -- requests to the server, whoever makes them and whether they fail or not, from a store of
  -- generated identifiers, as long as the number of requests leaves the counter below 2^64 and
  -- each is about a tenant without a NUL character.
  pub Requests-keep_settled :
      (n : ℕ) (s s' : Stores) (t id : String) (r : ApprovalRequest)
      → Requests n s s'
      → IsValid s.approvals
      → s.approvals.counter + n < 2 ^ 64
      → get none t id s.approvals ≡ ok r
      → r.status ≢ approval_status_pending
      → (get none t id s'.approvals ≡ ok r) × IsValid s'.approvals
  unfolding get
  Requests-keep_settled n s s' t id r past valid room found settled =
      let c = Requests-Changed n s s' past in
      let (still, valid') =
        run_keeps_settled c.calls s.approvals (key t id) r c.ordinary valid
          (omega (arith, room, c.few)) (request_found _ r found) settled in
      rw c.result (rw still refl, valid')
