-- ===== src/Http/Confined/Handlers.antt =====
-- The handlers show what belongs to the tenants of the key.
use agent_secyrity.Prelude.{◌≡◌, inl, inr, String, true, some, Bool-cases, Option-cases}
use agent_secyrity.Keys.{HasNoNul}
use agent_secyrity.Domain.Errors.{Result, ok, err, Result-cases}
use agent_secyrity.Auth.{ApiKey, allows_tenant, is_enabled}
use agent_secyrity.Interfaces.{PackStore, ApprovalStore}
use agent_secyrity.Http.{Request, Codec, Moments, Handler, Answer, guarded, authorize_tenant}
use agent_secyrity.Http.Packs as Packs
use agent_secyrity.Http.Packs.{with_packs}
use agent_secyrity.Http.Approvals as Approvals
use agent_secyrity.Http.Approvals.{with_approvals}
use agent_secyrity.Http.Confined.{
  PackTenants, ApprovalTenants, KeepsTenants, Shown, found-Shown, saved-Shown, packs-Shown,
  approval-Shown, approvals-Shown, decision-Shown,
}

module _ {S B : Type 0} (codec : Codec B) (h : Handler S) (at : Moments) (k : ApiKey)
    (Sound : S → Type 0) (laws : KeepsTenants Sound h)
    (enabled : is_enabled h.api_keys ≡ true) where
  -- The answer shows only what belongs to the key's tenants.
  abbrev pub ShownBy : Answer S → Type 0
  ShownBy answer = Shown k answer.1.payload

  pub guarded-Shown :
      (t : String) (s : S) (rest : Answer S)
      → (allows_tenant k t ≡ true → ShownBy rest)
      → ShownBy (guarded h (some k) t s rest)
  unfolding authorize_tenant
  guarded-Shown t s rest shown = elim (Bool-cases (allows_tenant k t)) [
    | inl allowed ↦ rw (enabled, allowed) (shown allowed)
    | inr other ↦ rw (enabled, other) tt
  ]

  with_packs-Shown :
      (t : String) (s : S) (rest : PackStore S → Answer S)
      → ((store : PackStore S)
          → PackTenants Sound store
          → allows_tenant k t ≡ true
          → ShownBy (rest store))
      → ShownBy (with_packs codec h (some k) at t s rest)
  with_packs-Shown t s rest shown = elim (Option-cases h.pack_store) [
    | inl nil ↦ rw nil tt
    | inr (store, here) ↦
        rw here (guarded-Shown t s (rest store) (shown store (laws.packs store here)))
  ]

  with_approvals-Shown :
      (t : String) (s : S) (rest : ApprovalStore S → Answer S)
      → ((store : ApprovalStore S)
          → ApprovalTenants Sound store
          → allows_tenant k t ≡ true
          → ShownBy (rest store))
      → ShownBy (with_approvals codec h (some k) at t s rest)
  with_approvals-Shown t s rest shown = elim (Option-cases h.approval_store) [
    | inl nil ↦ rw nil tt
    | inr (store, here) ↦
        rw here (guarded-Shown t s (rest store) (shown store (laws.approvals store here)))
  ]

  module _ (t id : String) (s : S) (sound : Sound s) (plain : HasNoNul t) where
    pub get_policy_pack-Shown : ShownBy (Packs.get_policy_pack codec h (some k) at t id s)
    unfolding Packs.get_policy_pack
    get_policy_pack-Shown =
        with_packs-Shown t s _ λ store own allowed.
          found-Shown k t allowed _ (λ p. own.get at.first t id s p sound plain)

    pub list_policy_packs-Shown : ShownBy (Packs.list_policy_packs codec h (some k) at t s)
    unfolding Packs.list_policy_packs
    list_policy_packs-Shown =
        with_packs-Shown t s _
          λ store own allowed. packs-Shown k t allowed _ (own.list at.first t s)

    saved_after :
        (store : PackStore S)
        → PackTenants Sound store
        → allows_tenant k t ≡ true
        → (p : S × Result (Unit {0})) → Sound p.0
        → ShownBy (Packs.upserted codec h (some k) at store t id p)
          × ShownBy (Packs.switched codec h (some k) at store t id p)
    saved_after store own allowed (s', err e) sound' = (tt, tt)
    saved_after store own allowed (s', ok u) sound' =
        let shown = saved-Shown k t allowed _ (λ p. own.get at.second t id s' p sound' plain) in
        (shown, shown)

    pub upsert_policy_pack-Shown :
        (r : Request B) → ShownBy (Packs.upsert_policy_pack codec h (some k) at t id r s)
    unfolding Packs.upsert_policy_pack
    upsert_policy_pack-Shown r = with_packs-Shown t s _ λ store own allowed.
        elim (Result-cases (codec.pack r.body)) [
          | inr (e, failing) ↦ rw failing tt
          | inl (p, decoded) ↦
              rw decoded
                (saved_after store own allowed _
                  (own.upsert at.first at.first_time _ s sound plain)).0
        ]

    pub set_policy_pack_enabled-Shown :
        (r : Request B) → ShownBy (Packs.set_policy_pack_enabled codec h (some k) at t id r s)
    unfolding Packs.set_policy_pack_enabled
    set_policy_pack_enabled-Shown r = with_packs-Shown t s _ λ store own allowed.
        elim (Result-cases (codec.enabled r.body)) [
          | inr (e, failing) ↦ rw failing tt
          | inl (b, decoded) ↦
              rw decoded
                (saved_after store own allowed _
                  (own.set_enabled at.first at.first_time t id b s sound)).1
        ]

    pub get_approval-Shown : ShownBy (Approvals.get_approval codec h (some k) at t id s)
    unfolding Approvals.get_approval
    get_approval-Shown = with_approvals-Shown t s _ λ store own allowed.
        approval-Shown k t allowed _ (λ q. own.get at.first t id s q sound plain)

    pub list_approvals-Shown : ShownBy (Approvals.list_approvals codec h (some k) at t s)
    unfolding Approvals.list_approvals
    list_approvals-Shown =
        with_approvals-Shown t s _
          λ store own allowed. approvals-Shown k t allowed _ (own.list at.first t _ s)

    pub decide_approval-Shown :
        (r : Request B) → ShownBy (Approvals.decide_approval codec h (some k) at t id r s)
    unfolding Approvals.decide_approval
    decide_approval-Shown r = with_approvals-Shown t s _ λ store own allowed.
        elim (Result-cases (codec.decision r.body)) [
          | inr (e, failing) ↦ rw failing tt
          | inl (p, decoded) ↦ rw decoded (
              decision-Shown k t allowed _
                (λ q. own.decide at.first at.first_time t id _ s q sound plain))
        ]
