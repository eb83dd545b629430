-- ===== src/Http/Packs.antt =====
-- The handlers of internal/transport/httpapi/handler.go for policy packs.
use agent_secyrity.Prelude.{String, Bool, Option, none, some, List, if◌then◌else◌}
use agent_secyrity.Domain.{PolicyPack}
use agent_secyrity.Domain.Errors.{Error, is_policy_pack_not_found, Result, ok, err}
use agent_secyrity.Interfaces.{PackStore}
use agent_secyrity.Auth.{ApiKey}
use agent_secyrity.Http.{
  Request, Codec, Moments, text, error_text, policy_pack, policy_packs, Response, write_json,
  write_error, Handler, Answer, guarded,
}

abbrev pub pack_store_disabled : Response
pack_store_disabled =
    write_error 501 "policy_pack_store_disabled" (text "policy pack store is not configured")

-- A failed call on one pack: 404 where the pack is missing.
abbrev pack_failed : String → Error → Response
pack_failed code e =
    write_error (if is_policy_pack_not_found e then 404 else 500) code (error_text e)

-- the pack that Get reads after a write
abbrev pub saved : Result PolicyPack → Response
saved (ok pack) = write_json 200 (policy_pack pack)
saved (err e) = write_error 500 "policy_pack_get_failed" (error_text e)

abbrev pub found : Result PolicyPack → Response
found (ok pack) = write_json 200 (policy_pack pack)
found (err e) = pack_failed "policy_pack_get_failed" e

abbrev pub listed : Result (List PolicyPack) → Response
listed (ok packs) = write_json 200 (policy_packs packs)
listed (err e) = write_error 500 "policy_pack_list_failed" (error_text e)

module _ {S B : Type 0} (codec : Codec B) (h : Handler S) (key : Option ApiKey) (at : Moments) where
  -- The handlers start alike: a store is configured, and the key may use the tenant.
  abbrev pub with_packs : String → S → (PackStore S → Answer S) → Answer S
  with_packs tenant_id s rest = elim h.pack_store [
    | none ↦ (s, pack_store_disabled)
    | some packs ↦ guarded h key tenant_id s (rest packs)
  ]

  abbrev pub upserted : PackStore S → String → String → S × Result (Unit {0}) → Answer S
  upserted packs tenant_id pack_id (s, err e) =
      (s, write_error 400 "policy_pack_upsert_failed" (error_text e))
  upserted packs tenant_id pack_id (s, ok u) = (s, saved (packs.get at.second tenant_id pack_id s))

  abbrev pub upsert_decoded : PackStore S → String → String → S → Result PolicyPack → Answer S
  upsert_decoded packs tenant_id pack_id s (err e) =
      (s, write_error 400 "invalid_json" (error_text e))
  upsert_decoded packs tenant_id pack_id s (ok pack) =
      upserted packs tenant_id pack_id (
        packs.upsert at.first at.first_time (record pack { tenant_id = tenant_id; id = pack_id }) s)

  unfoldable pub upsert_policy_pack : String → String → Request B → S → Answer S
  upsert_policy_pack tenant_id pack_id r s =
      with_packs tenant_id s λ packs. upsert_decoded packs tenant_id pack_id s (codec.pack r.body)

  unfoldable pub list_policy_packs : String → S → Answer S
  list_policy_packs tenant_id s =
      with_packs tenant_id s λ packs. (s, listed (packs.list at.first tenant_id s))

  unfoldable pub get_policy_pack : String → String → S → Answer S
  get_policy_pack tenant_id pack_id s =
      with_packs tenant_id s λ packs. (s, found (packs.get at.first tenant_id pack_id s))

  abbrev pub switched : PackStore S → String → String → S × Result (Unit {0}) → Answer S
  switched packs tenant_id pack_id (s, err e) = (s, pack_failed "policy_pack_set_enabled_failed" e)
  switched packs tenant_id pack_id (s, ok u) = (s, saved (packs.get at.second tenant_id pack_id s))

  abbrev pub switch_decoded : PackStore S → String → String → S → Result Bool → Answer S
  switch_decoded packs tenant_id pack_id s (err e) =
      (s, write_error 400 "invalid_json" (error_text e))
  switch_decoded packs tenant_id pack_id s (ok enabled) =
      switched packs tenant_id pack_id
        (packs.set_enabled at.first at.first_time tenant_id pack_id enabled s)

  unfoldable pub set_policy_pack_enabled : String → String → Request B → S → Answer S
  set_policy_pack_enabled tenant_id pack_id r s =
      with_packs tenant_id s
        λ packs. switch_decoded packs tenant_id pack_id s (codec.enabled r.body)
