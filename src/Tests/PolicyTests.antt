-- ===== src/Tests/PolicyTests.antt =====
-- Validation and policy evaluation at concrete events.
use mathlib.Core.List.{Memᴰ}
use agent_secyrity.Prelude.{◌≡◌, refl, ◌↔◌, inl, true, [], ◌∷◌, none, Any}
use agent_secyrity.Strings.{is_blank, trim_space, equal_fold, contains}
use agent_secyrity.Domain.{RuntimeEvent, decision_deny}
use agent_secyrity.Domain.Decision.{priority}
use agent_secyrity.Domain.Errors.{ok}
use agent_secyrity.Domain.Event.{valid, validate, normalize, field_errors}
use agent_secyrity.Domain.Event.Laws.{
  IsComplete, validate_iff, Reports, validate-Reports, current, normalize_sound, normalize-eq-ok,
}
use agent_secyrity.Policy.Matching.{
  matches, matches_tenant, match_event_type, match_subject_type, match_string, match_resource,
  match_any_string,
}
use agent_secyrity.Policy.Matching.Laws.{Fits, matches_iff, Same}
use agent_secyrity.Policy.Engine.{new_engine, applies, evaluate}
use agent_secyrity.Policy.Engine.Outcome.{IsOutcome, applicable, evaluate-IsOutcome}
use agent_secyrity.Policy.Engine.Laws.{deny_iff}
use agent_secyrity.Policy.Packs.{new_engine_from_packs, inherit}
use agent_secyrity.Policy.Packs.Laws.{packs_isolation}
use agent_secyrity.Tests.Fixtures.{
  ascii, shell_event, ask_for_shell, deny_secret, shell_only, pack_a,
}

-- What a run of the engine computes with.
engine_run : Unit {0}
unfolding evaluate applies matches matches_tenant match_event_type match_subject_type match_string
    match_resource match_any_string is_blank trim_space equal_fold contains priority
    new_engine_from_packs inherit
engine_run = tt

deny_wins :
    (evaluate (new_engine (ask_for_shell ∷ deny_secret ∷ [])) shell_event).decision ≡ decision_deny
unfolding engine_run
deny_wins = refl

asks : (evaluate (new_engine (ask_for_shell ∷ [])) shell_event).matched_policy_ids ≡ "ask" ∷ []
unfolding engine_run
asks = refl

deny_iff_example :
    ((evaluate (new_engine (deny_secret ∷ [])) shell_event).decision ≡ decision_deny)
    ↔ Any (λ p. (applies shell_event p ≡ true) × (p.decision ≡ decision_deny)) (deny_secret ∷ [])
deny_iff_example = deny_iff ⦃folding = ascii⦄ shell_event (new_engine (deny_secret ∷ []))

evaluate-IsOutcome_example :
    IsOutcome
      (applicable shell_event (ask_for_shell ∷ deny_secret ∷ []))
      (evaluate (new_engine (ask_for_shell ∷ deny_secret ∷ [])) shell_event)
evaluate-IsOutcome_example =
    evaluate-IsOutcome ⦃folding = ascii⦄ (new_engine (ask_for_shell ∷ deny_secret ∷ [])) shell_event

matches_iff_example : (matches shell_only shell_event ≡ true) ↔ Fits shell_only shell_event
matches_iff_example = matches_iff ⦃folding = ascii⦄ shell_only shell_event

packs_isolation_example :
    Any (λ pack. (pack.enabled ≡ true) × Same pack.tenant_id shell_event.tenant_id) (pack_a ∷ [])
unfolding engine_run
packs_isolation_example =
    packs_isolation ⦃folding = ascii⦄ (pack_a ∷ []) shell_event (inherit pack_a deny_secret)
      ((refl, (inl refl, (inl refl, tt))), tt) (Memᴰ.tail (Memᴰ.head refl)) refl

validate_iff_example : (validate shell_event ≡ none) ↔ IsComplete shell_event
validate_iff_example = validate_iff shell_event

abbrev no_user : RuntimeEvent
no_user = record shell_event { user_id = "  " }

validate-Reports_example :
    Reports no_user (record { message = "invalid runtime event"; fields = field_errors no_user })
unfolding validate valid is_blank
validate-Reports_example = validate-Reports no_user _ refl

normalize_sound_example :
    IsComplete shell_event
    × (current shell_event ≡ current shell_event)
    × IsComplete (current shell_event)
    × (normalize (current shell_event) ≡ ok (current shell_event))
unfolding normalize validate valid is_blank
normalize_sound_example = normalize_sound shell_event (current shell_event) refl

normalize-eq-ok_example : normalize shell_event ≡ ok (current shell_event)
unfolding validate valid is_blank
normalize-eq-ok_example = normalize-eq-ok shell_event ((validate_iff shell_event).0 refl)
