-- ===== src/Policy/Simulation.antt =====
-- internal/policy/simulation.go: an evaluation of given packs that stores nothing.
use agent_secyrity.Prelude.{String, List}
use agent_secyrity.Strings.{Folding}
use agent_secyrity.Domain.{RuntimeEvent, PolicyPack, EvaluationResult}
use agent_secyrity.Domain.Errors.{Result, ok, err, runtime_event_error}
use agent_secyrity.Domain.Event.{normalize}
use agent_secyrity.Policy.Engine.{evaluate}
use agent_secyrity.Policy.Packs.{new_engine_from_packs}

pub record SimulationRequest : Type 0 where
  pub event : RuntimeEvent
  pub policy_packs : List PolicyPack

pub record SimulationResult : Type 0 where
  pub schema_version : String
  pub result : EvaluationResult

abbrev pub policy_simulation_schema_v1 : String
policy_simulation_schema_v1 = "policy_simulation.v1"

module _ ⦃folding : Folding⦄ where
  unfoldable pub simulate : SimulationRequest → Result SimulationResult
  simulate request = elim (normalize request.event) [
    | err e ↦ err (runtime_event_error e)
    | ok event ↦ ok (record {
      schema_version = policy_simulation_schema_v1;
      result = evaluate (new_engine_from_packs request.policy_packs) event;
    })
  ]
