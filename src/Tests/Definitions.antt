-- ===== src/Tests/Definitions.antt =====
-- A concrete workflow definition: two stages, a stage that no route leads to, and an unknown target.
use lineage_collection.Prelude.{String, Bool, true, false, ◌≡◌, ◌↔◌, refl, some, List, [], ◌∷◌, Has}
use lineage_collection.Workflows
use lineage_collection.Workflows.{
  Target, stage, terminal, StageDefinition, WorkflowDefinition, by_id, reachable_stage_ids,
}
use lineage_collection.Workflows.Reachable
use lineage_collection.Workflows.Routes
use lineage_collection.Workflows.Routes.{route_reaches_terminal}

abbrev step_of : String → List Target → List Target → StageDefinition
step_of id on_success on_error = record {
  stage_id = id;
  input_contracts = "in" ∷ [];
  output_contracts = "out" ∷ [];
  timeout_seconds = 10;
  max_attempts = 3;
  retry_class = "NONE";
  side_effect_mode = "PURE";
  idempotency_determinants = "digest" ∷ [];
  on_success = on_success;
  on_error = on_error;
}

abbrev workflow : WorkflowDefinition
workflow = record {
  entry_stage = "S1";
  workflow_timeout_seconds = 60;
  stages =
      step_of "S1" (stage "S2" ∷ []) (terminal "FAILED" ∷ stage "S9" ∷ [])
      ∷ step_of "S2" (terminal "DONE" ∷ []) (stage "S1" ∷ [])
      ∷ step_of "S3" (terminal "DONE" ∷ []) (terminal "FAILED" ∷ [])
      ∷ [];
  terminal_states = "DONE" ∷ "FAILED" ∷ [];
}

reached : reachable_stage_ids workflow ≡ some ("S2" ∷ "S1" ∷ [])
unfolding reachable_stage_ids Workflows.search_stages Workflows.visit Workflows.by_id
    Workflows.push_stages Workflows.count_targets
reached = refl

reachable_stage_ids_exact_example :
    (r : List String) × (reachable_stage_ids workflow ≡ some r)
    × ((a : String) → Has a r ↔ Reachable.IsReachable workflow.stages "S1" a)
reachable_stage_ids_exact_example = Reachable.reachable_stage_ids_exact workflow

routes_found :
    (route_reaches_terminal workflow "S1" "success" ≡ some true)
    × (route_reaches_terminal workflow "S1" "error" ≡ some true)
    × (route_reaches_terminal workflow "S1" "other" ≡ some false)
    × (route_reaches_terminal workflow "S9" "error" ≡ some false)
unfolding route_reaches_terminal Routes.search_route Routes.stage_route Routes.route_targets
    Routes.search_terminal Routes.follow Routes.push_targets Workflows.by_id Workflows.count_targets
routes_found = (refl, refl, refl, refl)

route_reaches_terminal_sound_example :
    (b : Bool) × (route_reaches_terminal workflow "S1" "success" ≡ some b)
    × (b ≡ true
        → (ts : List Target) × (u : Target) × (Routes.stage_route "success"
              (by_id "S1" workflow.stages)
            ≡ some ts)
          × Has u ts
          × Routes.LeadsToTerminal workflow u)
route_reaches_terminal_sound_example = Routes.route_reaches_terminal_sound workflow "S1" "success"
