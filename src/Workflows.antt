-- ===== src/Workflows.antt =====
-- `WorkflowDefinition` of application/workflows/definitions.py: stages with their routes, the stages that
-- are reachable and what is wrong with a definition. A target of a route is a text; one that begins with
-- `terminal:` stands here as the constructor `terminal` of the rest.
pub mod Reachable
pub mod Routes
use lineage_collection.Prelude.{
  ℕ, zero, suc, ◌+◌, String, Bool, true, false, not, ◌&&◌, ◌||◌, Option, none, some, List, [], ◌∷◌,
  ◌++◌, ◌==◌, any, leb, ltb, length, map, if◌then◌else◌,
}

pub data Target : Type 0 where
  stage terminal : String → Target

pub record StageDefinition : Type 0 where
  pub stage_id : String
  pub input_contracts : List String
  pub output_contracts : List String
  pub timeout_seconds : ℕ
  pub max_attempts : ℕ
  pub retry_class : String
  pub side_effect_mode : String
  pub idempotency_determinants : List String
  pub on_success : List Target
  pub on_error : List Target

pub record WorkflowDefinition : Type 0 where
  pub entry_stage : String
  pub workflow_timeout_seconds : ℕ
  pub stages : List StageDefinition
  pub terminal_states : List String

abbrev pub member : String → List String → Bool
member s = any (λ x. x == s)

-- `{stage.stage_id: stage for stage in stages}.get(id)`: the last of several stages of one name
unfoldable pub by_id : String → List StageDefinition → Option StageDefinition
by_id id [] = none
by_id id (s ∷ ss) = elim (by_id id ss) [
  | some t ↦ some t
  | none ↦ if s.stage_id == id then some s else none
]

abbrev pub targets : StageDefinition → List Target
targets s = s.on_success ++ s.on_error

-- `pending.extend`, on a stack whose top is the head here: the last one is popped first.
unfoldable pub push_stages : List Target → List String → List String
push_stages [] pending = pending
push_stages (stage id ∷ ts) pending = push_stages ts (id ∷ pending)
push_stages (terminal t ∷ ts) pending = push_stages ts pending

-- What the loop pushes when it takes a stage: nothing for an unknown one, or one that it has seen.
unfoldable pub visit :
    List StageDefinition → String → List String → List String → List String × List String
visit stages id pending reached =
    if member id reached then (pending, reached) else elim (by_id id stages) [
      | none ↦ (pending, reached)
      | some s ↦ (push_stages (targets s) pending, id ∷ reached)
    ]

-- The loop of `reachable_stage_ids`; `none` says that the fuel ran out.
unfoldable pub search_stages :
    ℕ → List StageDefinition → List String → List String → Option (List String)
search_stages zero stages pending reached = none
search_stages (suc fuel) stages [] reached = some reached
search_stages (suc fuel) stages (id ∷ pending) reached =
    let (pending', reached') = visit stages id pending reached in
    search_stages fuel stages pending' reached'

unfoldable pub count_targets : List StageDefinition → ℕ
count_targets [] = 0
count_targets (s ∷ ss) = length (targets s) + count_targets ss

-- A stage pushes its targets once, so that there are no more rounds than these, the entry and the end.
unfoldable pub reachable_stage_ids : WorkflowDefinition → Option (List String)
reachable_stage_ids w = search_stages (count_targets w.stages + 2) w.stages (w.entry_stage ∷ []) []
