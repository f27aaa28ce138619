-- ===== src/Workflows/Routes.antt =====
-- `route_reaches_terminal` of `WorkflowDefinition` (application/workflows/definitions.py).
use lineage_collection.Prelude.{
  ℕ, zero, suc, ◌+◌, ◌≤◌, ◌<◌, String, Bool, true, false, ◌≡◌, ◌⊎◌, refl, ap, ◌∙◌, inl, inr, Option,
  none, some, List, [], ◌∷◌, ◌==◌, length, if◌then◌else◌, Has, arith, Bool-cases, Option-cases,
}
use lineage_collection.Workflows.{
  Target, stage, terminal, StageDefinition, WorkflowDefinition, member, by_id, targets,
  count_targets,
}
use lineage_collection.Workflows.Reachable.{unseen, unseen-visit, unseen_all}

unfoldable pub push_targets : List Target → List Target → List Target
push_targets [] pending = pending
push_targets (t ∷ ts) pending = push_targets ts (t ∷ pending)

unfoldable pub follow :
    List StageDefinition → String → List Target → List String → List Target × List String
follow stages id pending visited =
    if member id visited then (pending, visited) else elim (by_id id stages) [
      | none ↦ (pending, visited)
      | some s ↦ (push_targets (targets s) pending, id ∷ visited)
    ]

-- The loop: the first terminal that is popped decides. `none` says that the fuel ran out.
unfoldable pub search_terminal : ℕ → WorkflowDefinition → List Target → List String → Option Bool
search_terminal zero w pending visited = none
search_terminal (suc fuel) w [] visited = some false
search_terminal (suc fuel) w (terminal t ∷ pending) visited = some (member t w.terminal_states)
search_terminal (suc fuel) w (stage id ∷ pending) visited =
    let (pending', visited') = follow w.stages id pending visited in
    search_terminal fuel w pending' visited'

unfoldable pub route_targets : String → StageDefinition → Option (List Target)
route_targets route s =
    if route == "success"
    then some s.on_success
    else if route == "error"
    then some s.on_error
    else none

unfoldable pub search_route : WorkflowDefinition → Option (List Target) → Option Bool
search_route w none = some false
search_route w (some ts) =
    search_terminal (count_targets w.stages + length ts + 1) w (push_targets ts []) []

unfoldable pub stage_route : String → Option StageDefinition → Option (List Target)
stage_route route none = none
stage_route route (some s) = route_targets route s

unfoldable pub route_reaches_terminal : WorkflowDefinition → String → String → Option Bool
route_reaches_terminal w id route = search_route w (stage_route route (by_id id w.stages))

length-push :
    (ts pending : List Target) → length (push_targets ts pending) ≡ length ts + length pending
unfolding push_targets
length-push [] pending = omega arith
length-push (t ∷ ts) pending = omega (arith, length-push ts (t ∷ pending))

push_targets-Has :
    (ts pending : List Target) (u : Target)
    → Has u (push_targets ts pending)
    → Has u ts ⊎ Has u pending
unfolding push_targets
push_targets-Has [] pending u h = inr h
push_targets-Has (t ∷ ts) pending u h = elim (push_targets-Has ts (t ∷ pending) u h) [
  | inl later ↦ inl (inr later)
  | inr (inl here) ↦ inl (inl here)
  | inr (inr old) ↦ inr old
]

-- A visit pushes no more targets than it takes from the stages that are left to see.
follow_less :
    (stages : List StageDefinition) (id : String) (pending : List Target) (visited : List String)
    → length (follow stages id pending visited).0
        + unseen stages (follow stages id pending visited).1
      ≤ length pending + unseen stages visited
unfolding follow
follow_less stages id pending visited = elim (Bool-cases (member id visited)) [
  | inl old ↦ rw old (omega arith)
  | inr new ↦ elim (Option-cases (by_id id stages)) [
    | inl unknown ↦ rw new (rw unknown (omega arith))
    | inr (s, found) ↦ rw new (
        rw found (
          omega
            (arith, unseen-visit stages id visited s found new, length-push (targets s) pending)))
  ]
]

-- The two cases of a visit.
data Follows (stages : List StageDefinition) (id : String) (pending : List Target)
    (visited : List String) : List Target × List String → Type 0 where
  stays : Follows stages id pending visited (pending, visited)
  enters :
      (s : StageDefinition)
      → by_id id stages ≡ some s
      → Follows stages id pending visited (push_targets (targets s) pending, id ∷ visited)

follow-Follows :
    (stages : List StageDefinition) (id : String) (pending : List Target) (visited : List String)
    → Follows stages id pending visited (follow stages id pending visited)
unfolding follow
follow-Follows stages id pending visited = elim (Bool-cases (member id visited)) [
  | inl old ↦ rw old stays
  | inr new ↦ elim (Option-cases (by_id id stages)) [
    | inl missing ↦ rw new (rw missing stays)
    | inr (s, found) ↦ rw new (rw found (enters s found))
  ]
]

Follows-Has :
    (stages : List StageDefinition) (id : String) (pending : List Target) (visited : List String)
    (u : Target) {x : List Target × List String}
    → Follows stages id pending visited x
    → Has u x.0
    → Has u pending ⊎ ((s : StageDefinition) × (by_id id stages ≡ some s) × Has u (targets s))
Follows-Has stages id pending visited u stays h = inl h
Follows-Has stages id pending visited u (enters s found) h =
    elim (push_targets-Has (targets s) pending u h) [
      | inl target ↦ inr (s, found, target)
      | inr old ↦ inl old
    ]

-- A target from which a path of routes through the definition's stages leads to a declared terminal.
pub data LeadsToTerminal (w : WorkflowDefinition) : Target → Type 0 where
  declared : {t : String} → member t w.terminal_states ≡ true → LeadsToTerminal w (terminal t)
  through :
      {a : String} (s : StageDefinition) (u : Target)
      → by_id a w.stages ≡ some s
      → Has u (targets s)
      → LeadsToTerminal w u
      → LeadsToTerminal w (stage a)

search_terminal_total :
    (fuel : ℕ) (w : WorkflowDefinition) (pending : List Target) (visited : List String)
    → length pending + unseen w.stages visited < fuel
    → (b : Bool) × (search_terminal fuel w pending visited ≡ some b)
unfolding search_terminal
search_terminal_total zero w pending visited lt = absurd (omega arith)
search_terminal_total (suc fuel) w [] visited lt = (false, refl)
search_terminal_total (suc fuel) w (terminal t ∷ pending) visited lt =
    (member t w.terminal_states, refl)
search_terminal_total (suc fuel) w (stage id ∷ pending) visited lt =
    search_terminal_total fuel w (follow w.stages id pending visited).0
      (follow w.stages id pending visited).1
      (omega (arith, follow_less w.stages id pending visited))

search_terminal-LeadsToTerminal :
    (fuel : ℕ) (w : WorkflowDefinition) (pending : List Target) (visited : List String)
    → search_terminal fuel w pending visited ≡ some true
    → (u : Target) × Has u pending × LeadsToTerminal w u
unfolding search_terminal
search_terminal-LeadsToTerminal zero w pending visited e = cc
search_terminal-LeadsToTerminal (suc fuel) w [] visited e = absurd (ground arith)
search_terminal-LeadsToTerminal (suc fuel) w (terminal t ∷ pending) visited e =
    (terminal t, inl refl, declared (ground arith))
search_terminal-LeadsToTerminal (suc fuel) w (stage id ∷ pending) visited e =
    let (u, there, leads) =
      search_terminal-LeadsToTerminal fuel w (follow w.stages id pending visited).0
        (follow w.stages id pending visited).1 e in
    elim (Follows-Has w.stages id pending visited u (follow-Follows w.stages id pending visited)
      there) [
        | inl old ↦ (u, inr old, leads)
        | inr (s, found, target) ↦ (stage id, inl refl, through s u found target leads)
      ]

search_route_exact :
    (w : WorkflowDefinition) (route : Option (List Target))
    → (b : Bool) × (search_route w route ≡ some b)
      × (b ≡ true
          → (ts : List Target) × (u : Target) × (route ≡ some ts) × Has u ts × LeadsToTerminal w u)
unfolding search_route
search_route_exact w none = (false, refl, λ e. cc)
search_route_exact w (some ts) =
    let (b, e) =
      search_terminal_total (count_targets w.stages + length ts + 1) w (push_targets ts []) []
        (omega (arith, length-push ts [], unseen_all w.stages)) in
    (
      b,
      e,
      λ holds.
          let (u, there, leads) =
            search_terminal-LeadsToTerminal (count_targets w.stages + length ts + 1) w
              (push_targets ts []) [] (e ∙ ap some holds) in
          elim (push_targets-Has ts [] u there) [
            | inl h ↦ (ts, u, refl, h, leads)
            | inr nothing ↦ absurd nothing
          ],
    )

-- The loop ends within its fuel, and it says true only if a path of routes leads from a target of the
-- stage's route, through stages of the definition, to a declared terminal state.
pub route_reaches_terminal_sound :
    (w : WorkflowDefinition) (id route : String)
    → (b : Bool) × (route_reaches_terminal w id route ≡ some b)
      × (b ≡ true
          → (ts : List Target) × (u : Target) × (stage_route route (by_id id w.stages) ≡ some ts)
            × Has u ts
            × LeadsToTerminal w u)
unfolding route_reaches_terminal
route_reaches_terminal_sound w id route =
    search_route_exact w (stage_route route (by_id id w.stages))
