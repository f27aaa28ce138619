-- ===== src/Deployment/Order.antt =====
-- The order in which deployment events take over the state of an environment.
use mathlib.Core.Option
use lineage_collection.Prelude.{
  String, ◌≡◌, refl, sym, ap, ◌∙◌, inl, inr, Bool, true, false, some, List, [], ◌∷◌, arith, eq_iff,
  select, select-Has, select-update, select-append_some, set_if, update, Bool-cases,
}
use lineage_collection.Deployment.Tables.{DeploymentEvent, DeploymentState, DeploymentTables}
use lineage_collection.Deployment.{in_environment, state_of, not_newer, taken_over}
use lineage_collection.Deployment.Completion.{owns, completed_state}
use lineage_collection.Deployment.Effects.{
  Call, step, run, Follows, Follows-refl, Follows-trans, Writes, nothing, adds, takes, finishes,
  completed_state-Follows, step-Writes,
}

-- The environment has a state that follows `old`.
abbrev pub Reaches : String → String → DeploymentState → List DeploymentState → Type 0
Reaches system environment old states =
    (s : DeploymentState) × (select (in_environment system environment) states ≡ some s)
    × Follows old s

module _ (system environment : String) (old : DeploymentState) where
  update-Reaches :
      (p : DeploymentState → Bool) (f : DeploymentState → DeploymentState)
      (states : List DeploymentState)
      → ((s : DeploymentState) → ((f s).system ≡ s.system) × ((f s).environment ≡ s.environment))
      → ((s : DeploymentState)
          → select (in_environment system environment) states ≡ some s
          → p s ≡ true
          → Follows s (f s))
      → Reaches system environment old states
      → Reaches system environment old (update p f states)
  update-Reaches p f states kept follows (s, found, order) = (
    set_if p f s,
    select-update (in_environment system environment) p f states same_key
        ∙ ap (Option.map (set_if p f)) found,
    Follows-trans old s (set_if p f s) order (elim (Bool-cases (p s)) [
      | inl hit ↦ rw hit (follows s found hit)
      | inr miss ↦ rw miss (Follows-refl s)
    ]),
  )
    where
      same_key :
          (x : DeploymentState)
          → in_environment system environment (set_if p f x) ≡ in_environment system environment x
      same_key x = elim (Bool-cases (p x)) [
        | inl hit ↦ rw (hit, (kept x).0, (kept x).1) refl
        | inr miss ↦ rw miss refl
      ]

  takes-Follows :
      (e : DeploymentEvent) (now : String) (current s : DeploymentState)
      (states : List DeploymentState)
      → select (in_environment e.system e.environment) states ≡ some current
      → not_newer e (some current) ≡ false
      → select (in_environment system environment) states ≡ some s
      → in_environment e.system e.environment s ≡ true
      → Follows s (taken_over e now s)
  unfolding not_newer taken_over
  takes-Follows e now current s states found newer at_key hit =
      let (_, named) = select-Has (in_environment system environment) states at_key in
      let same_system : e.system ≡ system =
        sym ((eq_iff s.system e.system).0 (ground arith))
        ∙ (eq_iff s.system system).0 (ground arith) in
      let same_environment : e.environment ≡ environment =
        sym ((eq_iff s.environment e.environment).0 (ground arith))
        ∙ (eq_iff s.environment environment).0 (ground arith) in
      let there : select (in_environment system environment) states ≡ some current =
        rw (← same_system, ← same_environment) found in
      let same : s ≡ current = cc (there, at_key) in rw same (ground arith)

  Writes-Reaches :
      {states states' : List DeploymentState}
      → Writes states states'
      → Reaches system environment old states
      → Reaches system environment old states'
  Writes-Reaches nothing h = h
  Writes-Reaches {states} (adds new) (s, found, order) =
      (s, select-append_some (in_environment system environment) states (new ∷ []) s found, order)
  Writes-Reaches {states} (takes e now current found newer) h =
      update-Reaches (in_environment e.system e.environment) (taken_over e now) states
        (λ s. unfold taken_over in (refl, refl))
        (λ s at_key hit. takes-Follows e now current s states found newer at_key hit) h
  Writes-Reaches {states} (finishes e status p graph_version now) h =
      update-Reaches (owns e.system e.environment e.event_id)
        (completed_state e status p graph_version now) states
        (λ s. let (a, b, _) = completed_state-Follows e status p graph_version now s in (a, b))
        (λ s _ _. let (_, _, f) = completed_state-Follows e status p graph_version now s in f) h

  run-Reaches :
      (t : DeploymentTables) (cs : List Call)
      → Reaches system environment old t.states
      → Reaches system environment old (run t cs).states
  unfolding run
  run-Reaches t [] h = h
  run-Reaches t (c ∷ cs) h = run-Reaches (step t c) cs (Writes-Reaches (step-Writes t c) h)

-- Once an environment has a state, after any further calls it has one that is owned by the same event
-- at the same position, or by an event of a strictly greater (provider_sequence, attempt).
pub state-Follows :
    (system environment : String) (old : DeploymentState) (t : DeploymentTables) (cs : List Call)
    → state_of system environment t ≡ some old
    → (s : DeploymentState) × (state_of system environment (run t cs) ≡ some s) × Follows old s
unfolding state_of
state-Follows system environment old t cs found =
    run-Reaches system environment old t cs (old, found, Follows-refl old)
