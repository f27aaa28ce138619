-- ===== src/Deployment/Effects.antt =====
-- Histories of calls of the deployment store, and what a call does to the states.
use mathlib.Core.Path.{subst}
use lineage_collection.Prelude.{
  ◌<◌, String, ◌≡◌, refl, sym, ◌∙◌, ◌⊎◌, inl, inr, false, Option, none, some, List, [], ◌∷◌, ◌++◌,
  arith, select, update, Bool-cases, Option-cases,
}
use lineage_collection.Database.Transaction.{ok, transaction-keeps}
use lineage_collection.Deployment.Tables.{
  DeploymentEvent, DeploymentPackage, Status, DeploymentState, EventRow, DeploymentResult,
  DeploymentTables,
}
use lineage_collection.Deployment
use lineage_collection.Deployment.{
  in_environment, state_of, not_newer, new_state, taken_over, register_package, claim, event_fits,
  insert_event, has_event,
}
use lineage_collection.Deployment.Completion.{owns, completed_state, complete, complete_tx}
use lineage_collection.Deployment.Completion

pub data Call : Type 0 where
  registers : DeploymentPackage → Call
  claims : DeploymentEvent → String → Call
  completes :
      DeploymentEvent
      → Status
      → Option String
      → Option DeploymentPackage
      → Option String
      → String
      → Call

unfoldable pub step : DeploymentTables → Call → DeploymentTables
step t (registers p) = (register_package p t).1
step t (claims e now) = (claim e now t).1
step t (completes e status reason p graph_version now) =
    (complete e status reason p graph_version now t).1

unfoldable pub run : DeploymentTables → List Call → DeploymentTables
run t [] = t
run t (c ∷ cs) = run (step t c) cs

-- The state `new` is owned by the event of `old`, or by a strictly newer one.
abbrev pub Newer : DeploymentState → DeploymentState → Type 0
Newer old new =
    (old.provider_sequence < new.provider_sequence)
    ⊎ ((old.provider_sequence ≡ new.provider_sequence) × (old.attempt < new.attempt))

abbrev pub Follows : DeploymentState → DeploymentState → Type 0
Follows old new =
    Newer old new
    ⊎ ((new.event_id ≡ old.event_id)
        × (new.provider_sequence ≡ old.provider_sequence)
        × (new.attempt ≡ old.attempt))

pub Follows-refl : (s : DeploymentState) → Follows s s
Follows-refl s = inr (refl, refl, refl)

Newer-trans : (a b c : DeploymentState) → Newer a b → Newer b c → Newer a c
Newer-trans a b c x y = ground arith

pub Follows-trans : (a b c : DeploymentState) → Follows a b → Follows b c → Follows a c
Follows-trans a b c (inl x) (inl y) = inl (Newer-trans a b c x y)
Follows-trans a b c (inl x) (inr (_, s, t)) = inl (ground arith)
Follows-trans a b c (inr (_, s, t)) (inl y) = inl (ground arith)
Follows-trans a b c (inr (i, s, t)) (inr (i', s', t')) = inr (i' ∙ i, s' ∙ s, t' ∙ t)

-- What a call may do to the states.
pub data Writes (states : List DeploymentState) : List DeploymentState → Type 0 where
  nothing : Writes states states
  adds : (s : DeploymentState) → Writes states (states ++ s ∷ [])
  takes :
      (e : DeploymentEvent) (now : String) (s : DeploymentState)
      → select (in_environment e.system e.environment) states ≡ some s
      → not_newer e (some s) ≡ false
      → Writes states (update (in_environment e.system e.environment) (taken_over e now) states)
  finishes :
      (e : DeploymentEvent) (status : Status) (p : Option DeploymentPackage)
      (graph_version : Option String) (now : String)
      → Writes states (
          update
            (owns e.system e.environment e.event_id)
            (completed_state e status p graph_version now)
            states)

same-Writes : {a b : List DeploymentState} → b ≡ a → Writes a b
same-Writes {a} e = subst (Writes a) (sym e) nothing

like : {a b c : List DeploymentState} → Writes a b → c ≡ b → Writes a c
like {a} w e = subst (Writes a) (sym e) w

claim_new-Writes :
    (e : DeploymentEvent) (now : String) (t : DeploymentTables)
    → Writes t.states (Deployment.claim_new e now (state_of e.system e.environment t) t).1.states
unfolding Deployment.claim_new insert_event Deployment.upsert_state state_of
claim_new-Writes e now t = by_state (state_of e.system e.environment t) refl
  where
    by_state :
        (current : Option DeploymentState)
        → select (in_environment e.system e.environment) t.states ≡ current
        → Writes t.states (Deployment.claim_new e now current t).1.states
    by_state none free = elim (Bool-cases (event_fits e t)) [
      | inl fits ↦ like (adds (new_state e now)) (unfold not_newer in ground arith)
      | inr unfit ↦ same-Writes (unfold not_newer in ground arith)
    ]
    by_state (some s) found = elim (Bool-cases (not_newer e (some s))) [
      | inl old ↦ same-Writes (ground arith)
      | inr newer ↦ elim (Bool-cases (event_fits e t)) [
        | inl fits ↦ like (takes e now s found newer) (ground arith)
        | inr unfit ↦ same-Writes (ground arith)
      ]
    ]

claim-Writes :
    (e : DeploymentEvent) (now : String) (t : DeploymentTables)
    → Writes t.states (claim e now t).1.states
unfolding claim Deployment.claim_found
claim-Writes e now t = by_event (select (has_event e.event_id) t.events)
  where
    by_event :
        (row : Option EventRow) → Writes t.states (Deployment.claim_found e now row t).1.states
    by_event none = claim_new-Writes e now t
    by_event (some row) = same-Writes (ground arith)

completed_states :
    (e : DeploymentEvent) (status : Status) (reason : Option String) (p : Option DeploymentPackage)
    (graph_version : Option String) (now : String) (t t' : DeploymentTables) {r : DeploymentResult}
    → complete_tx e status reason p graph_version now t ≡ ok (r, t')
    → (t'.states ≡ t.states)
      ⊎ (t'.states
          ≡ update
              (owns e.system e.environment e.event_id)
              (completed_state e status p graph_version now)
              t.states)
unfolding complete_tx Completion.complete_owned Completion.complete_superseded
    Completion.record_result
completed_states e status reason p graph_version now t t' done =
    elim (Option-cases (Completion.stored_result e t)) [
      | inl open_event ↦
          elim (Bool-cases (Completion.is_authoritative e (state_of e.system e.environment t))) [
            | inl owned ↦ inr (ground arith)
            | inr superseded ↦ inl (ground arith)
          ]
      | inr (r, stored) ↦ inl (ground arith)
    ]

complete-Writes :
    (e : DeploymentEvent) (status : Status) (reason : Option String) (p : Option DeploymentPackage)
    (graph_version : Option String) (now : String) (t : DeploymentTables)
    → Writes t.states (complete e status reason p graph_version now t).1.states
unfolding complete
complete-Writes e status reason p graph_version now t =
    transaction-keeps (λ s. Writes t.states s.states)
      (complete_tx e status reason p graph_version now) t nothing
      λ r s done. elim (completed_states e status reason p graph_version now t s done) [
        | inl same ↦ same-Writes same
        | inr written ↦ like (finishes e status p graph_version now) written
      ]

pub completed_state-Follows :
    (e : DeploymentEvent) (status : Status) (p : Option DeploymentPackage)
    (graph_version : Option String) (now : String) (s : DeploymentState)
    → ((completed_state e status p graph_version now s).system ≡ s.system)
      × ((completed_state e status p graph_version now s).environment ≡ s.environment)
      × Follows s (completed_state e status p graph_version now s)
unfolding completed_state
completed_state-Follows e status p graph_version now s = ground arith

register-states :
    (p : DeploymentPackage) (t : DeploymentTables) → (register_package p t).1.states ≡ t.states
unfolding register_package
register-states p t = ground arith

pub step-Writes : (t : DeploymentTables) (c : Call) → Writes t.states (step t c).states
unfolding step
step-Writes t (registers p) = same-Writes (register-states p t)
step-Writes t (claims e now) = claim-Writes e now t
step-Writes t (completes e status reason p graph_version now) =
    complete-Writes e status reason p graph_version now t
