-- ===== src/Deployment/Activation.antt =====
-- A call of `complete` (infrastructure/sqlite_deployment.py) that reports a promotion or a rollback.
use lineage_collection.Prelude.{
  String, true, false, ◌≡◌, sym, ap, ◌∙◌, inl, inr, Option, update, arith, Bool-cases, Option-cases,
}
use lineage_collection.Database.Transaction.{ok, committed}
use lineage_collection.Deployment.{state_of}
use lineage_collection.Deployment.Tables.{
  DeploymentEvent, DeploymentPackage, DeploymentState, DeploymentResult, DeploymentTables, Status,
  failed_no_change,
}
use lineage_collection.Deployment.Completion
use lineage_collection.Deployment.Completion.{
  is_activation, is_deployed, is_authoritative, stored_result, completion_result, complete_tx,
  complete_owned, complete_superseded, package_known, owns, completed_state,
}

-- A result of this call, of a promotion or a rollback: no stored one.
abbrev pub IsActivation : DeploymentResult → Type 0
IsActivation r = (r.duplicate ≡ false) × (is_activation r.state ≡ true)

module _ (e : DeploymentEvent) (status : Status) (reason : Option String)
    (pkg : Option DeploymentPackage) (graph_version : Option String) (now : String) where
  abbrev after_update : DeploymentTables → DeploymentTables
  after_update t = record t {
    states =
        update (owns e.system e.environment e.event_id)
          (completed_state e status pkg graph_version now) t.states;
  }

  owned_result :
      (t t' : DeploymentTables) (r : DeploymentResult)
      → complete_owned e status reason pkg graph_version now t ≡ ok (r, t')
      → r
        ≡ completion_result e true status reason pkg graph_version
            (state_of e.system e.environment (after_update t))
  unfolding complete_owned
  owned_result t t' r h = elim (Bool-cases (package_known status pkg t)) [
    | inl known ↦ ground (arith, known)
    | inr unknown ↦ absurd (ground (arith, unknown))
  ]

  superseded_state :
      (t t' : DeploymentTables) (r : DeploymentResult) (current : Option DeploymentState)
      → complete_superseded e pkg graph_version current now t ≡ ok (r, t')
      → r.state ≡ failed_no_change
  unfolding complete_superseded completion_result
  superseded_state t t' r current h = ground arith

  -- A fresh activation is the completion by the event that owns the environment.
  pub complete_activation :
      (t t' : DeploymentTables) (r : DeploymentResult)
      → Completion.complete e status reason pkg graph_version now t ≡ (ok r, t')
      → IsActivation r
      → r
        ≡ completion_result e true status reason pkg graph_version
            (state_of e.system e.environment (after_update t))
  unfolding Completion.complete complete_tx
  complete_activation t t' r h (fresh, act) =
      let body : complete_tx e status reason pkg graph_version now t ≡ ok (r, t') =
        committed (complete_tx e status reason pkg graph_version now) t r t' h in
      elim (Option-cases (stored_result e t)) [
        | inr (x, stored) ↦ absurd (ground (arith, stored, body, fresh))
        | inl nothing ↦ elim (Bool-cases (is_authoritative e (state_of e.system e.environment t))) [
          | inl mine ↦ owned_result t t' r (ground (arith, nothing, mine, body))
          | inr other ↦
              let lost : r.state ≡ failed_no_change =
                superseded_state t t' r (state_of e.system e.environment t)
                  (ground (arith, nothing, other, body)) in
              absurd (let clash : false ≡ true = sym (ap is_activation lost) ∙ act in cc)
        ]
      ]

  pub activation_status :
      (t t' : DeploymentTables) (r : DeploymentResult)
      → Completion.complete e status reason pkg graph_version now t ≡ (ok r, t')
      → IsActivation r
      → is_activation status ≡ true
  unfolding completion_result
  activation_status t t' r h a =
      sym (ap (λ (x : DeploymentResult). is_activation x.state) (complete_activation t t' r h a))
      ∙ a.1
