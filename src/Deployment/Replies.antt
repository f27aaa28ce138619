-- ===== src/Deployment/Replies.antt =====
-- What SQLiteDeploymentStore answers for a registered package and for a completed event, later on.
use mathlib.Core.Path.{subst}
use lineage_collection.Prelude.{
  String, ◌≡◌, refl, sym, ap, ◌∙◌, ◌⊎◌, inl, inr, true, false, Option, none, some, List, [], ◌∷◌,
  ◌++◌, arith, eq_iff, select, select-Has, select-update, select-append_some, update, Bool-cases,
  Option-cases,
}
use lineage_collection.Database.Transaction.{ok, transaction-keeps}
use lineage_collection.Deployment.Tables.{
  DeploymentEvent, DeploymentPackage, Status, processing, stale, DeploymentState, EventRow,
  DeploymentResult, DeploymentTables, duplicate_of,
}
use lineage_collection.Deployment
use lineage_collection.Deployment.{
  package_for, has_artifact, register_package, claim, claim_found, claim_new, event_fits,
  insert_event, has_event, state_of, not_newer,
}
use lineage_collection.Deployment.Completion.{
  complete, complete_tx, stored_result, is_authoritative,
}
use lineage_collection.Deployment.Completion
use lineage_collection.Deployment.Effects.{Call, registers, claims, completes, step, run}

-- What a call may do to the events.
data Writes (t : DeploymentTables) : List EventRow → Type 0 where
  nothing : Writes t t.events
  adds : (row : EventRow) → Writes t (t.events ++ row ∷ [])
  records :
      (e : DeploymentEvent) (r : DeploymentResult) (now : String)
      → stored_result e t ≡ none
      → Writes t (
          update
            (has_event e.event_id)
            (λ x. record x { status = r.state; result = some r; updated_at = now })
            t.events)

like : {t : DeploymentTables} {a b : List EventRow} → Writes t a → b ≡ a → Writes t b
like {t} w e = subst (Writes t) (sym e) w

inserted :
    (e : DeploymentEvent) (s : Status) (r : Option DeploymentResult) (now : String)
    (t : DeploymentTables)
    → Writes t (insert_event e s r now t).events
unfolding insert_event
inserted e s r now t =
    adds (record { event = e; status = s; result = r; created_at = now; updated_at = now })

upsert-events :
    (e : DeploymentEvent) (now : String) (o : Option DeploymentState) (t : DeploymentTables)
    → (Deployment.upsert_state e now o t).events ≡ t.events
unfolding Deployment.upsert_state
upsert-events e now none t = refl
upsert-events e now (some s) t = refl

claim_new-Writes :
    (e : DeploymentEvent) (now : String) (o : Option DeploymentState) (t : DeploymentTables)
    → Writes t (claim_new e now o t).1.events
unfolding claim_new
claim_new-Writes e now o t = elim (Bool-cases (not_newer e o)) [
  | inl old ↦ elim (Bool-cases (event_fits e t)) [
    | inl fits ↦ rw (old, fits) (inserted e stale (some (Deployment.stale_result e o)) now t)
    | inr unfit ↦ rw (old, unfit) nothing
  ]
  | inr newer ↦ elim (Bool-cases (event_fits e t)) [
    | inl fits ↦
        rw (newer, fits)
          (like (inserted e processing none now t)
            (upsert-events e now o (insert_event e processing none now t)))
    | inr unfit ↦ rw (newer, unfit) nothing
  ]
]

claim-Writes :
    (e : DeploymentEvent) (now : String) (t : DeploymentTables) → Writes t (claim e now t).1.events
unfolding claim claim_found
claim-Writes e now t = by_event (select (has_event e.event_id) t.events)
  where
    by_event : (row : Option EventRow) → Writes t (claim_found e now row t).1.events
    by_event none = claim_new-Writes e now (state_of e.system e.environment t) t
    by_event (some row) = like nothing (ground arith)

completed_events :
    (e : DeploymentEvent) (status : Status) (reason : Option String) (p : Option DeploymentPackage)
    (graph_version : Option String) (now : String) (t t' : DeploymentTables) {r : DeploymentResult}
    → complete_tx e status reason p graph_version now t ≡ ok (r, t')
    → (t' ≡ t)
      ⊎ ((stored_result e t ≡ none)
          × (t'.events
              ≡ update
                  (has_event e.event_id)
                  (λ x. record x { status = r.state; result = some r; updated_at = now })
                  t.events))
unfolding complete_tx Completion.complete_owned Completion.complete_superseded
    Completion.record_result
completed_events e status reason p graph_version now t t' done =
    elim (Option-cases (stored_result e t)) [
      | inl open_event ↦
          elim (Bool-cases (is_authoritative e (state_of e.system e.environment t))) [
            | inl owned ↦ inr (open_event, ground arith)
            | inr superseded ↦ inr (open_event, ground arith)
          ]
      | inr (r, stored) ↦ inl (ground arith)
    ]

complete-Writes :
    (e : DeploymentEvent) (status : Status) (reason : Option String) (p : Option DeploymentPackage)
    (graph_version : Option String) (now : String) (t : DeploymentTables)
    → Writes t (complete e status reason p graph_version now t).1.events
unfolding complete
complete-Writes e status reason p graph_version now t =
    transaction-keeps (λ s. Writes t s.events) (complete_tx e status reason p graph_version now) t
      nothing
      λ r s done. elim (completed_events e status reason p graph_version now t s done) [
        | inl same ↦ like nothing (ap (λ (x : DeploymentTables). x.events) same)
        | inr (open_event, written) ↦ like (records e r now open_event) written
      ]

register-events :
    (p : DeploymentPackage) (t : DeploymentTables) → (register_package p t).1.events ≡ t.events
unfolding register_package
register-events p t = ground arith

step-Writes : (t : DeploymentTables) (c : Call) → Writes t (step t c).events
unfolding step
step-Writes t (registers p) = like nothing (register-events p t)
step-Writes t (claims e now) = claim-Writes e now t
step-Writes t (completes e status reason p graph_version now) =
    complete-Writes e status reason p graph_version now t

-- The event with this identity has this result.
abbrev HasResult : String → DeploymentResult → List EventRow → Type 0
HasResult id r events =
    (row : EventRow) × (select (has_event id) events ≡ some row) × (row.result ≡ some r)

Writes-HasResult :
    (id : String) (r : DeploymentResult) (t : DeploymentTables) {events : List EventRow}
    → Writes t events
    → HasResult id r t.events
    → HasResult id r events
unfolding stored_result
Writes-HasResult id r t nothing h = h
Writes-HasResult id r t (adds new) (row, found, has) =
    (row, select-append_some (has_event id) t.events (new ∷ []) row found, has)
Writes-HasResult id r t (records e new now open_event) (row, found, has) =
    elim (Bool-cases (has_event e.event_id row)) [
      | inl hit ↦ absurd (clash e hit open_event)
      | inr miss ↦ (row, at_row e new now miss, has)
    ]
  where
    clash : (e : DeploymentEvent) → has_event e.event_id row ≡ true → stored_result e t ≡ none → ⊥
    clash e hit open_event =
        let (_, named) = select-Has (has_event id) t.events found in
        let same : id ≡ e.event_id =
          sym ((eq_iff row.event.event_id id).0 named)
          ∙ (eq_iff row.event.event_id e.event_id).0 hit in
        let there : select (has_event e.event_id) t.events ≡ some row = rw (← same) found in
        ground arith

    at_row :
        (e : DeploymentEvent) (new : DeploymentResult) (now : String)
        → has_event e.event_id row ≡ false
        → select (has_event id) (
            update
              (has_event e.event_id)
              (λ x. record x { status = new.state; result = some new; updated_at = now })
              t.events)
          ≡ some row
    at_row e new now miss =
        select-update (has_event id) (has_event e.event_id)
          (λ x. record x { status = new.state; result = some new; updated_at = now }) t.events
          (λ x. ground arith)
        ∙ rw found (ap some (rw miss refl))

run-HasResult :
    (id : String) (r : DeploymentResult) (t : DeploymentTables) (cs : List Call)
    → HasResult id r t.events
    → HasResult id r (run t cs).events
unfolding run
run-HasResult id r t [] h = h
run-HasResult id r t (c ∷ cs) h =
    run-HasResult id r (step t c) cs (Writes-HasResult id r t (step-Writes t c) h)

stored-HasResult :
    (e : DeploymentEvent) (r : DeploymentResult) (t : DeploymentTables)
    → stored_result e t ≡ some r
    → HasResult e.event_id r t.events
unfolding stored_result
stored-HasResult e r t h = elim (Option-cases (select (has_event e.event_id) t.events)) [
  | inl missing ↦ absurd (ground arith)
  | inr (row, found) ↦ (row, found, ground arith)
]

claim_answered :
    (e : DeploymentEvent) (r : DeploymentResult) (row : EventRow) (now : String)
    (t : DeploymentTables)
    → select (has_event e.event_id) t.events ≡ some row
    → row.result ≡ some r
    → claim e now t ≡ (duplicate_of (record r { duplicate = true }), t)
unfolding claim claim_found
claim_answered e r row now t there has = ground arith

complete_answered :
    (e : DeploymentEvent) (r : DeploymentResult) (row : EventRow) (status : Status)
    (reason : Option String) (p : Option DeploymentPackage) (graph_version : Option String)
    (now : String) (t : DeploymentTables)
    → select (has_event e.event_id) t.events ≡ some row
    → row.result ≡ some r
    → complete e status reason p graph_version now t ≡ (ok (record r { duplicate = true }), t)
unfolding complete complete_tx stored_result
complete_answered e r row status reason p graph_version now t there has = ground arith

-- Once an event has its result, after any further calls, a delivery of the event under any content is
-- answered by that result, marked as a duplicate, and so is its completion; neither changes a table.
pub event_answered_once :
    (e again : DeploymentEvent) (r : DeploymentResult) (t : DeploymentTables) (cs : List Call)
    → stored_result e t ≡ some r
    → again.event_id ≡ e.event_id
    → ((now : String)
        → claim again now (run t cs) ≡ (duplicate_of (record r { duplicate = true }), run t cs))
      × ((status : Status) (reason : Option String) (p : Option DeploymentPackage)
            (graph_version : Option String) (now : String)
          → complete again status reason p graph_version now (run t cs)
            ≡ (ok (record r { duplicate = true }), run t cs))
event_answered_once e again r t cs stored same =
    let (row, found, has) = run-HasResult e.event_id r t cs (stored-HasResult e r t stored) in
    let there : select (has_event again.event_id) (run t cs).events ≡ some row = rw same found in
    (
      λ now. claim_answered again r row now (run t cs) there has,
      λ status reason p graph_version now.
          complete_answered again r row status reason p graph_version now (run t cs) there has,
    )

claim-packages :
    (e : DeploymentEvent) (now : String) (t : DeploymentTables)
    → (claim e now t).1.packages ≡ t.packages
unfolding claim
claim-packages e now t = by_event (select (has_event e.event_id) t.events)
  where
    by_event : (row : Option EventRow) → (claim_found e now row t).1.packages ≡ t.packages
    by_event none = unfold claim_found in by_state (state_of e.system e.environment t)
      where
        by_state : (o : Option DeploymentState) → (claim_new e now o t).1.packages ≡ t.packages
        by_state none = unfold claim_new insert_event Deployment.upsert_state in ground arith
        by_state (some s) = unfold claim_new insert_event Deployment.upsert_state in ground arith
    by_event (some row) = unfold claim_found in ground arith

complete-packages :
    (e : DeploymentEvent) (status : Status) (reason : Option String) (p : Option DeploymentPackage)
    (graph_version : Option String) (now : String) (t : DeploymentTables)
    → (complete e status reason p graph_version now t).1.packages ≡ t.packages
unfolding complete complete_tx Completion.complete_owned Completion.complete_superseded
    Completion.record_result
complete-packages e status reason p graph_version now t =
    transaction-keeps (λ s. s.packages ≡ t.packages)
      (complete_tx e status reason p graph_version now) t refl
      λ r s done. elim (Option-cases (stored_result e t)) [
        | inl _ ↦ ground arith
        | inr _ ↦ ground arith
      ]

register-package_for :
    (system environment digest : String) (p q : DeploymentPackage) (t : DeploymentTables)
    → package_for system environment digest t ≡ some p
    → package_for system environment digest (register_package q t).1 ≡ some p
unfolding register_package package_for
register-package_for system environment digest p q t h =
    ground
      (arith, select-append_some (has_artifact system environment digest) t.packages (q ∷ []) p h)

step-package_for :
    (system environment digest : String) (p : DeploymentPackage) (t : DeploymentTables) (c : Call)
    → package_for system environment digest t ≡ some p
    → package_for system environment digest (step t c) ≡ some p
unfolding step package_for
step-package_for system environment digest p t (registers q) h =
    register-package_for system environment digest p q t h
step-package_for system environment digest p t (claims e now) h = rw (claim-packages e now t) h
step-package_for system environment digest p t (completes e status reason q graph_version now) h =
    rw (complete-packages e status reason q graph_version now t) h

-- A package that is registered for an artifact is the one that is found, after any further calls.
pub package_immutable :
    (system environment digest : String) (p : DeploymentPackage) (t : DeploymentTables)
    (cs : List Call)
    → package_for system environment digest t ≡ some p
    → package_for system environment digest (run t cs) ≡ some p
unfolding run
package_immutable system environment digest p t [] h = h
package_immutable system environment digest p t (c ∷ cs) h =
    package_immutable system environment digest p (step t c) cs
      (step-package_for system environment digest p t c h)
