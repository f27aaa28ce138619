-- ===== src/Deployment/Promotion.antt =====
-- A deployment that DeploymentWorkflow.handle (application/workflows/deployment.py) reports as promoted or
-- rolled back, and the package behind it.
use lineage_collection.Prelude.{
  ℕ, String, Bool, true, false, not, ◌≡◌, refl, sym, ap, ◌∙◌, inl, inr, Option, none, some, List,
  select, arith, Bool-cases, Option-cases, eq_iff,
}
use lineage_collection.Database.Transaction.{Result, ok, err}
use lineage_collection.Deployment
use lineage_collection.Deployment.{
  has_event, in_environment, package_for, state_of, result_of, has_artifact,
}
use lineage_collection.Deployment.Tables.{
  EventType, EventRow, Outcome, DeploymentEvent, DeploymentPackage, DeploymentState,
  DeploymentResult, DeploymentClaim, DeploymentTables, Status, lineage_out_of_sync, failed_terminal,
  failed_no_change,
}
use lineage_collection.Deployment.Completion
use lineage_collection.Deployment.Completion.{
  is_activation, is_deployed, is_authoritative, stored_result, completion_result, complete_tx,
  complete_owned, complete_superseded, package_known, owns, completed_state,
}
use lineage_collection.Deployment.Activation.{IsActivation, complete_activation, activation_status}
use lineage_collection.Deployment.Workflow
use lineage_collection.Deployment.Workflow.{
  World, Reply, unchanged, replied, reply_of, error_code, terminal_of,
}
use lineage_collection.Publication
use lineage_collection.Publication.Promoted.{IsPromoted, promote_existing_ok}
use lineage_collection.Publication.Tables.{Edge, Pointer, GraphTables}

module _ (checksum : List Edge → String) (meanwhile : ℕ → World → World) (audit_id clock : String)
    (now : ℕ) (e : DeploymentEvent) where
  complete_with_ok :
      (status : Status) (reason : Option String) (pkg : Option DeploymentPackage)
      (graph_version : Option String) (w w' : World) (r : DeploymentResult)
      → Workflow.complete_with checksum meanwhile audit_id clock now e status reason pkg
          graph_version w
        ≡ (ok (replied r), w')
      → (t' : DeploymentTables) × (Completion.complete e status reason pkg graph_version clock
            w.deployments
          ≡ (ok r, t'))
  unfolding Workflow.complete_with
  complete_with_ok status reason pkg graph_version w w' r h =
      by_result (Completion.complete e status reason pkg graph_version clock w.deployments)
        (ap (λ (x : Result Reply × World). x.0) h)
    where
      by_result :
          (x : Result DeploymentResult × DeploymentTables)
          → reply_of x.0 ≡ ok (replied r)
          → (t' : DeploymentTables) × (x ≡ (ok r, t'))
      by_result (ok y, t) k = (t, ground (arith, k))
      by_result (err y, t) k = cc

  complete_with_refused :
      (status : Status) (reason : Option String) (graph_version : Option String) (w w' : World)
      (r : DeploymentResult)
      → is_activation status ≡ false
      → Workflow.complete_with checksum meanwhile audit_id clock now e status reason none
          graph_version w
        ≡ (ok (replied r), w')
      → IsActivation r
      → ⊥
  complete_with_refused status reason graph_version w w' r idle h a =
      let (t', k) = complete_with_ok status reason none graph_version w w' r h in
      let act = activation_status e status reason none graph_version clock w.deployments t' r k a in
      let clash : false ≡ true = sym idle ∙ act in cc

  complete_at_refused :
      (status : Status) (reason : Option String) (p : Result Pointer) (w w' : World)
      (r : DeploymentResult)
      → is_activation status ≡ false
      → Workflow.complete_at checksum meanwhile audit_id clock now e status reason p w
        ≡ (ok (replied r), w')
      → IsActivation r
      → ⊥
  unfolding Workflow.complete_at
  complete_at_refused status reason (err x) w w' r idle h a = cc
  complete_at_refused status reason (ok p) w w' r idle h a =
      complete_with_refused status reason (some p.active_version) w w' r idle h a

  promotion_failed_refused :
      (code : String) (w w' : World) (r : DeploymentResult)
      → Workflow.promotion_failed checksum meanwhile audit_id clock now e code w
        ≡ (ok (replied r), w')
      → IsActivation r
      → ⊥
  unfolding Workflow.promotion_failed
  promotion_failed_refused code w w' r h a =
      let w1 : World = meanwhile 5 w in
      elim (Bool-cases (
        Workflow.superseded_by checksum meanwhile audit_id clock now e
          (state_of e.system e.environment w.deployments))) [
            | inl lost ↦
                complete_at_refused failed_no_change (some "SUPERSEDED")
                  (Publication.pointer e.environment w1.graph) (meanwhile 6 w1) w' r refl
                  (ground (arith, lost, h)) a
            | inr mine ↦
                complete_at_refused failed_terminal (some code)
                  (Publication.pointer e.environment w1.graph) (meanwhile 6 w1) w' r refl
                  (ground (arith, mine, h)) a
          ]

  -- The tables after the claim, where the package is looked up, and where the promotion begins.
  abbrev pub lookup_world : World → World
  lookup_world w =
      meanwhile 0 (record w { deployments = (Deployment.claim e clock w.deployments).1 })

  abbrev pub promotion_world : World → World
  promotion_world w = meanwhile 3 (meanwhile 1 (lookup_world w))

  -- What stands behind a promotion: the package that is bound to the artifact, the promotion of its
  -- version, which was stored with the package's checksum and with edges of that checksum, the pointer read back at that version with the token of the promotion, and the result.
  pub record IsExact (looked prior_world : World) (r : DeploymentResult) : Type 0 where
    pub digest : String
    pub package_ : DeploymentPackage
    pub prior : Pointer
    pub moved : Pointer
    pub graph : GraphTables
    pub read : Pointer
    pub named : e.artifact_digest ≡ some digest
    pub bound : package_for e.system e.environment digest looked.deployments ≡ some package_
    pub promotes :
        Workflow.promote checksum meanwhile audit_id clock now e package_ prior
          (meanwhile 3 prior_world)
        ≡ (ok moved, graph)
    pub exact :
        IsPromoted checksum e.environment package_.graph_version package_.graph_checksum
          (Workflow.between checksum meanwhile audit_id clock now e
            (meanwhile 3 prior_world)
            (Publication.reserve e.environment prior.active_version now
              (meanwhile 3 prior_world).graph).1)
          moved
          graph
    pub reads :
        Publication.pointer e.environment
          (meanwhile 4 (record (meanwhile 3 prior_world) { graph = graph })).graph
        ≡ ok read
    pub at_version : read.active_version ≡ package_.graph_version
    pub at_token : read.fencing_token ≡ moved.fencing_token
    pub result_version : r.graph_version ≡ some package_.graph_version
    pub result_package : r.lineage_package_digest ≡ some package_.package_digest
    pub result_artifact : r.deployed_artifact_digest ≡ some digest

  activates :
      (t : EventType)
      → (is_activation (terminal_of t) ≡ true) × (is_deployed (terminal_of t) ≡ true)
  activates EventType.deployment = (refl, refl)
  activates EventType.rollback = (refl, refl)
  activates EventType.merge = (refl, refl)

  check_retained_ok :
      (digest : String) (p : DeploymentPackage) (x : Result Reply × World) (w' : World)
      (r : DeploymentResult)
      → Workflow.check_retained checksum meanwhile audit_id clock now e digest p x
        ≡ (ok (replied r), w')
      → x.0 ≡ ok (replied r)
  unfolding Workflow.check_retained
  check_retained_ok digest p (err y, w) w' r h = cc
  check_retained_ok digest p (ok y, w) w' r h =
      elim (Bool-cases (
        Workflow.retained checksum meanwhile audit_id clock now e digest p
          (state_of e.system e.environment (meanwhile 8 w).deployments))) [
            | inl kept ↦ ground (arith, kept, h)
            | inr lost ↦ absurd (ground (arith, lost, h))
          ]

  completed_fields :
      (p : DeploymentPackage) (digest : String) (w w' : World) (r : DeploymentResult)
      → e.artifact_digest ≡ some digest
      → Workflow.complete_with checksum meanwhile audit_id clock now e
          (terminal_of e.event_type)
          none
          (some p)
          (some p.graph_version)
          w
        ≡ (ok (replied r), w')
      → IsActivation r
      → (r.graph_version ≡ some p.graph_version)
        × (r.lineage_package_digest ≡ some p.package_digest)
        × (r.deployed_artifact_digest ≡ some digest)
  unfolding completion_result
  completed_fields p digest w w' r named h a =
      let (t', k) =
        complete_with_ok (terminal_of e.event_type) none (some p) (some p.graph_version) w w' r h in
      let whole =
        complete_activation e (terminal_of e.event_type) none (some p) (some p.graph_version) clock
          w.deployments t' r k a in
      let (act, dep) = activates e.event_type in
      (
        ground (arith, whole, act, dep),
        ground (arith, whole, act, dep),
        ground (arith, whole, act, dep, named),
      )

  read_back_ok :
      (digest : String) (p : DeploymentPackage) (q : Pointer) (rd : Result Pointer) (w w' : World)
      (r : DeploymentResult)
      → e.artifact_digest ≡ some digest
      → Workflow.read_back checksum meanwhile audit_id clock now e digest p q rd w
        ≡ (ok (replied r), w')
      → IsActivation r
      → (read : Pointer) × (rd ≡ ok read)
        × (read.active_version ≡ p.graph_version)
        × (read.fencing_token ≡ q.fencing_token)
        × (r.graph_version ≡ some p.graph_version)
        × (r.lineage_package_digest ≡ some p.package_digest)
        × (r.deployed_artifact_digest ≡ some digest)
  unfolding Workflow.read_back
  read_back_ok digest p q (err x) w w' r named h a = cc
  read_back_ok digest p q (ok read) w w' r named h a =
      elim (Bool-cases (Workflow.reads_back checksum meanwhile audit_id clock now e p q read)) [
        | inl good ↦
            let x : Result Reply × World =
              Workflow.complete_with checksum meanwhile audit_id clock now e
                (terminal_of e.event_type) none (some p) (some p.graph_version) (meanwhile 7 w) in
            let done = check_retained_ok digest p x w' r (ground (arith, good, h)) in
            let fields =
              completed_fields p digest (meanwhile 7 w) x.1 r named (pair_path x done) a in
            (
              read,
              refl,
              ground (arith, good, eq_iff read.active_version p.graph_version),
              ground (arith, good),
              fields.0,
              fields.1,
              fields.2,
            )
        | inr bad ↦ absurd (
            complete_with_refused failed_terminal (some "READ_AFTER_WRITE_MISMATCH")
              (some read.active_version) (meanwhile 7 w) w' r refl (ground (arith, bad, h)) a)
      ]
    where
      pair_path : (x : Result Reply × World) → x.0 ≡ ok (replied r) → x ≡ (ok (replied r), x.1)
      pair_path (y, z) k = ground (arith, k)

  after_promotion_ok :
      (digest : String) (p : DeploymentPackage) (x : Result Pointer) (w w' : World)
      (r : DeploymentResult)
      → Workflow.after_promotion checksum meanwhile audit_id clock now e digest p x w
        ≡ (ok (replied r), w')
      → IsActivation r
      → (q : Pointer) × (x ≡ ok q)
        × (Workflow.read_back checksum meanwhile audit_id clock now e digest p q
              (Publication.pointer e.environment w.graph)
              w
            ≡ (ok (replied r), w'))
  unfolding Workflow.after_promotion
  after_promotion_ok digest p (ok q) w w' r h a = (q, refl, h)
  after_promotion_ok digest p (err x) w w' r h a = elim (Option-cases (error_code x)) [
    | inl other ↦ absurd (ground (arith, other, h))
    | inr (code, caught) ↦
        absurd (promotion_failed_refused code w w' r (ground (arith, caught, h)) a)
  ]

  from_prior-IsExact :
      (digest : String) (p : DeploymentPackage) (looked w w' : World) (rd : Result Pointer)
      (r : DeploymentResult)
      → e.artifact_digest ≡ some digest
      → package_for e.system e.environment digest looked.deployments ≡ some p
      → Workflow.from_prior checksum meanwhile audit_id clock now e digest p rd (meanwhile 3 w)
        ≡ (ok (replied r), w')
      → IsActivation r
      → IsExact looked w r
  unfolding Workflow.from_prior
  from_prior-IsExact digest p looked w w' (err x) r named bound h a = cc
  from_prior-IsExact digest p looked w w' (ok prior) r named bound h a =
      let x : Result Pointer × GraphTables =
        Workflow.promote checksum meanwhile audit_id clock now e p prior (meanwhile 3 w) in
      let after : World = meanwhile 4 (record (meanwhile 3 w) { graph = x.1 }) in
      let (q, promoted_, rest) = after_promotion_ok digest p x.0 after w' r h a in
      let (read, reads, at_version, at_token, v, d, f) =
        read_back_ok digest p q (Publication.pointer e.environment after.graph) after w' r named
          rest a in
      record {
        digest = digest;
        package_ = p;
        prior = prior;
        moved = q;
        graph = x.1;
        read = read;
        named = named;
        bound = bound;
        promotes = promotes_ promoted_;
        exact =
            promote_existing_ok checksum
              (Workflow.between checksum meanwhile audit_id clock now e (meanwhile 3 w))
              e.environment p.graph_version prior.active_version p.graph_checksum e.provider
              e.correlation_id (Workflow.action_of e.event_type) audit_id now now
              (meanwhile 3 w).graph x.1 q (promotes_ promoted_);
        reads = reads;
        at_version = at_version;
        at_token = at_token;
        result_version = v;
        result_package = d;
        result_artifact = f;
      }
    where
      promotes_ :
          {q : Pointer}
          → (Workflow.promote checksum meanwhile audit_id clock now e p prior (meanwhile 3 w)).0
            ≡ ok q
          → Workflow.promote checksum meanwhile audit_id clock now e p prior (meanwhile 3 w) ≡ (
            ok q,
            (Workflow.promote checksum meanwhile audit_id clock now e p prior (meanwhile 3 w)).1,
          )
      promotes_ done =
          ap
            (λ (y : Result Pointer).
              let z : Result Pointer × GraphTables = (
                y,
                (Workflow.promote checksum meanwhile audit_id clock now e p prior
                    (meanwhile 3 w)).1,
              ) in
              z)
            done

  with_digest-IsExact :
      (digest : Option String) (w w' : World) (r : DeploymentResult)
      → e.artifact_digest ≡ digest
      → Workflow.with_digest checksum meanwhile audit_id clock now e digest w ≡ (ok (replied r), w')
      → IsActivation r
      → IsExact w (meanwhile 1 w) r
  unfolding Workflow.with_digest Workflow.with_package
  with_digest-IsExact none w w' r named h a =
      absurd (
        complete_with_refused failed_terminal (some "MISSING_ARTIFACT_DIGEST") none w w' r refl h a)
  with_digest-IsExact (some digest) w w' r named h a =
      elim (Option-cases (package_for e.system e.environment digest w.deployments)) [
        | inl missing ↦
            let w1 : World = meanwhile 1 w in
            absurd (
              complete_at_refused lineage_out_of_sync (some "EXACT_PACKAGE_NOT_FOUND")
                (Publication.pointer e.environment w1.graph) (meanwhile 2 w1) w' r refl
                (ground (arith, missing, h)) a)
        | inr (p, found) ↦
            let w1 : World = meanwhile 1 w in
            from_prior-IsExact digest p w w1 w' (Publication.pointer e.environment w1.graph) r named
              found (ground (arith, found, h)) a
      ]

  perform-IsExact :
      (o : Outcome) (w w' : World) (r : DeploymentResult)
      → Workflow.perform checksum meanwhile audit_id clock now e o w ≡ (ok (replied r), w')
      → IsActivation r
      → IsExact w (meanwhile 1 w) r
  unfolding Workflow.perform
  perform-IsExact Outcome.failed w w' r h a =
      absurd
        (complete_with_refused failed_no_change (some "DEPLOYMENT_FAILED") none w w' r refl h a)
  perform-IsExact Outcome.succeeded w w' r h a =
      with_digest-IsExact e.artifact_digest w w' r refl h a

  -- A claim that ends the call brings a stored result, or one of a stale event.
  abbrev IsIdle : DeploymentClaim → Type 0
  IsIdle (DeploymentClaim.duplicate_of r) = r.duplicate ≡ true
  IsIdle (DeploymentClaim.stale_by r) = is_activation r.state ≡ false
  IsIdle DeploymentClaim.claimed = Unit {0}
  IsIdle DeploymentClaim.resume = Unit {0}

  claim_new-IsIdle :
      (current : Option DeploymentState) (t : DeploymentTables)
      → IsIdle (Deployment.claim_new e clock current t).0
  unfolding Deployment.claim_new
  claim_new-IsIdle current t = elim (Bool-cases (Deployment.not_newer e current)) [
    | inl old ↦ rw (old, Deployment.claim_new) refl
    | inr newer ↦ elim (Bool-cases (Deployment.event_fits e t)) [
      | inl fits ↦ rw (newer, Deployment.claim_new) (rw (fits) tt)
      | inr taken ↦ rw (newer, Deployment.claim_new) (rw (taken) refl)
    ]
  ]

  stored_claim-IsIdle :
      (row : EventRow) (t : DeploymentTables) (x : Option DeploymentResult)
      → row.result ≡ x
      → IsIdle (Deployment.claim_found e clock (some row) t).0
  unfolding Deployment.claim_found
  stored_claim-IsIdle row t none k = rw (k, Deployment.claim_found) tt
  stored_claim-IsIdle row t (some x) k = rw (k, Deployment.claim_found) refl

  claim-IsIdle : (t : DeploymentTables) → IsIdle (Deployment.claim e clock t).0
  unfolding Deployment.claim Deployment.claim_found
  claim-IsIdle t = by_row (select (has_event e.event_id) t.events)
    where
      by_row : (row : Option EventRow) → IsIdle (Deployment.claim_found e clock row t).0
      by_row none = claim_new-IsIdle (state_of e.system e.environment t) t
      by_row (some row) = stored_claim-IsIdle row t row.result refl

  after_claim-IsExact :
      (c : DeploymentClaim) (w w' : World) (r : DeploymentResult)
      → IsIdle c
      → Workflow.after_claim checksum meanwhile audit_id clock now e c w ≡ (ok (replied r), w')
      → IsActivation r
      → IsExact (meanwhile 0 w) (meanwhile 1 (meanwhile 0 w)) r
  unfolding Workflow.after_claim
  after_claim-IsExact (DeploymentClaim.duplicate_of x) w w' r idle h (fresh, act) =
      absurd (ground (arith, idle, h, fresh))
  after_claim-IsExact (DeploymentClaim.stale_by x) w w' r idle h (fresh, act) =
      absurd (ground (arith, idle, h, act))
  after_claim-IsExact DeploymentClaim.claimed w w' r idle h a =
      perform-IsExact e.outcome (meanwhile 0 w) w' r h a
  after_claim-IsExact DeploymentClaim.resume w w' r idle h a =
      perform-IsExact e.outcome (meanwhile 0 w) w' r h a

  -- Whatever other workers do between the calls of `handle`: when it returns a fresh result in the state
  -- PROMOTED or ROLLED_BACK, then a package was bound to the event's artifact in the tables after the
  -- claim; `promote_existing` found its version stored with the package's checksum, and edges of that
  -- checksum, and moved the environment's pointer to that version; the pointer read after it was at that
  -- version with the token of the move; and the result carries the artifact, the package and the
  -- version.
  pub promoted_exactly :
      (is_authentic : Bool) (w w' : World) (r : DeploymentResult)
      → Workflow.handle checksum meanwhile audit_id clock now e is_authentic w
        ≡ (ok (replied r), w')
      → IsActivation r
      → IsExact (lookup_world w) (meanwhile 1 (lookup_world w)) r
  unfolding Workflow.handle
  promoted_exactly is_authentic w w' r h a = elim (Bool-cases (not is_authentic)) [
    | inl refused ↦ absurd (ground (arith, refused, h))
    | inr authentic ↦ elim (Bool-cases (Deployment.is_merge e.event_type)) [
      | inl merges ↦ absurd (ground (arith, authentic, merges, h))
      | inr deploys ↦
          let x : DeploymentClaim × DeploymentTables = Deployment.claim e clock w.deployments in
          after_claim-IsExact x.0 (record w { deployments = x.1 }) w' r (claim-IsIdle w.deployments)
            (ground (arith, authentic, deploys, h)) a
    ]
  ]
