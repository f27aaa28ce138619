-- ===== src/Tests/Deliveries.antt =====
-- The intake and the outbox at concrete inputs.
use lineage_collection.Clock.{in_calendar}
use lineage_collection.Prelude.{
  ℕ, ◌⊎◌, ◌≤◌, ◌≡◌, refl, Bool, true, false, none, [], ◌∷◌, Has, length, select, select_all, update,
  matching,
}
use lineage_collection.Clock.{text_leb}
use lineage_collection.Models.{Command, OutboxEvent, pending, DurableAcceptance, baseline, queued}
use lineage_collection.Database.{Database, empty}
use lineage_collection.Database.Transaction.{Result, ok}
use lineage_collection.Broker
use lineage_collection.Control
use lineage_collection.Outbox
use lineage_collection.Outbox.{dispatch, pending_rows}
use lineage_collection.Outbox.Delivery.{IsDelivered}
use lineage_collection.Outbox.Dispatch.{dispatch_ok}
use lineage_collection.Outbox.Batch.{IsDue, IsOrdered, Comes, pending_rows_exact}
use lineage_collection.Intake.{receive, accept_tx, accept}
use lineage_collection.Intake.Parts.{IsDurable}
use lineage_collection.Intake.Idempotence.{accept-IsDurable, accept_again}

abbrev event : OutboxEvent
event = record {
  outbox_id = "o-1";
  topic = "commands";
  partition_key = "repo-a";
  payload_ref = "cmd-1";
  status = pending;
  attempts = 0;
  available_at = 1000000;
  correlation_id = "c-1";
  created_at = 1000000;
  delivered_at = none;
}

abbrev command : Command
command = record {
  command_id = "cmd-1";
  idempotency_key = "key-1";
  workflow_kind = baseline;
  workflow_version = "1.0.0";
  scope = "repo-a";
  artifact_digest = "sha256:a";
  determinant_digest = "sha256:d";
  status = queued;
  attempt = 0;
  max_attempts = 2;
  input_ref = "s3://input";
  correlation_id = "c-1";
  created_at = 1000000;
  deadline_at = 900000000;
  causation_id = none;
  output_ref = none;
}

abbrev accepted : Result DurableAcceptance × Database
accepted = accept true "e-1" "{}" 1000000 command event 1000000 empty

abbrev acceptance : DurableAcceptance
acceptance = record { created = true; envelope_json = "{}"; command = command; outbox = event }

accepted_lem : accepted ≡ (ok acceptance, accepted.1)
unfolding in_calendar select update matching Control.insert_command Control.submit_found
    Control.submit_tx Control.submit Control.get Control.required_row Control.update_commands
    Control.finish_attempt Control.close_expired Control.claimable Control.new_attempt
    Control.insert_attempt Control.take_lease Control.end_exhausted Control.claim_ended
    Control.claim_running Control.claim_waiting Control.claim_row Control.claim_tx Control.claim
    Control.update_held Control.renew_tx Control.renew Control.fail_tx Control.fail
    Control.same_submission Control.new_command Control.ended Control.still_is Control.leased
    Control.held_by Control.active_lease Control.renewed_row Control.completed_row
    Control.failed_row Control.result_matches_lease Control.result_matches_command
    Control.same_attempt Control.finished Control.stage_row Outbox.same_identity Outbox.new_event
    Outbox.append_found Outbox.append_tx Outbox.append Outbox.event_leb Outbox.insert_event
    Outbox.sort_events Outbox.due Outbox.pending_rows Outbox.pending_events Outbox.delivered_row
    Outbox.mark_row Outbox.mark_delivered_tx Outbox.mark_delivered Outbox.deliver_all
    Outbox.dispatch receive accept_tx accept
accepted_lem = refl

accept-IsDurable_example : IsDurable "e-1" "{}" command event accepted.1 acceptance
accept-IsDurable_example =
    accept-IsDurable true "e-1" "{}" 1000000 command event 1000000 empty accepted.1 acceptance
      accepted_lem

accept_again_example :
    accept false "e-1" "{}" 2000000 command event 3000000 accepted.1
    ≡ (ok (record acceptance { created = false }), accepted.1)
accept_again_example =
    accept_again true "e-1" "{}" 1000000 command event 1000000 empty accepted.1 acceptance
      accepted_lem refl false 2000000 3000000

abbrev clock : ℕ → ℕ
clock n = 5000000

abbrev returns : OutboxEvent → Bool
returns e = true

abbrev pending_state : Database
pending_state = record empty { outbox_events = event ∷ [] }

abbrev dispatched : Result ℕ × Database
dispatched = dispatch returns clock 10 pending_state

dispatched_lem : dispatched ≡ (ok 1, dispatched.1)
unfolding in_calendar select select_all update matching text_leb Broker.same_content
    Broker.new_message Broker.retire_older Broker.insert_message Broker.publish_found
    Broker.publish_tx Broker.publish Broker.recover_expired Broker.max_claim_order Broker.set_group
    Broker.record_claim Broker.lease_row Broker.next_row Broker.claim_row Broker.claim_tx
    Broker.claim Broker.required_message Broker.update_delivery Broker.acknowledge_tx
    Broker.acknowledge Broker.retry_tx Broker.retry Broker.redrive_tx Broker.redrive
    Broker.dead_letters Broker.message_status Broker.message_count Broker.timed_out Broker.recovered
    Broker.blocks Broker.eligible Broker.of_group Broker.last_claim Broker.turn_leb
    Broker.first_in_turn Broker.claims_row Broker.leased Broker.delivers Broker.acknowledged
    Broker.retried Broker.redriven Broker.of_older_head Broker.retired Broker.lane_message_from_row
    Broker.active_delivery Outbox.same_identity Outbox.new_event Outbox.append_found
    Outbox.append_tx Outbox.append Outbox.event_leb Outbox.insert_event Outbox.sort_events
    Outbox.due Outbox.pending_rows Outbox.pending_events Outbox.delivered_row Outbox.mark_row
    Outbox.mark_delivered_tx Outbox.mark_delivered Outbox.deliver_all Outbox.dispatch
dispatched_lem = refl

dispatch_ok_example :
    (1 ≡ length (pending_rows 10 5000000 pending_state))
    × ((e : OutboxEvent)
        → Has e (pending_rows 10 5000000 pending_state)
        → IsDelivered e dispatched.1)
dispatch_ok_example = dispatch_ok returns clock 10 1 pending_state dispatched.1 dispatched_lem

pending_rows_exact_example :
    (length (pending_rows 10 5000000 pending_state) ≤ 10)
    × IsOrdered (pending_rows 10 5000000 pending_state)
    × ((e : OutboxEvent)
        → Has e (pending_rows 10 5000000 pending_state)
        → IsDue 10 5000000 pending_state e)
    × ((x : OutboxEvent)
        → IsDue 10 5000000 pending_state x
        → Has x (pending_rows 10 5000000 pending_state)
          ⊎ ((length (pending_rows 10 5000000 pending_state) ≡ 10)
              × ((e : OutboxEvent) → Has e (pending_rows 10 5000000 pending_state) → Comes e x)))
pending_rows_exact_example = pending_rows_exact 10 5000000 pending_state
