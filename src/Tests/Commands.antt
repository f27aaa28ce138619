-- ===== src/Tests/Commands.antt =====
-- The command store at concrete inputs. The keys of stages are their names here.
use lineage_collection.Clock.{in_calendar}
use lineage_collection.Prelude.{
  true, inr, ℕ, ◌<◌, String, ◌≡◌, ◌≢◌, refl, Bool, false, none, some, List, [], ◌∷◌, arith, select,
  select_all, update, matching,
}
use lineage_collection.Models.{
  Command, Lease, StageIdentity, StageResult, baseline, queued, same_status, failed_terminal,
}
use lineage_collection.Database.{Database, CommandRow, empty}
use lineage_collection.Database.Transaction.{Result, ok, err, attempts_exhausted}
use lineage_collection.Control
use lineage_collection.Control.{
  same_submission, has_command, has_key, has_stage_key, new_command, ended, completed_row, leased,
  stage_row,
}
use lineage_collection.Control.Stages.{
  complete, complete_tx, finish_command, store_result, same_checksum, is_done,
}
use lineage_collection.Control.History.{Call, submits, claims, renews, completes, step, run}
use lineage_collection.Control.Invariant.{IsValid, commands-IsValid}
use lineage_collection.Control.Evolution.{stage_result_immutable}
use lineage_collection.Control.Exclusion.{claim_exclusive}
use lineage_collection.Control.Leases.{takeover_fences}
use lineage_collection.Control.Submission.{submit_once}

abbrev key_of : StageIdentity → String
key_of i = i.stage_name

abbrev command : Command
command = record {
  command_id = "cmd-1";
  idempotency_key = "key-1";
  workflow_kind = baseline;
  workflow_version = "1.0.0";
  scope = "repo-a";
  artifact_digest = "sha256:a";
  determinant_digest = "sha256:d";
  status = queued;
  attempt = 0;
  max_attempts = 2;
  input_ref = "s3://input";
  correlation_id = "c-1";
  created_at = 1000000;
  deadline_at = 900000000;
  causation_id = none;
  output_ref = none;
}

abbrev submitted : List Call
submitted = submits command 1000000 ∷ []

commands-IsValid_example : IsValid (run key_of empty submitted).commands
commands-IsValid_example = commands-IsValid key_of submitted

abbrev lease : ℕ → String → ℕ → Lease
lease epoch owner expires_at = record {
  command_id = "cmd-1";
  owner = owner;
  epoch = epoch;
  expires_at = expires_at;
}

abbrev first_claim : Result Lease × Database
first_claim = Control.claim "cmd-1" "worker-1" 60 2000000 (run key_of empty submitted)

abbrev first_lease : Lease
first_lease = lease 1 "worker-1" 62000000

first_claim_lem : first_claim ≡ (ok first_lease, first_claim.1)
unfolding in_calendar select select_all update matching Control.insert_command Control.submit_found
    Control.submit_tx Control.submit Control.get Control.required_row Control.update_commands
    Control.finish_attempt Control.close_expired Control.claimable Control.new_attempt
    Control.insert_attempt Control.take_lease Control.end_exhausted Control.claim_ended
    Control.claim_running Control.claim_waiting Control.claim_row Control.claim_tx Control.claim
    Control.update_held Control.renew_tx Control.renew Control.fail_tx Control.fail
    Control.same_submission Control.new_command Control.ended Control.still_is Control.leased
    Control.held_by Control.active_lease Control.renewed_row Control.completed_row
    Control.failed_row Control.result_matches_lease Control.result_matches_command
    Control.same_attempt Control.finished Control.stage_row complete complete_tx finish_command
    store_result same_checksum is_done step run
first_claim_lem = refl

submit_lem : Control.submit command 1000000 empty ≡ (ok command, run key_of empty submitted)
unfolding in_calendar select select_all update matching Control.insert_command Control.submit_found
    Control.submit_tx Control.submit Control.get Control.required_row Control.update_commands
    Control.finish_attempt Control.close_expired Control.claimable Control.new_attempt
    Control.insert_attempt Control.take_lease Control.end_exhausted Control.claim_ended
    Control.claim_running Control.claim_waiting Control.claim_row Control.claim_tx Control.claim
    Control.update_held Control.renew_tx Control.renew Control.fail_tx Control.fail
    Control.same_submission Control.new_command Control.ended Control.still_is Control.leased
    Control.held_by Control.active_lease Control.renewed_row Control.completed_row
    Control.failed_row Control.result_matches_lease Control.result_matches_command
    Control.same_attempt Control.finished Control.stage_row complete complete_tx finish_command
    store_result same_checksum is_done step run
submit_lem = refl

submit_once_example :
    (current : Command) × (Control.submit command 3000000
        (run key_of (run key_of empty submitted) (claims "cmd-1" "worker-1" 60 2000000 ∷ []))
      ≡ (
        ok current,
        run key_of (run key_of empty submitted) (claims "cmd-1" "worker-1" 60 2000000 ∷ []),
      ))
    × ((row : CommandRow) × (select
            (has_key "key-1")
            (run key_of
              (run key_of empty submitted)
              (claims "cmd-1" "worker-1" 60 2000000 ∷ [])).commands
          ≡ some row)
        × (row.command ≡ current))
    × (current.command_id ≡ "cmd-1")
    × (current.idempotency_key ≡ "key-1")
    × (same_submission current command ≡ true)
submit_once_example =
    submit_once key_of command command 1000000 3000000 empty (run key_of empty submitted)
      (claims "cmd-1" "worker-1" 60 2000000 ∷ []) submit_lem

-- Another worker claims, and the worker renews its lease, before the claim that is refused.
abbrev contended : List Call
contended = claims "cmd-1" "worker-2" 60 2500000 ∷ renews first_lease 60 2600000 ∷ []

claim_exclusive_example :
    (Control.claim "cmd-1" "worker-2" 60 3000000 (run key_of first_claim.1 contended)).0
    ≢ ok (lease 2 "worker-2" 63000000)
claim_exclusive_example =
    claim_exclusive key_of "cmd-1" "worker-1" "worker-2" 60 60 2000000 3000000
      (run key_of empty submitted) first_claim.1 contended first_lease (lease 2 "worker-2" 63000000)
      first_claim_lem (omega arith, (inr (omega arith), tt)) (omega arith)

abbrev second_claim : Result Lease × Database
second_claim = Control.claim "cmd-1" "worker-2" 60 70000000 (run key_of first_claim.1 [])

second_claim_lem : second_claim ≡ (ok (lease 2 "worker-2" 130000000), second_claim.1)
unfolding in_calendar select select_all update matching Control.insert_command Control.submit_found
    Control.submit_tx Control.submit Control.get Control.required_row Control.update_commands
    Control.finish_attempt Control.close_expired Control.claimable Control.new_attempt
    Control.insert_attempt Control.take_lease Control.end_exhausted Control.claim_ended
    Control.claim_running Control.claim_waiting Control.claim_row Control.claim_tx Control.claim
    Control.update_held Control.renew_tx Control.renew Control.fail_tx Control.fail
    Control.same_submission Control.new_command Control.ended Control.still_is Control.leased
    Control.held_by Control.active_lease Control.renewed_row Control.completed_row
    Control.failed_row Control.result_matches_lease Control.result_matches_command
    Control.same_attempt Control.finished Control.stage_row complete complete_tx finish_command
    store_result same_checksum is_done step run
second_claim_lem = refl

takeover_fences_example :
    (1 < 2)
    × ((more : List Call) (at : ℕ)
        → let s = run key_of second_claim.1 more in
          ((seconds : ℕ) → (Control.renew first_lease seconds at s).1 ≡ s)
          × ((code : String) (retryable : Bool)
              → (Control.fail first_lease code retryable at s).1 ≡ s)
          × ((result : StageResult) → (complete key_of first_lease result at s).1 ≡ s))
takeover_fences_example =
    takeover_fences key_of "cmd-1" "worker-1" "worker-2" 60 60 2000000 70000000
      (run key_of empty submitted) first_claim.1 second_claim.1 [] first_lease
      (lease 2 "worker-2" 130000000) first_claim_lem second_claim_lem

abbrev result : StageResult
result = record {
  identity = record {
    workflow_kind = baseline;
    scope = "repo-a";
    artifact_digest = "sha256:a";
    stage_name = "B1";
    determinant_digest = "sha256:d";
    schema_version = "1.0.0";
  };
  command_id = "cmd-1";
  output_ref = "s3://output";
  output_checksum = "sha256:o";
  lease_epoch = 1;
  completed_at = 5000000;
}

abbrev finished : Database
finished = run key_of first_claim.1 (completes first_lease result 5000000 ∷ [])

stored_lem : select (has_stage_key "B1") finished.stage_results ≡ some (stage_row "B1" result)
unfolding in_calendar select select_all update matching Control.insert_command Control.submit_found
    Control.submit_tx Control.submit Control.get Control.required_row Control.update_commands
    Control.finish_attempt Control.close_expired Control.claimable Control.new_attempt
    Control.insert_attempt Control.take_lease Control.end_exhausted Control.claim_ended
    Control.claim_running Control.claim_waiting Control.claim_row Control.claim_tx Control.claim
    Control.update_held Control.renew_tx Control.renew Control.fail_tx Control.fail
    Control.same_submission Control.new_command Control.ended Control.still_is Control.leased
    Control.held_by Control.active_lease Control.renewed_row Control.completed_row
    Control.failed_row Control.result_matches_lease Control.result_matches_command
    Control.same_attempt Control.finished Control.stage_row complete complete_tx finish_command
    store_result same_checksum is_done step run
stored_lem = refl

stage_result_immutable_example :
    select
      (has_stage_key "B1")
      (run key_of finished (claims "cmd-1" "worker-2" 60 6000000 ∷ [])).stage_results
    ≡ some (stage_row "B1" result)
stage_result_immutable_example =
    stage_result_immutable key_of "B1" (stage_row "B1" result) finished
      (claims "cmd-1" "worker-2" 60 6000000 ∷ []) stored_lem

-- A command of one attempt that has completed.
abbrev single : Command
single = record command { max_attempts = 1 }

abbrev single_claim : Result Lease × Database
single_claim =
    Control.claim "cmd-1" "worker-1" 60 2000000 (run key_of empty (submits single 1000000 ∷ []))

abbrev single_done : Database
single_done = run key_of single_claim.1 (completes first_lease result 5000000 ∷ [])

abbrev done_row : CommandRow
done_row =
    completed_row "s3://output" 5000000
      (leased (new_command single 1000000) "worker-1" 62000000 2000000 (new_command single 1000000))

done_lem :
    (select (has_command "cmd-1") single_done.commands ≡ some done_row)
    × (done_row.command.max_attempts ≡ 1)
    × (done_row.command.attempt ≡ 1)
    × (same_status done_row.command.status failed_terminal ≡ false)
unfolding in_calendar select select_all update matching Control.insert_command Control.submit_found
    Control.submit_tx Control.submit Control.get Control.required_row Control.update_commands
    Control.finish_attempt Control.close_expired Control.claimable Control.new_attempt
    Control.insert_attempt Control.take_lease Control.end_exhausted Control.claim_ended
    Control.claim_running Control.claim_waiting Control.claim_row Control.claim_tx Control.claim
    Control.update_held Control.renew_tx Control.renew Control.fail_tx Control.fail
    Control.same_submission Control.new_command Control.ended Control.still_is Control.leased
    Control.held_by Control.active_lease Control.renewed_row Control.completed_row
    Control.failed_row Control.result_matches_lease Control.result_matches_command
    Control.same_attempt Control.finished Control.stage_row complete complete_tx finish_command
    store_result same_checksum is_done step run
done_lem = (refl, refl, refl, refl)

-- A claim of a completed command whose attempts are used up ends it.
completed_ended :
    ((Control.claim "cmd-1" "worker-2" 60 6000000 single_done).0 ≡ err attempts_exhausted)
    × (select
          (has_command "cmd-1")
          (Control.claim "cmd-1" "worker-2" 60 6000000 single_done).1.commands
        ≡ some (ended "ATTEMPTS_EXHAUSTED" 6000000 done_row))
unfolding in_calendar select select_all update matching Control.insert_command Control.submit_found
    Control.submit_tx Control.submit Control.get Control.required_row Control.update_commands
    Control.finish_attempt Control.close_expired Control.claimable Control.new_attempt
    Control.insert_attempt Control.take_lease Control.end_exhausted Control.claim_ended
    Control.claim_running Control.claim_waiting Control.claim_row Control.claim_tx Control.claim
    Control.update_held Control.renew_tx Control.renew Control.fail_tx Control.fail
    Control.same_submission Control.new_command Control.ended Control.still_is Control.leased
    Control.held_by Control.active_lease Control.renewed_row Control.completed_row
    Control.failed_row Control.result_matches_lease Control.result_matches_command
    Control.same_attempt Control.finished Control.stage_row complete complete_tx finish_command
    store_result same_checksum is_done step run
completed_ended = (refl, refl)
