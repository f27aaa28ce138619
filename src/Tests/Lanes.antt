-- ===== src/Tests/Lanes.antt =====
-- The lane broker at concrete inputs.
use lineage_collection.Clock.{in_calendar}
use lineage_collection.Prelude.{
  ℕ, suc, ◌+◌, ◌*◌, ◌⊎◌, ◌<◌, Has, arith, ap, false, eq_iff, String, select, select_all, update,
  matching, ◌≡◌, ◌≢◌, refl, inl, inr, true, Option, none, some, List, [], ◌∷◌,
}
use lineage_collection.Clock.{text_leb, second}
use lineage_collection.Models.{LaneMessage}
use lineage_collection.Database.{Database, MessageRow, empty}
use lineage_collection.Database.Transaction.{Result, ok, err, stale_delivery}
use lineage_collection.Broker
use lineage_collection.Broker.{
  Publication, new_message, leased, is_in_flight, is_active, has_id, eligible,
}
use lineage_collection.Broker.History.{Call, publishes, claims, step, run, run-IsValid}
use lineage_collection.Broker.Invariant.{IsValid}
use lineage_collection.Broker.Fencing.{reclaim_fences}
use lineage_collection.Broker.Fifo.{run-fifo}
use lineage_collection.Broker.Dedup.{publish_again, publish_conflict, publish_supersedes, Content}
use lineage_collection.Broker.Selection.{IsReady, Before, next_row_exact}
use lineage_collection.Broker.Delivery.{claim_total}

abbrev job : Publication
job = record {
  lane = "commands";
  group_key = "repo-a";
  payload_ref = "s3://payload";
  correlation_id = "c-1";
  message_id = "m-1";
  max_attempts = 3;
  supersession_key = none;
}

abbrev published : List Call
published = publishes job 1000000 ∷ []

abbrev first_claim : Result (Option LaneMessage) × Database
first_claim = Broker.claim "commands" "worker-1" 30 2000000 (run empty published)

abbrev delivery : ℕ → String → ℕ → LaneMessage
delivery epoch owner expires_at = record {
  message_id = "m-1";
  lane = "commands";
  group_key = "repo-a";
  payload_ref = "s3://payload";
  correlation_id = "c-1";
  attempt = epoch;
  max_attempts = 3;
  delivery_epoch = epoch;
  owner = owner;
  lease_expires_at = expires_at;
  supersession_key = none;
}

abbrev second_claim : Result (Option LaneMessage) × Database
second_claim = Broker.claim "commands" "worker-2" 30 32000000 (run first_claim.1 [])

first_claim_lem : first_claim ≡ (ok (some (delivery 1 "worker-1" 32000000)), first_claim.1)
unfolding in_calendar select select_all update matching text_leb Broker.same_content
    Broker.new_message Broker.retire_older Broker.insert_message Broker.publish_found
    Broker.publish_tx Broker.publish Broker.recover_expired Broker.max_claim_order Broker.set_group
    Broker.record_claim Broker.lease_row Broker.next_row Broker.claim_row Broker.claim_tx
    Broker.claim Broker.required_message Broker.update_delivery Broker.acknowledge_tx
    Broker.acknowledge Broker.retry_tx Broker.retry Broker.redrive_tx Broker.redrive
    Broker.dead_letters Broker.message_status Broker.message_count Broker.timed_out Broker.recovered
    Broker.blocks Broker.eligible Broker.of_group Broker.last_claim Broker.turn_leb
    Broker.first_in_turn Broker.claims_row Broker.leased Broker.delivers Broker.acknowledged
    Broker.retried Broker.redriven Broker.of_older_head Broker.retired Broker.lane_message_from_row
    Broker.active_delivery step run
first_claim_lem = refl

second_claim_lem : second_claim ≡ (ok (some (delivery 2 "worker-2" 62000000)), second_claim.1)
unfolding in_calendar select select_all update matching text_leb Broker.same_content
    Broker.new_message Broker.retire_older Broker.insert_message Broker.publish_found
    Broker.publish_tx Broker.publish Broker.recover_expired Broker.max_claim_order Broker.set_group
    Broker.record_claim Broker.lease_row Broker.next_row Broker.claim_row Broker.claim_tx
    Broker.claim Broker.required_message Broker.update_delivery Broker.acknowledge_tx
    Broker.acknowledge Broker.retry_tx Broker.retry Broker.redrive_tx Broker.redrive
    Broker.dead_letters Broker.message_status Broker.message_count Broker.timed_out Broker.recovered
    Broker.blocks Broker.eligible Broker.of_group Broker.last_claim Broker.turn_leb
    Broker.first_in_turn Broker.claims_row Broker.leased Broker.delivers Broker.acknowledged
    Broker.retried Broker.redriven Broker.of_older_head Broker.retired Broker.lane_message_from_row
    Broker.active_delivery step run
second_claim_lem = refl

reclaim_fences_example :
    (1 < 2)
    × (Broker.acknowledge (delivery 1 "worker-1" 32000000) 33000000 (run second_claim.1 [])
        ≡ (err stale_delivery, run second_claim.1 []))
    × (Broker.retry
          (delivery 1 "worker-1" 32000000)
          34000000
          "LATE"
          33000000
          (run second_claim.1 [])
        ≡ (err stale_delivery, run second_claim.1 []))
reclaim_fences_example =
    reclaim_fences "commands" "worker-1" "commands" "worker-2" 30 2000000 30 32000000
      (run empty published) first_claim.1 second_claim.1 [] (delivery 1 "worker-1" 32000000)
      (delivery 2 "worker-2" 62000000) [] 33000000 34000000 "LATE" (run-IsValid published)
      first_claim_lem second_claim_lem refl refl

run-IsValid_example : IsValid (run empty published)
run-IsValid_example = run-IsValid published

abbrev next_job : Publication
next_job = record job { message_id = "m-2"; payload_ref = "s3://second" }

abbrev two_jobs : List Call
two_jobs =
    publishes job 1000000
    ∷ publishes next_job 1500000
    ∷ claims "commands" "worker-1" 30 2000000
    ∷ []

abbrev waiting : MessageRow
waiting = new_message next_job 1500000 2

abbrev flying : MessageRow
flying = leased (new_message job 1000000 1) "worker-1" 32000000 (new_message job 1000000 1)

flying_there : Has flying (run empty two_jobs).lane_messages
unfolding in_calendar select select_all update matching text_leb Broker.same_content
    Broker.new_message Broker.retire_older Broker.insert_message Broker.publish_found
    Broker.publish_tx Broker.publish Broker.recover_expired Broker.max_claim_order Broker.set_group
    Broker.record_claim Broker.lease_row Broker.next_row Broker.claim_row Broker.claim_tx
    Broker.claim Broker.required_message Broker.update_delivery Broker.acknowledge_tx
    Broker.acknowledge Broker.retry_tx Broker.retry Broker.redrive_tx Broker.redrive
    Broker.dead_letters Broker.message_status Broker.message_count Broker.timed_out Broker.recovered
    Broker.blocks Broker.eligible Broker.of_group Broker.last_claim Broker.turn_leb
    Broker.first_in_turn Broker.claims_row Broker.leased Broker.delivers Broker.acknowledged
    Broker.retried Broker.redriven Broker.of_older_head Broker.retired Broker.lane_message_from_row
    Broker.active_delivery step run
flying_there = inl refl

waiting_there : Has waiting (run empty two_jobs).lane_messages
unfolding in_calendar select select_all update matching text_leb Broker.same_content
    Broker.new_message Broker.retire_older Broker.insert_message Broker.publish_found
    Broker.publish_tx Broker.publish Broker.recover_expired Broker.max_claim_order Broker.set_group
    Broker.record_claim Broker.lease_row Broker.next_row Broker.claim_row Broker.claim_tx
    Broker.claim Broker.required_message Broker.update_delivery Broker.acknowledge_tx
    Broker.acknowledge Broker.retry_tx Broker.retry Broker.redrive_tx Broker.redrive
    Broker.dead_letters Broker.message_status Broker.message_count Broker.timed_out Broker.recovered
    Broker.blocks Broker.eligible Broker.of_group Broker.last_claim Broker.turn_leb
    Broker.first_in_turn Broker.claims_row Broker.leased Broker.delivers Broker.acknowledged
    Broker.retried Broker.redriven Broker.of_older_head Broker.retired Broker.lane_message_from_row
    Broker.active_delivery step run
waiting_there = inr (inl refl)

flying_lem :
    (is_in_flight flying ≡ true)
    × (flying.lane ≡ waiting.lane)
    × (flying.group_key ≡ waiting.group_key)
unfolding Broker.leased Broker.new_message
flying_lem = (refl, refl, refl)

run-fifo_example :
    (is_in_flight waiting ≡ true → flying ≡ waiting)
    × (waiting.sequence < flying.sequence → is_active waiting ≡ false)
run-fifo_example =
    run-fifo two_jobs (λ x. x, (λ x. x, (λ x. x, tt))) flying waiting flying_there waiting_there
      flying_lem.0 flying_lem.1 flying_lem.2

publish_lem : Broker.publish job 1000000 empty ≡ (ok "m-1", run empty published)
unfolding in_calendar select select_all update matching text_leb Broker.same_content
    Broker.new_message Broker.retire_older Broker.insert_message Broker.publish_found
    Broker.publish_tx Broker.publish Broker.recover_expired Broker.max_claim_order Broker.set_group
    Broker.record_claim Broker.lease_row Broker.next_row Broker.claim_row Broker.claim_tx
    Broker.claim Broker.required_message Broker.update_delivery Broker.acknowledge_tx
    Broker.acknowledge Broker.retry_tx Broker.retry Broker.redrive_tx Broker.redrive
    Broker.dead_letters Broker.message_status Broker.message_count Broker.timed_out Broker.recovered
    Broker.blocks Broker.eligible Broker.of_group Broker.last_claim Broker.turn_leb
    Broker.first_in_turn Broker.claims_row Broker.leased Broker.delivers Broker.acknowledged
    Broker.retried Broker.redriven Broker.of_older_head Broker.retired Broker.lane_message_from_row
    Broker.active_delivery step run
publish_lem = refl

publish_again_example :
    Broker.publish job 5000000
      (run (run empty published) (claims "commands" "worker-1" 30 2000000 ∷ []))
    ≡ (ok "m-1", run (run empty published) (claims "commands" "worker-1" 30 2000000 ∷ []))
publish_again_example =
    publish_again job 1000000 5000000 empty (run empty published) "m-1"
      (claims "commands" "worker-1" 30 2000000 ∷ []) publish_lem

abbrev altered : Publication
altered = record job { payload_ref = "s3://other" }

other_text : ◌≢◌ {A = String} "s3://other" "s3://payload"
other_text e = cc ((eq_iff "s3://other" "s3://payload").1 e)

publish_conflict_example :
    ((Broker.publish altered 5000000 (run (run empty published) [])).1
      ≡ run (run empty published) [])
    × ((i : String) → (Broker.publish altered 5000000 (run (run empty published) [])).0 ≢ ok i)
publish_conflict_example =
    publish_conflict job altered 1000000 5000000 empty (run empty published) "m-1" [] publish_lem
      refl (λ same. other_text (ap (λ (c : Content). c.payload_ref) same))

abbrev head : String → Publication
head id = record job { message_id = id; supersession_key = some "head"; payload_ref = id }

abbrev old_head : Database
old_head = run empty (publishes (head "h-1") 1000000 ∷ [])

abbrev new_head : Result String × Database
new_head = Broker.publish (head "h-2") 2000000 old_head

new_head_lem :
    (select (has_id "h-2") old_head.lane_messages ≡ none)
    × (new_head ≡ (ok "h-2", new_head.1))
    × Has (new_message (head "h-2") 2000000 2) new_head.1.lane_messages
    × (is_active (new_message (head "h-2") 2000000 2) ≡ true)
unfolding in_calendar select select_all update matching text_leb Broker.same_content
    Broker.new_message Broker.retire_older Broker.insert_message Broker.publish_found
    Broker.publish_tx Broker.publish Broker.recover_expired Broker.max_claim_order Broker.set_group
    Broker.record_claim Broker.lease_row Broker.next_row Broker.claim_row Broker.claim_tx
    Broker.claim Broker.required_message Broker.update_delivery Broker.acknowledge_tx
    Broker.acknowledge Broker.retry_tx Broker.retry Broker.redrive_tx Broker.redrive
    Broker.dead_letters Broker.message_status Broker.message_count Broker.timed_out Broker.recovered
    Broker.blocks Broker.eligible Broker.of_group Broker.last_claim Broker.turn_leb
    Broker.first_in_turn Broker.claims_row Broker.leased Broker.delivers Broker.acknowledged
    Broker.retried Broker.redriven Broker.of_older_head Broker.retired Broker.lane_message_from_row
    Broker.active_delivery step run
new_head_lem = (refl, refl, inr (inl refl), refl)

new_head_columns :
    ((new_message (head "h-2") 2000000 2).lane ≡ "commands")
    × ((new_message (head "h-2") 2000000 2).supersession_key ≡ some "head")
unfolding Broker.new_message
new_head_columns = (refl, refl)

publish_supersedes_example :
    (select (Broker.has_id "h-2") new_head.1.lane_messages
      ≡ some (new_message (head "h-2") 2000000 (suc old_head.lane_sequence)))
    × (Broker.is_available (new_message (head "h-2") 2000000 (suc old_head.lane_sequence)) ≡ true)
    × ((r : MessageRow)
        → Has r new_head.1.lane_messages
        → r.lane ≡ "commands"
        → r.supersession_key ≡ some "head"
        → Broker.is_active r ≡ true
        → r ≡ new_message (head "h-2") 2000000 (suc old_head.lane_sequence))
publish_supersedes_example =
    publish_supersedes (head "h-2") 2000000 old_head new_head.1 "h-2" "head" new_head_lem.0
      new_head_lem.1 refl

next_row_lem :
    Broker.next_row "commands" 2000000 (run empty published) ≡ some (new_message job 1000000 1)
unfolding in_calendar select select_all update matching text_leb Broker.same_content
    Broker.new_message Broker.retire_older Broker.insert_message Broker.publish_found
    Broker.publish_tx Broker.publish Broker.recover_expired Broker.max_claim_order Broker.set_group
    Broker.record_claim Broker.lease_row Broker.next_row Broker.claim_row Broker.claim_tx
    Broker.claim Broker.required_message Broker.update_delivery Broker.acknowledge_tx
    Broker.acknowledge Broker.retry_tx Broker.retry Broker.redrive_tx Broker.redrive
    Broker.dead_letters Broker.message_status Broker.message_count Broker.timed_out Broker.recovered
    Broker.blocks Broker.eligible Broker.of_group Broker.last_claim Broker.turn_leb
    Broker.first_in_turn Broker.claims_row Broker.leased Broker.delivers Broker.acknowledged
    Broker.retried Broker.redriven Broker.of_older_head Broker.retired Broker.lane_message_from_row
    Broker.active_delivery step run
next_row_lem = refl

next_row_exact_example :
    ((Broker.next_row "commands" 2000000 (run empty published) ≡ none)
      × ((n : MessageRow)
          → Has n (run empty published).lane_messages
          → IsReady (run empty published).lane_messages "commands" 2000000 n
          → ⊥))
    ⊎ ((row : MessageRow) × (Broker.next_row "commands" 2000000 (run empty published) ≡ some row)
        × Has row (run empty published).lane_messages
        × IsReady (run empty published).lane_messages "commands" 2000000 row
        × ((n : MessageRow)
            → Has n (run empty published).lane_messages
            → IsReady (run empty published).lane_messages "commands" 2000000 n
            → Before
                (Broker.last_claim (run empty published).lane_groups row)
                row.sequence
                (Broker.last_claim (run empty published).lane_groups n)
                n.sequence))
next_row_exact_example = next_row_exact "commands" 2000000 (run empty published)

in_range : in_calendar (2000000 + 30 * second) ≡ true
unfolding in_calendar
in_range = refl

claim_total_example :
    (found : Option LaneMessage) × (Broker.claim "commands" "worker-1" 30 2000000
        (run empty published)).0
      ≡ ok found
claim_total_example =
    claim_total "commands" "worker-1" 30 2000000 (run empty published) (run-IsValid published) refl
      refl (omega arith) in_range
