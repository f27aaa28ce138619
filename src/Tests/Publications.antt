-- ===== src/Tests/Publications.antt =====
-- Concrete publications: an environment `prod` at `v1`, with reservations, rollbacks and publications.
use lineage_collection.Prelude.{
  ℕ, ◌<◌, String, Bool, true, false, ◌≡◌, ◌≢◌, refl, sym, ap, ◌∙◌, map, ◌++◌, none, List, [], ◌∷◌,
  inl, inr, Has, arith, join, select, select_all, update, decimal, digits,
}
use lineage_collection.Database.Transaction.{ok, err, fence_lost, out_of_fuel}
use lineage_collection.Domain.Proposals.{approved}
use lineage_collection.Publication
use lineage_collection.Publication.Tables.{
  Edge, Pointer, PublishReservation, ReservationStatus, StagedNamespace, GraphVersion, VersionState,
  GraphTables, PublishResult, empty_graph,
}
use lineage_collection.Evidence
use lineage_collection.Publication.Operations
use lineage_collection.Publication.Operations.{Proposal, Approval}
use lineage_collection.Publication.Publish
use lineage_collection.Publication.Publish.{Boundary}
use lineage_collection.Publication.History.{
  Setup, Call, reserves, stages, activates, rolls_back, publishes, run, step,
}
use lineage_collection.Publication.Fences
use lineage_collection.Publication.Rounds
use lineage_collection.Publication.Versions
use lineage_collection.Publication.Versions.{Serves}
use lineage_collection.Publication.Pointers
use lineage_collection.Publication.Pointers.{IsFenced, Advances}

abbrev key_text : List Edge → String
key_text [] = ""
key_text (e ∷ es) = join (e.edge_key ∷ ";" ∷ key_text es ∷ [])

abbrev setup : Setup
setup = record {
  checksum = key_text;
  paths = record { is_safe = λ _. true; path_of = λ k. k };
  reference_text = λ r. r.key;
  manifest_digest = λ o. o.edge_checksum;
  batch_size = 1;
  operation_id = λ env p v a. join (env ∷ ":" ∷ p ∷ ":" ∷ a ∷ []);
  package_digest = λ a b c. join (a ∷ b ∷ c ∷ []);
  discard = true;
}

abbrev edge : String → Edge
edge key = record { edge_key = key; status = none; system = "orders"; version = 1; body = "" }

abbrev first_pointer : Pointer
first_pointer = record { env = "prod"; active_version = "v1"; fencing_token = 0; updated_at = 0 }

abbrev first_version : GraphVersion
first_version = record {
  env = "prod";
  version = "v1";
  state = VersionState.active;
  manifest_ref = none;
  checksum = "";
  created_at = 0;
}

abbrev start : GraphTables
start = record empty_graph { pointers = first_pointer ∷ []; versions = first_version ∷ [] }

abbrev proposal : Proposal
proposal = record {
  proposal_id = "p";
  version = 1;
  state = approved;
  expected_base_version = "v1";
  removed = [];
  added = edge "b" ∷ edge "a" ∷ [];
  band_changed = [];
  correlation_id = "c";
  proposal_digest = "d";
}

abbrev approval : Approval
approval = record {
  approval_id = "a1";
  proposal_id = "p";
  proposal_version = 1;
  is_approved = true;
  actor = "ann";
  approval_ref = "r";
  approval_checksum = "s";
}

abbrev no_fault : Boundary → Bool
no_fault _ = false

abbrev published : Publish.Run PublishResult
published =
    Publish.publish setup.checksum setup.paths setup.reference_text setup.manifest_digest
      setup.batch_size no_fault setup.operation_id setup.package_digest setup.discard proposal
      approval "prod" 7

result : PublishResult
result = record {
  namespace_version = "v2";
  pointer = Publication.new_pointer "prod" "v2" 1 7;
  manifest_ref = "prod/v2";
}

publish_works : (published start).0 ≡ ok result
unfolding result select select_all update decimal digits join Operations.approval_matches
    Operations.projected_edges Operations.ensure_operation Operations.ensure_row
    Operations.reserve_operation Operations.reserve_operation_tx Operations.reserve_created
    Operations.load_operation Operations.advance Operations.create_namespace
    Operations.create_namespace_tx Operations.current_edges Operations.entry_edges
    Operations.finish_writing Operations.pop_all Operations.pop_entry Operations.put_all
    Operations.round Operations.set_entry Operations.write_batch Operations.write_edge
    Operations.write_edges Operations.write_round_tx Publish.publish Publish.publish_operation
    Publish.new_operation Publish.resume Publish.run_phases Publish.phases Publish.phase
    Publish.activate_operation_tx Publish.activation Publish.complete_operation
    Publish.deliver_event Publish.deliver_tx Publish.ignore_audit Publish.ignore_outbox
    Publish.make_staged_active Publish.mark_failure Publish.record_manifest Publish.result_from
    Publish.verify_operation Publish.write_manifest Publication.reserve_tx Publication.reserve
    Publication.stage_tx Publication.stage Publication.activate_tx Publication.activate
    Publication.rollback_tx Publication.rollback Publication.promote_tx Publication.promote_reserved
    Publication.promote_existing Publication.supported_action Publication.insert_edges
    Publication.insert_audit Publication.make_active Publication.close_reservation
    Publication.insert_by Publication.move_pointer Publication.retire_active Publication.sort_by
    Publication.stored_edges Publication.upsert_reservation Evidence.allowed_kind Evidence.put
    Evidence.validate_location Evidence.write_file Evidence.write_object
publish_works = refl

-- A reservation that is overtaken.
abbrev first_reservation : PublishReservation
first_reservation = record {
  env = "prod";
  token = 1;
  expected_prior = "v1";
  status = ReservationStatus.reserved;
  reserved_at = 3;
}

abbrev second_reservation : PublishReservation
second_reservation = record {
  env = "prod";
  token = 3;
  expected_prior = "v1";
  status = ReservationStatus.reserved;
  reserved_at = 9;
}

abbrev staged_namespace : StagedNamespace
staged_namespace = record {
  env = "prod";
  namespace_version = "v2";
  token = 1;
  expected_prior = "v1";
  manifest_ref = "m";
  edge_checksum = "a;b;";
  edge_count = 2;
}

abbrev between : List Call
between = stages first_reservation (edge "b" ∷ edge "a" ∷ []) "m" 4 ∷ reserves "prod" "v1" 5 ∷ []

after_first : GraphTables
after_first = (Publication.reserve "prod" "v1" 3 start).1

after_second : GraphTables
after_second = (Publication.reserve "prod" "v1" 9 (run setup after_first between)).1

first_taken : Publication.reserve "prod" "v1" 3 start ≡ (ok first_reservation, after_first)
unfolding after_first select select_all update decimal digits join Operations.approval_matches
    Operations.projected_edges Operations.ensure_operation Operations.ensure_row
    Operations.reserve_operation Operations.reserve_operation_tx Operations.reserve_created
    Operations.load_operation Operations.advance Operations.create_namespace
    Operations.create_namespace_tx Operations.current_edges Operations.entry_edges
    Operations.finish_writing Operations.pop_all Operations.pop_entry Operations.put_all
    Operations.round Operations.set_entry Operations.write_batch Operations.write_edge
    Operations.write_edges Operations.write_round_tx Publish.publish Publish.publish_operation
    Publish.new_operation Publish.resume Publish.run_phases Publish.phases Publish.phase
    Publish.activate_operation_tx Publish.activation Publish.complete_operation
    Publish.deliver_event Publish.deliver_tx Publish.ignore_audit Publish.ignore_outbox
    Publish.make_staged_active Publish.mark_failure Publish.record_manifest Publish.result_from
    Publish.verify_operation Publish.write_manifest Publication.reserve_tx Publication.reserve
    Publication.stage_tx Publication.stage Publication.activate_tx Publication.activate
    Publication.rollback_tx Publication.rollback Publication.promote_tx Publication.promote_reserved
    Publication.promote_existing Publication.supported_action Publication.insert_edges
    Publication.insert_audit Publication.make_active Publication.close_reservation
    Publication.insert_by Publication.move_pointer Publication.retire_active Publication.sort_by
    Publication.stored_edges Publication.upsert_reservation Evidence.allowed_kind Evidence.put
    Evidence.validate_location Evidence.write_file Evidence.write_object
first_taken = refl

second_taken :
    Publication.reserve "prod" "v1" 9 (run setup after_first between)
    ≡ (ok second_reservation, after_second)
unfolding after_first after_second run step select select_all update decimal digits join
    Operations.approval_matches Operations.projected_edges Operations.ensure_operation
    Operations.ensure_row Operations.reserve_operation Operations.reserve_operation_tx
    Operations.reserve_created Operations.load_operation Operations.advance
    Operations.create_namespace Operations.create_namespace_tx Operations.current_edges
    Operations.entry_edges Operations.finish_writing Operations.pop_all Operations.pop_entry
    Operations.put_all Operations.round Operations.set_entry Operations.write_batch
    Operations.write_edge Operations.write_edges Operations.write_round_tx Publish.publish
    Publish.publish_operation Publish.new_operation Publish.resume Publish.run_phases Publish.phases
    Publish.phase Publish.activate_operation_tx Publish.activation Publish.complete_operation
    Publish.deliver_event Publish.deliver_tx Publish.ignore_audit Publish.ignore_outbox
    Publish.make_staged_active Publish.mark_failure Publish.record_manifest Publish.result_from
    Publish.verify_operation Publish.write_manifest Publication.reserve_tx Publication.reserve
    Publication.stage_tx Publication.stage Publication.activate_tx Publication.activate
    Publication.rollback_tx Publication.rollback Publication.promote_tx Publication.promote_reserved
    Publication.promote_existing Publication.supported_action Publication.insert_edges
    Publication.insert_audit Publication.make_active Publication.close_reservation
    Publication.insert_by Publication.move_pointer Publication.retire_active Publication.sort_by
    Publication.stored_edges Publication.upsert_reservation Evidence.allowed_kind Evidence.put
    Evidence.validate_location Evidence.write_file Evidence.write_object
second_taken = refl

newer_reservation_fences_example :
    (1 < 3)
    × (Publication.activate setup.checksum first_reservation staged_namespace 11
          (run setup after_second [])
        ≡ (err fence_lost, run setup after_second []))
newer_reservation_fences_example =
    Fences.newer_reservation_fences setup "prod" "v1" "v1" 3 9 start after_first after_second
      first_reservation second_reservation between [] staged_namespace 11 first_taken second_taken

-- An activation whose reservation is still open.
activation_works :
    (Publication.activate setup.checksum first_reservation staged_namespace 11
      (run setup after_first (stages first_reservation (edge "b" ∷ edge "a" ∷ []) "m" 4 ∷ []))).0
    ≡ ok (Publication.new_pointer "prod" "v2" 1 11)
unfolding after_first run step select select_all update decimal digits join
    Operations.approval_matches Operations.projected_edges Operations.ensure_operation
    Operations.ensure_row Operations.reserve_operation Operations.reserve_operation_tx
    Operations.reserve_created Operations.load_operation Operations.advance
    Operations.create_namespace Operations.create_namespace_tx Operations.current_edges
    Operations.entry_edges Operations.finish_writing Operations.pop_all Operations.pop_entry
    Operations.put_all Operations.round Operations.set_entry Operations.write_batch
    Operations.write_edge Operations.write_edges Operations.write_round_tx Publish.publish
    Publish.publish_operation Publish.new_operation Publish.resume Publish.run_phases Publish.phases
    Publish.phase Publish.activate_operation_tx Publish.activation Publish.complete_operation
    Publish.deliver_event Publish.deliver_tx Publish.ignore_audit Publish.ignore_outbox
    Publish.make_staged_active Publish.mark_failure Publish.record_manifest Publish.result_from
    Publish.verify_operation Publish.write_manifest Publication.reserve_tx Publication.reserve
    Publication.stage_tx Publication.stage Publication.activate_tx Publication.activate
    Publication.rollback_tx Publication.rollback Publication.promote_tx Publication.promote_reserved
    Publication.promote_existing Publication.supported_action Publication.insert_edges
    Publication.insert_audit Publication.make_active Publication.close_reservation
    Publication.insert_by Publication.move_pointer Publication.retire_active Publication.sort_by
    Publication.stored_edges Publication.upsert_reservation Evidence.allowed_kind Evidence.put
    Evidence.validate_location Evidence.write_file Evidence.write_object
activation_works = refl

start-Serves : Serves start.versions start.pointers
start-Serves = record {
  keys = λ a b ha hb e. only_version a ha ∙ sym (only_version b hb);
  one_active = λ a b ha hb e x y. only_version a ha ∙ sym (only_version b hb);
  pointed = λ g p hg hp e x.
      ap (λ (q : Pointer). q.active_version) (only_pointer p hp)
      ∙ sym (ap (λ (v : GraphVersion). v.version) (only_version g hg));
}
  where
    only_version : (g : GraphVersion) → Has g start.versions → g ≡ first_version
    only_version g (inl e) = e
    only_version g (inr h) = absurd h

    only_pointer : (p : Pointer) → Has p start.pointers → p ≡ first_pointer
    only_pointer p (inl e) = e
    only_pointer p (inr h) = absurd h

abbrev history : List Call
history =
    publishes no_fault proposal approval "prod" 7
    ∷ rolls_back "prod" "v1" "bob" "c" "audit" 8
    ∷ reserves "prod" "v1" 9
    ∷ []

run-Serves_example : Serves (run setup start history).versions (run setup start history).pointers
run-Serves_example = Versions.run-Serves setup start history start-Serves

start-IsFenced : IsFenced start.pointers start.reservations
start-IsFenced = record {
  unique = λ a b ha hb e. only a ha ∙ sym (only b hb);
  ahead = λ p q hp hq e x. absurd hq;
}
  where
    only : (p : Pointer) → Has p start.pointers → p ≡ first_pointer
    only p (inl e) = e
    only p (inr h) = absurd h

pointers_advance_example :
    (p' : Pointer) × Has p'
      (run setup start
        (publishes no_fault proposal approval "prod" 7 ∷ reserves "prod" "v2" 9 ∷ [])).pointers
    × Advances first_pointer p'
pointers_advance_example =
    Pointers.pointers_advance setup start
      (publishes no_fault proposal approval "prod" 7 ∷ reserves "prod" "v2" 9 ∷ []) first_pointer
      start-IsFenced (tt, (tt, tt)) (inl refl)

-- Rollbacks to another version and back leave an older reservation open, under which the token falls.
abbrev around : List Call
around =
    stages first_reservation (edge "b" ∷ edge "a" ∷ []) "m" 4
    ∷ rolls_back "prod" "v2" "bob" "c" "x" 5
    ∷ rolls_back "prod" "v1" "bob" "c" "y" 6
    ∷ []

tokens : GraphTables → List ℕ
tokens t = map (λ (p : Pointer). p.fencing_token) t.pointers

token_before : tokens (run setup after_first around) ≡ 2 ∷ []
unfolding tokens after_first run step select select_all update decimal digits join
    Operations.approval_matches Operations.projected_edges Operations.ensure_operation
    Operations.ensure_row Operations.reserve_operation Operations.reserve_operation_tx
    Operations.reserve_created Operations.load_operation Operations.advance
    Operations.create_namespace Operations.create_namespace_tx Operations.current_edges
    Operations.entry_edges Operations.finish_writing Operations.pop_all Operations.pop_entry
    Operations.put_all Operations.round Operations.set_entry Operations.write_batch
    Operations.write_edge Operations.write_edges Operations.write_round_tx Publish.publish
    Publish.publish_operation Publish.new_operation Publish.resume Publish.run_phases Publish.phases
    Publish.phase Publish.activate_operation_tx Publish.activation Publish.complete_operation
    Publish.deliver_event Publish.deliver_tx Publish.ignore_audit Publish.ignore_outbox
    Publish.make_staged_active Publish.mark_failure Publish.record_manifest Publish.result_from
    Publish.verify_operation Publish.write_manifest Publication.reserve_tx Publication.reserve
    Publication.stage_tx Publication.stage Publication.activate_tx Publication.activate
    Publication.rollback_tx Publication.rollback Publication.promote_tx Publication.promote_reserved
    Publication.promote_existing Publication.supported_action Publication.insert_edges
    Publication.insert_audit Publication.make_active Publication.close_reservation
    Publication.insert_by Publication.move_pointer Publication.retire_active Publication.sort_by
    Publication.stored_edges Publication.upsert_reservation Evidence.allowed_kind Evidence.put
    Evidence.validate_location Evidence.write_file Evidence.write_object
token_before = refl

token_falls :
    tokens (run setup after_first (around ++ activates first_reservation staged_namespace 7 ∷ []))
    ≡ 1 ∷ []
unfolding tokens after_first run step select select_all update decimal digits join
    Operations.approval_matches Operations.projected_edges Operations.ensure_operation
    Operations.ensure_row Operations.reserve_operation Operations.reserve_operation_tx
    Operations.reserve_created Operations.load_operation Operations.advance
    Operations.create_namespace Operations.create_namespace_tx Operations.current_edges
    Operations.entry_edges Operations.finish_writing Operations.pop_all Operations.pop_entry
    Operations.put_all Operations.round Operations.set_entry Operations.write_batch
    Operations.write_edge Operations.write_edges Operations.write_round_tx Publish.publish
    Publish.publish_operation Publish.new_operation Publish.resume Publish.run_phases Publish.phases
    Publish.phase Publish.activate_operation_tx Publish.activation Publish.complete_operation
    Publish.deliver_event Publish.deliver_tx Publish.ignore_audit Publish.ignore_outbox
    Publish.make_staged_active Publish.mark_failure Publish.record_manifest Publish.result_from
    Publish.verify_operation Publish.write_manifest Publication.reserve_tx Publication.reserve
    Publication.stage_tx Publication.stage Publication.activate_tx Publication.activate
    Publication.rollback_tx Publication.rollback Publication.promote_tx Publication.promote_reserved
    Publication.promote_existing Publication.supported_action Publication.insert_edges
    Publication.insert_audit Publication.make_active Publication.close_reservation
    Publication.insert_by Publication.move_pointer Publication.retire_active Publication.sort_by
    Publication.stored_edges Publication.upsert_reservation Evidence.allowed_kind Evidence.put
    Evidence.validate_location Evidence.write_file Evidence.write_object
token_falls = refl

write_edges_total_example :
    (Operations.write_edges 1
      (λ _. false)
      3
      "prod:p:a1"
      (edge "a" ∷ edge "b" ∷ [])
      (published start).1).0
    ≢ err out_of_fuel
write_edges_total_example =
    Rounds.write_edges_total 1 (λ _. false) (omega arith) "prod:p:a1" (edge "a" ∷ edge "b" ∷ [])
      (published start).1
