-- ===== src/Broker/Evolution.antt =====
-- Rows of `lane_messages` before and after calls of LocalLaneBroker (infrastructure/local_broker.py).
use mathlib.Core.Option
use lineage_collection.Prelude.{
  ◌&&◌, ℕ, ◌+◌, ◌*◌, ◌≤◌, String, ◌≡◌, ap, ◌==◌, ◌∙◌, inl, inr, true, Bool, Option, none, some,
  List, [], ◌∷◌, arith, leb, update, select, select-update, select-append_some, set_if, Bool-cases,
}
use lineage_collection.Clock.{second}
use lineage_collection.Database.{Database, MessageRow}
use lineage_collection.Database.Transaction.{transaction-keeps}
use lineage_collection.Broker
use lineage_collection.Broker.{
  has_id, active_delivery, leased, claims_row, recovered, timed_out, acknowledged, retried,
  redriven, retired, of_older_head, retire_older, new_message, delivers, is_dead, Publication,
}
use lineage_collection.Broker.Cases.{publish_ok, acknowledge_ok, retry_ok, redrive_ok, claim_ok}
use lineage_collection.Broker.History.{
  Call, publishes, claims, acknowledges, retries, redrives, step, run,
}

-- `new` is a later version of the row `old`: its content and its place are the same, and its epoch
-- is no smaller.
pub record Evolves (old new : MessageRow) : Type 0 where
  pub sequence : new.sequence ≡ old.sequence
  pub message_id : new.message_id ≡ old.message_id
  pub lane : new.lane ≡ old.lane
  pub group_key : new.group_key ≡ old.group_key
  pub payload_ref : new.payload_ref ≡ old.payload_ref
  pub correlation_id : new.correlation_id ≡ old.correlation_id
  pub max_attempts : new.max_attempts ≡ old.max_attempts
  pub supersession_key : new.supersession_key ≡ old.supersession_key
  pub epoch : old.delivery_epoch ≤ new.delivery_epoch

pub Evolves-refl : (r : MessageRow) → Evolves r r
Evolves-refl r = ground arith

Evolves-trans : {a b c : MessageRow} → Evolves a b → Evolves b c → Evolves a c
Evolves-trans x y = record {
  sequence = y.sequence ∙ x.sequence;
  message_id = y.message_id ∙ x.message_id;
  lane = y.lane ∙ x.lane;
  group_key = y.group_key ∙ x.group_key;
  payload_ref = y.payload_ref ∙ x.payload_ref;
  correlation_id = y.correlation_id ∙ x.correlation_id;
  max_attempts = y.max_attempts ∙ x.max_attempts;
  supersession_key = y.supersession_key ∙ x.supersession_key;
  epoch = omega (arith, x.epoch, y.epoch);
}

-- The row of identity `id` is there, as a later version of `old`.
abbrev pub Reaches : String → MessageRow → List MessageRow → Type 0
Reaches id old rows = (r : MessageRow) × (select (has_id id) rows ≡ some r) × Evolves old r

module _ (id : String) (old : MessageRow) where
  update-Reaches :
      (p : MessageRow → Bool) (f : MessageRow → MessageRow) (rows : List MessageRow)
      → ((r : MessageRow) → p r ≡ true → Evolves r (f r))
      → Reaches id old rows
      → Reaches id old (update p f rows)
  update-Reaches p f rows grows (r, found, e) = (
    set_if p f r,
    select-update (has_id id) p f rows kept ∙ ap (Option.map (set_if p f)) found,
    Evolves-trans e (evolves r),
  )
    where
      evolves : (x : MessageRow) → Evolves x (set_if p f x)
      evolves x = elim (Bool-cases (p x)) [
        | inl hit ↦ rw hit (grows x hit)
        | inr miss ↦ rw miss (Evolves-refl x)
      ]

      kept : (x : MessageRow) → has_id id (set_if p f x) ≡ has_id id x
      kept x = ap (λ i. i == id) (evolves x).message_id

  retire_older-Reaches :
      (lane : String) (key : Option String) (rows : List MessageRow)
      → Reaches id old rows
      → Reaches id old (retire_older lane key rows)
  unfolding retire_older
  retire_older-Reaches lane none rows h = h
  retire_older-Reaches lane (some key) rows h =
      update-Reaches (of_older_head lane key) retired rows (λ r _. unfold retired in ground arith) h

  insert_message-Reaches :
      (p : Publication) (now : ℕ) (db : Database)
      → Reaches id old db.lane_messages
      → Reaches id old (Broker.insert_message p now db).lane_messages
  unfolding Broker.insert_message
  insert_message-Reaches p now db h =
      let (r, found, le) = retire_older-Reaches p.lane p.supersession_key db.lane_messages h in
      (r, select-append_some (has_id id) _ _ r found, le)

  pub recover_expired-Reaches :
      (lane : String) (now : ℕ) (db : Database)
      → Reaches id old db.lane_messages
      → Reaches id old (Broker.recover_expired lane now db).lane_messages
  unfolding Broker.recover_expired
  recover_expired-Reaches lane now db h =
      update-Reaches (timed_out lane now) (recovered now) db.lane_messages
        (λ r _. unfold recovered in ground arith) h

  claimed-Reaches :
      (row : MessageRow) (lane owner : String) (expires_at : ℕ) (db : Database)
      → Reaches id old db.lane_messages
      → Reaches id old
          (Broker.record_claim lane row.group_key
            (Broker.lease_row row owner expires_at db)).lane_messages
  unfolding Broker.record_claim Broker.lease_row
  claimed-Reaches row lane owner expires_at db h =
      update-Reaches (claims_row row) (leased row owner expires_at) db.lane_messages
        (λ r hit. unfold leased claims_row in ground arith) h

  -- No call loses a message or lowers its epoch.
  pub step-Reaches :
      (db : Database) (c : Call)
      → Reaches id old db.lane_messages
      → Reaches id old (step db c).lane_messages
  unfolding step Broker.publish Broker.claim Broker.acknowledge Broker.retry Broker.redrive
  step-Reaches db (publishes p now) h =
      transaction-keeps (λ s. Reaches id old s.lane_messages) (Broker.publish_tx p now) db h
        λ i db' e. elim (publish_ok db db' p now e) [
          | inl (_, _, _, same) ↦ rw same h
          | inr (_, _, new) ↦ rw new (insert_message-Reaches p now db h)
        ]
  step-Reaches db (claims lane owner timeout now) h =
      transaction-keeps (λ s. Reaches id old s.lane_messages)
        (Broker.claim_tx lane owner timeout now) db h
        λ found db' e.
          let calm = recover_expired-Reaches lane now db h in
          elim (claim_ok db db' lane owner timeout now e) [
            | inl (_, _, same) ↦ rw same calm
            | inr (row, _, c) ↦ rw c.state (
                claimed-Reaches row lane owner (now + timeout * second)
                  (Broker.recover_expired lane now db) calm)
          ]
  step-Reaches db (acknowledges m now) h =
      transaction-keeps (λ s. Reaches id old s.lane_messages) (Broker.acknowledge_tx m now) db h
        λ u db' e.
          let (_, _, _, written) = acknowledge_ok db db' m now e in
          rw written (
            update-Reaches (delivers m) (acknowledged now) db.lane_messages
              (λ r _. unfold acknowledged in ground arith) h)
  step-Reaches db (retries m available_at code now) h =
      transaction-keeps (λ s. Reaches id old s.lane_messages)
        (Broker.retry_tx m available_at code now) db h
        λ u db' e.
          let (x, _, _, written) = retry_ok db db' m available_at now code e in
          rw written (
            update-Reaches (delivers m)
              (retried (leb x.max_attempts x.attempts) available_at now code) db.lane_messages
              (λ r _. unfold retried in ground arith) h)
  step-Reaches db (redrives i available_at) h =
      transaction-keeps (λ s. Reaches id old s.lane_messages) (Broker.redrive_tx i available_at) db
        h
        λ u db' e. rw (redrive_ok db db' i available_at e) (
          update-Reaches (λ r. has_id i r && is_dead r) (redriven available_at) db.lane_messages
            (λ r _. unfold redriven in ground arith) h)

  pub run-Reaches :
      (db : Database) (cs : List Call)
      → Reaches id old db.lane_messages
      → Reaches id old (run db cs).lane_messages
  unfolding run
  run-Reaches db [] h = h
  run-Reaches db (c ∷ cs) h = run-Reaches (step db c) cs (step-Reaches db c h)
