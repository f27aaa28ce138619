-- ===== src/Broker/History.antt =====
-- Histories of calls of LocalLaneBroker, by any number of workers with any messages in hand, stale
-- ones included.
use lineage_collection.Prelude.{
  ℕ, ◌+◌, ◌*◌, String, ◌≡◌, refl, inl, inr, true, ◌&&◌, some, List, [], ◌∷◌, arith, leb, Has,
  select, select-Has, eq_iff,
}
use mathlib.Core.Path.{subst}
use lineage_collection.Clock.{second}
use lineage_collection.Models.{LaneMessage}
use lineage_collection.Database.{Database, MessageRow, empty}
use lineage_collection.Database.Transaction.{transaction-keeps}
use lineage_collection.Broker
use lineage_collection.Broker.{
  Publication, has_id, is_dead, delivers, acknowledged, retried, redriven,
}
use lineage_collection.Broker.Cases.{publish_ok, acknowledge_ok, retry_ok, redrive_ok, claim_ok}
use lineage_collection.Broker.Turn.{next_row-IsNext}
use lineage_collection.Broker.Invariant.{IsValid, RowIsValid}
use lineage_collection.Broker.Invariant

pub data Call : Type 0 where
  publishes : Publication → ℕ → Call
  claims : String → String → ℕ → ℕ → Call
  acknowledges : LaneMessage → ℕ → Call
  retries : LaneMessage → ℕ → String → ℕ → Call
  redrives : String → ℕ → Call

unfoldable pub step : Database → Call → Database
step db (publishes p now) = (Broker.publish p now db).1
step db (claims lane owner timeout now) = (Broker.claim lane owner timeout now db).1
step db (acknowledges m now) = (Broker.acknowledge m now db).1
step db (retries m available_at code now) = (Broker.retry m available_at code now db).1
step db (redrives message_id available_at) = (Broker.redrive message_id available_at db).1

unfoldable pub run : Database → List Call → Database
run db [] = db
run db (c ∷ cs) = run (step db c) cs

-- The rows of a delivery are the row that was looked up by the identity.
pub delivers-eq-found :
    (db : Database) (m : LaneMessage)
    → IsValid db
    → (x r : MessageRow) → Has x db.lane_messages
    → delivers m x ≡ true
    → select (has_id m.message_id) db.lane_messages ≡ some r
    → x ≡ r
unfolding delivers
delivers-eq-found db m v x r hx hit found =
    let (hr, named) = select-Has (has_id m.message_id) db.lane_messages found in
    v.identities x r hx hr
      (ground (arith, eq_iff x.message_id m.message_id, eq_iff r.message_id m.message_id))

pub claim-IsValid :
    (lane owner : String) (timeout now : ℕ) (db : Database)
    → IsValid db
    → IsValid (Broker.claim lane owner timeout now db).1
unfolding Broker.claim
claim-IsValid lane owner timeout now db v =
    transaction-keeps IsValid (Broker.claim_tx lane owner timeout now) db v λ found db' e.
      let recovered_db = Broker.recover_expired lane now db in
      let recovered_valid = Invariant.recover_expired-IsValid db v lane now in
      elim (claim_ok db db' lane owner timeout now e) [
        | inl (_, _, same) ↦ rw same recovered_valid
        | inr (row, selected, c) ↦ rw c.state (
            unfold Broker.record_claim in
            Invariant.lease_row-IsValid recovered_db recovered_valid row owner
              (now + timeout * second) (next_row-IsNext lane now recovered_db row selected).0)
      ]

retry-IsValid :
    (m : LaneMessage) (available_at now : ℕ) (code : String) (db : Database)
    → IsValid db
    → IsValid (Broker.retry m available_at code now db).1
unfolding Broker.retry
retry-IsValid m available_at now code db v =
    transaction-keeps IsValid (Broker.retry_tx m available_at code now) db v λ u db' e.
      let (r, found, active, written) = retry_ok db db' m available_at now code e in
      rw written (
        Invariant.delivery-IsValid db v (delivers m)
          (retried (leb r.max_attempts r.attempts) available_at now code)
          (λ x. unfold retried in refl) (λ x. unfold retried in refl)
          (λ x hx row_valid hit.
            subst
              (λ (y : MessageRow).
                RowIsValid (retried (leb y.max_attempts y.attempts) available_at now code x))
              (delivers-eq-found db m v x r hx hit found)
              (Invariant.retried-RowIsValid available_at now code x row_valid)))

-- Every call, failed or not, keeps the tables well-formed.
pub step-IsValid : (db : Database) (c : Call) → IsValid db → IsValid (step db c)
unfolding step Broker.publish Broker.acknowledge Broker.retry Broker.redrive
step-IsValid db (publishes p now) v =
    transaction-keeps IsValid (Broker.publish_tx p now) db v λ id db' e.
      elim (publish_ok db db' p now e) [
        | inl (r, _, _, same) ↦ rw same v
        | inr (fresh, h, new) ↦ rw new (Invariant.insert_message-IsValid db v p now fresh h)
      ]
step-IsValid db (claims lane owner timeout now) v = claim-IsValid lane owner timeout now db v
step-IsValid db (acknowledges m now) v =
    transaction-keeps IsValid (Broker.acknowledge_tx m now) db v λ u db' e.
      let (r, found, active, written) = acknowledge_ok db db' m now e in
      rw written (
        Invariant.delivery-IsValid db v (delivers m) (acknowledged now)
          (λ x. unfold acknowledged in refl) (λ x. unfold acknowledged in refl)
          (λ x _ row_valid _. Invariant.acknowledged-RowIsValid now x row_valid))
step-IsValid db (retries m available_at code now) v = retry-IsValid m available_at now code db v
step-IsValid db (redrives message_id available_at) v =
    transaction-keeps IsValid (Broker.redrive_tx message_id available_at) db v λ u db' e.
      rw (redrive_ok db db' message_id available_at e) (
        Invariant.delivery-IsValid db v (λ r. has_id message_id r && is_dead r)
          (redriven available_at) (λ x. unfold redriven in refl) (λ x. unfold redriven in refl)
          (λ x _ row_valid _. Invariant.redriven-RowIsValid available_at x row_valid))

pub run-IsValid_from : (db : Database) (cs : List Call) → IsValid db → IsValid (run db cs)
unfolding run
run-IsValid_from db [] v = v
run-IsValid_from db (c ∷ cs) v = run-IsValid_from (step db c) cs (step-IsValid db c v)

pub empty-IsValid : IsValid empty
empty-IsValid = record {
  rows_valid = λ r h. absurd h;
  below = λ r h. absurd h;
  ascending = tt;
  identities = λ a b ha hb e. absurd ha;
}

-- From the empty database, every history of calls leaves well-formed tables: attempts within their
-- bound, a spare attempt for each available message, a lease exactly on the messages in flight,
-- growing sequence numbers and unique identities.
pub run-IsValid : (cs : List Call) → IsValid (run empty cs)
run-IsValid cs = run-IsValid_from empty cs empty-IsValid
