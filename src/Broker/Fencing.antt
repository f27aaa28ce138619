-- ===== src/Broker/Fencing.antt =====
-- Deliveries of LocalLaneBroker whose message has been delivered again: `acknowledge` and `retry`.
use mathlib.Core.Path.{subst}
use lineage_collection.Prelude.{
  ℕ, ◌+◌, ◌*◌, ◌≤◌, ◌<◌, String, ◌≡◌, sym, ap, ◌∙◌, true, some, List, arith, Has, select,
  select-Has, select_unique, eq_iff, eq_refl, nonempty,
}
use lineage_collection.Clock.{second}
use lineage_collection.Models.{LaneMessage}
use lineage_collection.Database.{Database, MessageRow}
use lineage_collection.Database.Transaction.{ok, err, stale_delivery}
use lineage_collection.Broker
use lineage_collection.Broker.{
  has_id, active_delivery, leased, claims_row, recovered, timed_out, acknowledged, retried,
  redriven, retired, of_older_head, retire_older, new_message, delivers, is_dead, Publication,
}
use lineage_collection.Broker.Evolution.{
  Evolves-refl, Reaches, recover_expired-Reaches, run-Reaches,
}
use lineage_collection.Broker.Delivery.{claim-Delivery}
use lineage_collection.Broker.Invariant.{IsValid, recover_expired-IsValid}
use lineage_collection.Broker.History.{Call, run, claim-IsValid, run-IsValid_from}

-- A delivery of an older epoch is refused, and nothing is written.
acknowledge_old :
    (m : LaneMessage) (now : ℕ) (db : Database) (r : MessageRow)
    → select (has_id m.message_id) db.lane_messages ≡ some r
    → m.delivery_epoch < r.delivery_epoch
    → Broker.acknowledge m now db ≡ (err stale_delivery, db)
unfolding Broker.acknowledge Broker.acknowledge_tx Broker.required_message active_delivery
acknowledge_old m now db r found older = ground arith

retry_old :
    (m : LaneMessage) (available_at now : ℕ) (code : String) (db : Database) (r : MessageRow)
    → nonempty code ≡ true
    → select (has_id m.message_id) db.lane_messages ≡ some r
    → m.delivery_epoch < r.delivery_epoch
    → Broker.retry m available_at code now db ≡ (err stale_delivery, db)
unfolding Broker.retry Broker.retry_tx Broker.required_message active_delivery
retry_old m available_at now code db r named found older = ground arith

-- In valid tables the row of an identity is what a lookup by it finds.
Has-Reaches :
    (db : Database) (r : MessageRow)
    → IsValid db
    → Has r db.lane_messages
    → Reaches r.message_id r db.lane_messages
Has-Reaches db r v h = (
  r,
  select_unique (has_id r.message_id) db.lane_messages r h (eq_refl r.message_id)
      (λ x hx named. v.identities x r hx h (ground (arith, eq_iff x.message_id r.message_id))),
  Evolves-refl r,
)

-- The row that a claim leaves behind has the identity and the epoch of the message.
claimed_message-Reaches :
    (lane owner : String) (timeout now : ℕ) (db db' : Database) (m : LaneMessage)
    → IsValid db
    → Broker.claim lane owner timeout now db ≡ (ok (some m), db')
    → (r : MessageRow) × (r.delivery_epoch ≡ m.delivery_epoch)
      × Reaches m.message_id r db'.lane_messages
unfolding leased
claimed_message-Reaches lane owner timeout now db db' m v e =
    let d = claim-Delivery lane owner timeout now db db' m v e in
    let valid : IsValid db' =
      subst IsValid (ap (λ p. p.1) e) (claim-IsValid lane owner timeout now db v) in
    let r = leased d.row owner (now + timeout * second) d.row in
    (
      r,
      sym (ap (λ (x : LaneMessage). x.delivery_epoch) d.message),
      subst (λ id. Reaches id r db'.lane_messages)
          (sym (ap (λ (x : LaneMessage). x.message_id) d.message))
          (Has-Reaches db' r valid d.written),
    )

-- In valid tables a row of identity `id` is the one that was reached.
Reaches-epoch :
    (id : String) (old : MessageRow) (db : Database) (r : MessageRow)
    → IsValid db
    → Reaches id old db.lane_messages
    → Has r db.lane_messages
    → r.message_id ≡ id
    → old.delivery_epoch ≤ r.delivery_epoch
Reaches-epoch id old db r v (x, found, e) hr named =
    let (hx, x_named) = select-Has (has_id id) db.lane_messages found in
    subst (λ (y : MessageRow). old.delivery_epoch ≤ y.delivery_epoch)
      (v.identities x r hx hr (ground (arith, eq_iff x.message_id id))) e.epoch

module _ (lane owner lane' owner' : String) (timeout now timeout' now' : ℕ) (db db₁ db₂ : Database)
    (cs : List Call) (old new : LaneMessage) where
  -- A message that a later claim delivers again has a greater epoch, and from then on, after any
  -- further calls, the older delivery is refused by `acknowledge` and, with an error code, by `retry`,
  -- which change nothing.
  pub reclaim_fences :
      (later : List Call) (at available_at : ℕ) (code : String)
      → IsValid db
      → Broker.claim lane owner timeout now db ≡ (ok (some old), db₁)
      → Broker.claim lane' owner' timeout' now' (run db₁ cs) ≡ (ok (some new), db₂)
      → old.message_id ≡ new.message_id
      → nonempty code ≡ true
      → (old.delivery_epoch < new.delivery_epoch)
        × (Broker.acknowledge old at (run db₂ later) ≡ (err stale_delivery, run db₂ later))
        × (Broker.retry old available_at code at (run db₂ later)
            ≡ (err stale_delivery, run db₂ later))
  reclaim_fences later at available_at code v first second_claim same named =
      let (refused, refused') = fenced in (newer, refused, refused')
    where
      valid₁ : IsValid db₁
      valid₁ = subst IsValid (ap (λ p. p.1) first) (claim-IsValid lane owner timeout now db v)

      valid_run : IsValid (run db₁ cs)
      valid_run = run-IsValid_from db₁ cs valid₁

      newer : old.delivery_epoch < new.delivery_epoch
      newer =
          let d =
            claim-Delivery lane' owner' timeout' now' (run db₁ cs) db₂ new valid_run second_claim in
          let (r, at_epoch, reached) =
            claimed_message-Reaches lane owner timeout now db db₁ old v first in
          omega (
            arith,
            at_epoch,
            ap (λ (m : LaneMessage). m.delivery_epoch) d.message,
            Reaches-epoch old.message_id r (Broker.recover_expired lane' now' (run db₁ cs)) d.row
                (recover_expired-IsValid (run db₁ cs) valid_run lane' now')
                (recover_expired-Reaches old.message_id r lane' now' (run db₁ cs)
                  (run-Reaches old.message_id r db₁ cs reached))
                d.stands (sym (ap (λ (m : LaneMessage). m.message_id) d.message) ∙ sym same),
          )

      fenced :
          (Broker.acknowledge old at (run db₂ later) ≡ (err stale_delivery, run db₂ later))
          × (Broker.retry old available_at code at (run db₂ later)
              ≡ (err stale_delivery, run db₂ later))
      fenced =
          let (leased_row, at_epoch, reached) =
            claimed_message-Reaches lane' owner' timeout' now' (run db₁ cs) db₂ new valid_run
              second_claim in
          let (r, found, e) = run-Reaches new.message_id leased_row db₂ later reached in
          let found_old =
            subst (λ id. select (has_id id) (run db₂ later).lane_messages ≡ some r) (sym same)
              found in
          let older : old.delivery_epoch < r.delivery_epoch =
            omega (arith, newer, at_epoch, e.epoch) in
          (
            acknowledge_old old at (run db₂ later) r found_old older,
            retry_old old available_at at code (run db₂ later) r named found_old older,
          )
