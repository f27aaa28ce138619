-- ===== src/Broker/Fifo.antt =====
-- The order within a group of a lane of LocalLaneBroker, in histories of calls.
use lineage_collection.Prelude.{
  ◌+◌, ◌*◌, ◌≤◌, ◌<◌, ◌≡◌, sym, inl, inr, true, false, List, [], ◌∷◌, arith, leb, Has,
  Ascending-UniqueBy, eq_iff,
}
use lineage_collection.Clock.{second}
use lineage_collection.Database.{Database, MessageRow, empty}
use lineage_collection.Database.Transaction.{transaction-keeps}
use lineage_collection.Broker
use lineage_collection.Broker.{
  Publication, has_id, is_available, is_in_flight, is_active, blocks, eligible, timed_out,
  recovered, claims_row, leased, delivers, acknowledged, retried, redriven, retired, of_older_head,
  new_message, retire_older,
}
use lineage_collection.Broker.Cases.{publish_ok, acknowledge_ok, retry_ok, claim_ok}
use lineage_collection.Broker.Turn.{next_row-IsNext}
use lineage_collection.Broker.Invariant.{IsValid, claims_row_lem}
use lineage_collection.Broker.Invariant
use lineage_collection.Broker.History.{
  Call, publishes, claims, acknowledges, retries, redrives, step, run, step-IsValid, empty-IsValid,
  run-IsValid,
}
use lineage_collection.Broker.Heads.{
  IsHeaded, update-IsHeaded, acknowledged-Calms, retried-Calms, insert_message-IsHeaded,
  lease_row-IsHeaded, recover_expired-IsHeaded, eligible-clear,
}

abbrev pub IsRedrive : Call → Type 0
IsRedrive (redrives _ _) = Unit {0}
IsRedrive _ = ⊥

-- Every call but `redrive` keeps the order.
pub step-IsHeaded :
    (db : Database) (c : Call)
    → IsValid db
    → ¬ IsRedrive c
    → IsHeaded db.lane_messages
    → IsHeaded (step db c).lane_messages
unfolding step Broker.publish Broker.claim Broker.acknowledge Broker.retry
step-IsHeaded db (publishes p now) v no_redrive headed =
    transaction-keeps (λ s. IsHeaded s.lane_messages) (Broker.publish_tx p now) db headed
      λ id db' e. elim (publish_ok db db' p now e) [
        | inl (r, _, _, same) ↦ rw same headed
        | inr (fresh, h, new) ↦ rw new (insert_message-IsHeaded p now db v headed)
      ]
step-IsHeaded db (claims lane owner timeout now) v no_redrive headed =
    transaction-keeps (λ s. IsHeaded s.lane_messages) (Broker.claim_tx lane owner timeout now) db
      headed
      λ found db' e.
        let recovered_db = Broker.recover_expired lane now db in
        let calm = recover_expired-IsHeaded db lane now headed in
        elim (claim_ok db db' lane owner timeout now e) [
          | inl (_, _, same) ↦ rw same calm
          | inr (row, selected, c) ↦
              let (stands, fits, _) = next_row-IsNext lane now recovered_db row selected in
              rw c.state (
                unfold Broker.record_claim in
                lease_row-IsHeaded recovered_db row owner (now + timeout * second)
                  (Invariant.recover_expired-IsValid db v lane now) stands
                  (eligible-clear recovered_db.lane_messages lane now row fits) calm)
        ]
step-IsHeaded db (acknowledges m now) v no_redrive headed =
    transaction-keeps (λ s. IsHeaded s.lane_messages) (Broker.acknowledge_tx m now) db headed
      λ u db' e.
        let (r, _, _, written) = acknowledge_ok db db' m now e in
        rw written (
          update-IsHeaded (delivers m) (acknowledged now) db.lane_messages
            (λ x _. acknowledged-Calms now x) headed)
step-IsHeaded db (retries m available_at code now) v no_redrive headed =
    transaction-keeps (λ s. IsHeaded s.lane_messages) (Broker.retry_tx m available_at code now) db
      headed
      λ u db' e.
        let (r, _, _, written) = retry_ok db db' m available_at now code e in
        rw written (
          update-IsHeaded (delivers m)
            (retried (leb r.max_attempts r.attempts) available_at now code) db.lane_messages
            (λ x hit. retried-Calms m (leb r.max_attempts r.attempts) available_at now code x hit)
            headed)
step-IsHeaded db (redrives _ _) v no_redrive headed = absurd (no_redrive tt)

abbrev pub NoRedrive : List Call → Type 0
NoRedrive [] = Unit {0}
NoRedrive (c ∷ cs) = (¬ IsRedrive c) × NoRedrive cs

run-IsHeaded_from :
    (db : Database) (cs : List Call)
    → IsValid db
    → NoRedrive cs
    → IsHeaded db.lane_messages
    → IsHeaded (run db cs).lane_messages
unfolding run
run-IsHeaded_from db [] v n headed = headed
run-IsHeaded_from db (c ∷ cs) v n headed =
    run-IsHeaded_from (step db c) cs (step-IsValid db c v) n.1 (step-IsHeaded db c v n.0 headed)

blocks_sound :
    (m o : MessageRow)
    → m.lane ≡ o.lane
    → m.group_key ≡ o.group_key
    → blocks m o ≡ false
    → o.sequence < m.sequence
    → is_active o ≡ false
unfolding blocks
blocks_sound m o lane group clear older =
    ground (arith, eq_iff o.lane m.lane, eq_iff o.group_key m.group_key)

flying-not-before :
    (m o : MessageRow)
    → m.lane ≡ o.lane
    → m.group_key ≡ o.group_key
    → blocks m o ≡ false
    → is_in_flight o ≡ true
    → m.sequence ≤ o.sequence
flying-not-before m o lane group clear flies = ground (arith, blocks_sound m o lane group clear)

-- In every history without a redrive, two messages in flight in one group of one lane are the same
-- message, and no older message of its group is available or in flight.
pub run-fifo :
    (cs : List Call)
    → NoRedrive cs
    → (m o : MessageRow) → Has m (run empty cs).lane_messages
    → Has o (run empty cs).lane_messages
    → is_in_flight m ≡ true
    → m.lane ≡ o.lane
    → m.group_key ≡ o.group_key
    → ((is_in_flight o ≡ true → m ≡ o) × (o.sequence < m.sequence → is_active o ≡ false))
run-fifo cs n m o hm ho flies same_lane same_group = (
  λ both.
      Ascending-UniqueBy (λ r. r.sequence) 0 (run empty cs).lane_messages (run-IsValid cs).ascending
        m o hm ho
        (omega (
          arith,
          flying-not-before m o same_lane same_group (headed m o hm ho flies) both,
          flying-not-before o m (sym same_lane) (sym same_group) (headed o m ho hm both) flies,
        )),
  blocks_sound m o same_lane same_group (headed m o hm ho flies),
)
  where
    headed : IsHeaded (run empty cs).lane_messages
    headed = run-IsHeaded_from empty cs empty-IsValid n (λ x y hx hy fx. absurd hx)
