-- ===== src/Broker/Delivery.antt =====
-- A claim of LocalLaneBroker that returns a message: the row that it took and what it wrote.
use lineage_collection.Prelude.{
  ℕ, ◌+◌, ◌*◌, ◌≤◌, String, ◌≡◌, refl, sym, ap, ◌∙◌, inl, inr, true, Option, none, some, List,
  arith, eqb, Has, select, select-Has, select-update, select_unique, set_if, Ascending-UniqueBy,
  nonempty, matching, matching-one, Option-cases,
}
use mathlib.Core.Option
use mathlib.Core.Path.{subst}
use lineage_collection.Clock.{second, in_calendar}
use lineage_collection.Models.{LaneMessage}
use lineage_collection.Database.{Database, MessageRow}
use lineage_collection.Database.Transaction.{ok, committed}
use lineage_collection.Broker
use lineage_collection.Broker.{
  has_id, eligible, claims_row, leased, lane_message_from_row, is_available,
}
use lineage_collection.Broker.Cases.{claimed, claim_ok}
use lineage_collection.Broker.Turn.{InTurn, next_row-IsNext}
use lineage_collection.Broker.Invariant.{IsValid, claims_row_lem}
use lineage_collection.Broker.Invariant

eligible-available :
    (rows : List MessageRow) (lane : String) (now : ℕ) (m : MessageRow)
    → eligible rows lane now m ≡ true
    → is_available m ≡ true
unfolding eligible
eligible-available rows lane now m h = ground arith

claims_row_self : (row : MessageRow) → is_available row ≡ true → claims_row row row ≡ true
unfolding claims_row
claims_row_self row h = ground arith

module _ (db : Database) (v : IsValid db) (row : MessageRow) (hr : Has row db.lane_messages)
    (avail : is_available row ≡ true) where
  only_row :
      (x : MessageRow) → Has x db.lane_messages → eqb x.sequence row.sequence ≡ true → x ≡ row
  only_row x hx e =
      Ascending-UniqueBy (λ r. r.sequence) 0 db.lane_messages v.ascending x row hx hr (ground arith)

  -- The UPDATE of a claim takes exactly the selected row.
  pub matching-claims_row : matching (claims_row row) db.lane_messages ≡ 1
  matching-claims_row =
      matching-one (λ r. r.sequence) (claims_row row) 0 db.lane_messages row v.ascending hr
        (claims_row_self row avail) λ x hx hit. only_row x hx (unfold claims_row in ground arith)

  pub leased_found :
      (owner : String) (expires_at : ℕ)
      → select
          (λ x. eqb x.sequence row.sequence)
          (Broker.lease_row row owner expires_at db).lane_messages
        ≡ some (leased row owner expires_at row)
  unfolding Broker.lease_row
  leased_found owner expires_at =
      select-update (λ x. eqb x.sequence row.sequence) (claims_row row)
        (leased row owner expires_at) db.lane_messages same_sequence
      ∙ ap (Option.map (set_if (claims_row row) (leased row owner expires_at))) found
      ∙ ap some (rw (claims_row_self row avail))
    where
      same_sequence :
          (r : MessageRow)
          → eqb (set_if (claims_row row) (leased row owner expires_at) r).sequence row.sequence
            ≡ eqb r.sequence row.sequence
      same_sequence r = unfold leased in ground arith

      found : select (λ x. eqb x.sequence row.sequence) db.lane_messages ≡ some row
      found =
          select_unique (λ x. eqb x.sequence row.sequence) db.lane_messages row hr (ground arith)
            only_row

claimed_messages :
    (row : MessageRow) (lane owner : String) (expires_at : ℕ) (db db' : Database)
    → db' ≡ claimed row lane owner expires_at db
    → db'.lane_messages ≡ (Broker.lease_row row owner expires_at db).lane_messages
unfolding Broker.record_claim
claimed_messages row lane owner expires_at db db' e = ap (λ (d : Database). d.lane_messages) e

-- The message that a claim makes of the row.
abbrev pub delivered_message : MessageRow → String → ℕ → LaneMessage
delivered_message row owner expires_at = record {
  message_id = row.message_id;
  lane = row.lane;
  group_key = row.group_key;
  payload_ref = row.payload_ref;
  correlation_id = row.correlation_id;
  attempt = row.attempts + 1;
  max_attempts = row.max_attempts;
  delivery_epoch = row.delivery_epoch + 1;
  owner = owner;
  lease_expires_at = expires_at;
  supersession_key = row.supersession_key;
}

delivered :
    (row : MessageRow) (owner : String) (expires_at : ℕ)
    → lane_message_from_row (leased row owner expires_at row)
      ≡ some (delivered_message row owner expires_at)
unfolding lane_message_from_row leased
delivered row owner expires_at = refl

read_back :
    (row : MessageRow) (lane owner : String) (expires_at : ℕ) (db : Database)
    → IsValid db
    → Has row db.lane_messages
    → is_available row ≡ true
    → select
        (λ x. eqb x.sequence row.sequence)
        (Broker.record_claim lane row.group_key
          (Broker.lease_row row owner expires_at db)).lane_messages
      ≡ some (leased row owner expires_at row)
unfolding Broker.record_claim
read_back row lane owner expires_at db v stands avail =
    leased_found db v row stands avail owner expires_at

-- The row that was claimed, and the message made of it.
pub record Delivery (lane owner : String) (timeout now : ℕ) (db db' : Database) (m : LaneMessage)
    : Type 0 where
  pub row : MessageRow
  pub stands : Has row (Broker.recover_expired lane now db).lane_messages
  pub fits : eligible (Broker.recover_expired lane now db).lane_messages lane now row ≡ true
  pub first :
      (n : MessageRow)
      → Has n (Broker.recover_expired lane now db).lane_messages
      → eligible (Broker.recover_expired lane now db).lane_messages lane now n ≡ true
      → InTurn db.lane_groups row n
  pub state :
      db' ≡ claimed row lane owner (now + timeout * second) (Broker.recover_expired lane now db)
  pub written : Has (leased row owner (now + timeout * second) row) db'.lane_messages
  pub message : m ≡ delivered_message row owner (now + timeout * second)

module _ (lane owner : String) (timeout now : ℕ) (db db' : Database) (m : LaneMessage) where
  pub claim_tx-Delivery :
      IsValid db
      → Broker.claim_tx lane owner timeout now db ≡ ok (some m, db')
      → Delivery lane owner timeout now db db' m
  claim_tx-Delivery v e = elim (claim_ok db db' lane owner timeout now e) [
    | inl (_, nothing, _) ↦ absurd (cc)
    | inr (row, selected, c) ↦
        let s = Broker.recover_expired lane now db in
        let vs = Invariant.recover_expired-IsValid db v lane now in
        let (stands, fits, first) = next_row-IsNext lane now s row selected in
        let avail = eligible-available s.lane_messages lane now row fits in
        record {
          row = row;
          stands = stands;
          fits = fits;
          first = unfold Broker.recover_expired in first;
          state = c.state;
          written =
              subst (Has (leased row owner (now + timeout * second) row))
                (sym (claimed_messages row lane owner (now + timeout * second) s db' c.state))
                (select-Has (λ x. eqb x.sequence row.sequence)
                  (Broker.lease_row row owner (now + timeout * second) s).lane_messages
                  (leased_found s vs row stands avail owner (now + timeout * second))).0;
          message = cc (
            c.taken_from,
            c.message_of,
            c.returned,
            claimed_messages row lane owner (now + timeout * second) s db' c.state,
            leased_found s vs row stands avail owner (now + timeout * second),
            delivered row owner (now + timeout * second),
          );
        }
  ]

  pub claim-Delivery :
      IsValid db
      → Broker.claim lane owner timeout now db ≡ (ok (some m), db')
      → Delivery lane owner timeout now db db' m
  unfolding Broker.claim
  claim-Delivery v e =
      claim_tx-Delivery v (committed (Broker.claim_tx lane owner timeout now) db (some m) db' e)

-- Under valid tables a claim with a lane, an owner and a positive timeout that ends before the year
-- 10000 does not raise: the row that it selects is updated exactly once, and has its lease when it is read back.
pub claim_total :
    (lane owner : String) (timeout now : ℕ) (db : Database)
    → IsValid db
    → nonempty lane ≡ true
    → nonempty owner ≡ true
    → 1 ≤ timeout
    → in_calendar (now + timeout * second) ≡ true
    → (found : Option LaneMessage) × (Broker.claim lane owner timeout now db).0 ≡ ok found
unfolding Broker.claim Broker.claim_tx Broker.claim_row
claim_total lane owner timeout now db v named owned positive in_range =
    elim (Option-cases (Broker.next_row lane now (Broker.recover_expired lane now db))) [
      | inl nothing ↦ (none, ground arith)
      | inr (row, selected) ↦
          let s = Broker.recover_expired lane now db in
          let (stands, fits, _) = next_row-IsNext lane now s row selected in
          let vs = Invariant.recover_expired-IsValid db v lane now in
          let avail = eligible-available s.lane_messages lane now row fits in
          (
            some (delivered_message row owner (now + timeout * second)),
            ground (
              arith,
              matching-claims_row s vs row stands avail,
              read_back row lane owner (now + timeout * second) s vs stands avail,
              delivered row owner (now + timeout * second),
            ),
          )
    ]
