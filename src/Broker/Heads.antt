-- ===== src/Broker/Heads.antt =====
-- The oldest active message of a group of a lane, under the statements of LocalLaneBroker.
use lineage_collection.Prelude.{
  ℕ, suc, ◌<◌, String, ◌≡◌, refl, sym, ◌∙◌, ◌⊎◌, inl, inr, Bool, true, false, Option, none, some,
  List, [], ◌∷◌, ◌++◌, arith, Has, update, set_if, update-Has, append-Has, Ascending-UniqueBy,
  any-false, any, Bool-cases,
}
use mathlib.Core.Path.{subst}
use lineage_collection.Models.{LaneMessage}
use lineage_collection.Database.{Database, MessageRow}
use lineage_collection.Broker
use lineage_collection.Broker.{
  Publication, has_id, is_available, is_in_flight, is_active, blocks, eligible, timed_out,
  recovered, claims_row, leased, delivers, acknowledged, retried, redriven, retired, of_older_head,
  new_message, retire_older,
}
use lineage_collection.Broker.Invariant.{IsValid, claims_row_lem}
use lineage_collection.Broker.Invariant

-- No older active message in the group of a message in flight.
abbrev pub IsHeaded : List MessageRow → Type 0
IsHeaded rows =
    (m o : MessageRow) → Has m rows → Has o rows → is_in_flight m ≡ true → blocks m o ≡ false

-- `new` stands where `old` stood, and is active only if `old` was.
pub record Placed (old new : MessageRow) : Type 0 where
  pub lane : new.lane ≡ old.lane
  pub group : new.group_key ≡ old.group_key
  pub sequence : new.sequence ≡ old.sequence
  pub active : is_active new ≡ true → is_active old ≡ true

-- Moreover it is in flight only if `old` was.
pub record Calms (old new : MessageRow) : Type 0 where
  pub placed : Placed old new
  pub in_flight : is_in_flight new ≡ true → is_in_flight old ≡ true

Calms-refl : (r : MessageRow) → Calms r r
Calms-refl r = ground arith

blocks-Placed :
    {m m' o o' : MessageRow} → Placed m m' → Placed o o' → blocks m o ≡ false → blocks m' o' ≡ false
unfolding blocks
blocks-Placed {m} {m'} {o} {o'} cm co h = ground arith

Calms-set_if :
    (p : MessageRow → Bool) (f : MessageRow → MessageRow)
    → ((r : MessageRow) → p r ≡ true → Calms r (f r))
    → (r : MessageRow) → Calms r (set_if p f r)
Calms-set_if p f calm r = elim (Bool-cases (p r)) [
  | inl hit ↦ rw hit (calm r hit)
  | inr miss ↦ rw miss (Calms-refl r)
]

pub update-IsHeaded :
    (p : MessageRow → Bool) (f : MessageRow → MessageRow) (rows : List MessageRow)
    → ((r : MessageRow) → p r ≡ true → Calms r (f r))
    → IsHeaded rows
    → IsHeaded (update p f rows)
update-IsHeaded p f rows calm headed m o hm ho flies =
    let (x, hx, ex) = update-Has p f rows m hm in
    let (y, hy, ey) = update-Has p f rows o ho in
    let cx : Calms x m = subst (Calms x) (sym ex) (Calms-set_if p f calm x) in
    let cy : Calms y o = subst (Calms y) (sym ey) (Calms-set_if p f calm y) in
    blocks-Placed cx.placed cy.placed (headed x y hx hy (cx.in_flight flies))

retired-Calms : (r : MessageRow) → Calms r (retired r)
unfolding retired
retired-Calms r = ground arith

recovered-Calms :
    (lane : String) (now : ℕ) (r : MessageRow)
    → timed_out lane now r ≡ true
    → Calms r (recovered now r)
unfolding recovered timed_out
recovered-Calms lane now r h = ground arith

pub acknowledged-Calms : (now : ℕ) (r : MessageRow) → Calms r (acknowledged now r)
unfolding acknowledged
acknowledged-Calms now r = ground arith

pub retried-Calms :
    (m : LaneMessage) (b : Bool) (at now : ℕ) (code : String) (r : MessageRow)
    → delivers m r ≡ true
    → Calms r (retried b at now code r)
unfolding retried delivers
retried-Calms m b at now code r h = ground arith

module _ (lane : String) where
  retire_older-IsHeaded :
      (key : Option String) (rows : List MessageRow)
      → IsHeaded rows
      → IsHeaded (retire_older lane key rows)
  unfolding retire_older
  retire_older-IsHeaded none rows headed = headed
  retire_older-IsHeaded (some key) rows headed =
      update-IsHeaded (of_older_head lane key) retired rows (λ r _. retired-Calms r) headed

newest-not-blocks : (m o : MessageRow) → m.sequence < o.sequence → blocks m o ≡ false
unfolding blocks
newest-not-blocks m o h = ground arith

-- A new message is behind all others, and not in flight.
append-IsHeaded :
    (rows : List MessageRow) (new : MessageRow)
    → is_in_flight new ≡ false
    → ((r : MessageRow) → Has r rows → r.sequence < new.sequence)
    → IsHeaded rows
    → IsHeaded (rows ++ new ∷ [])
append-IsHeaded rows new grounded behind headed m o hm ho flies =
    both (append-Has rows (new ∷ []) m hm) (append-Has rows (new ∷ []) o ho)
  where
    both : Has m rows ⊎ Has m (new ∷ []) → Has o rows ⊎ Has o (new ∷ []) → blocks m o ≡ false
    both (inl om) (inl oo) = headed m o om oo flies
    both (inl om) (inr (inl eo)) = newest-not-blocks m o (rw eo (behind m om))
    both (inr (inl em)) _ = absurd (ground arith)
    both (inr (inr n)) _ = absurd n
    both _ (inr (inr n)) = absurd n

pub insert_message-IsHeaded :
    (p : Publication) (now : ℕ) (db : Database)
    → IsValid db
    → IsHeaded db.lane_messages
    → IsHeaded (Broker.insert_message p now db).lane_messages
unfolding Broker.insert_message
insert_message-IsHeaded p now db v headed =
    append-IsHeaded (retire_older p.lane p.supersession_key db.lane_messages)
      (new_message p now (suc db.lane_sequence)) (unfold new_message in refl)
      (λ r hr. unfold new_message in omega (arith, table.below r hr))
      (retire_older-IsHeaded p.lane p.supersession_key db.lane_messages headed)
  where
    table :
        Invariant.TableIsValid
          (retire_older p.lane p.supersession_key db.lane_messages)
          db.lane_sequence
    table =
        Invariant.retire_older-TableIsValid p.lane p.supersession_key db.lane_messages
          db.lane_sequence v

leased-Placed :
    (row : MessageRow) (owner : String) (expires_at : ℕ) (r : MessageRow)
    → Placed r (set_if (claims_row row) (leased row owner expires_at) r)
unfolding claims_row leased
leased-Placed row owner expires_at r = ground arith

module _ (db : Database) (row : MessageRow) (owner : String) (expires_at : ℕ) where
  -- The row that a claim takes had no older active message in its group.
  pub lease_row-IsHeaded :
      IsValid db
      → Has row db.lane_messages
      → any (blocks row) db.lane_messages ≡ false
      → IsHeaded db.lane_messages
      → IsHeaded (Broker.lease_row row owner expires_at db).lane_messages
  unfolding Broker.lease_row
  lease_row-IsHeaded v hr clear headed m o hm ho flies =
      let (x, hx, ex) =
        update-Has (claims_row row) (leased row owner expires_at) db.lane_messages m hm in
      let (y, hy, ey) =
        update-Has (claims_row row) (leased row owner expires_at) db.lane_messages o ho in
      blocks-Placed (subst (Placed x) (sym ex) (leased-Placed row owner expires_at x))
        (subst (Placed y) (sym ey) (leased-Placed row owner expires_at y))
        (elim (Bool-cases (claims_row row x)) [
          | inl hit ↦
              subst (λ z. blocks z y ≡ false)
                (sym (
                  Ascending-UniqueBy (λ r. r.sequence) 0 db.lane_messages v.ascending x row hx hr
                    (claims_row_lem row x hit).0))
                (any-false (blocks row) db.lane_messages clear y hy)
          | inr miss ↦
              headed x y hx hy (subst (λ z. is_in_flight z ≡ true) (ex ∙ kept x miss) flies)
        ])
    where
      kept :
          (r : MessageRow)
          → claims_row row r ≡ false
          → set_if (claims_row row) (leased row owner expires_at) r ≡ r
      kept r miss = rw miss

pub recover_expired-IsHeaded :
    (db : Database) (lane : String) (now : ℕ)
    → IsHeaded db.lane_messages
    → IsHeaded (Broker.recover_expired lane now db).lane_messages
unfolding Broker.recover_expired
recover_expired-IsHeaded db lane now headed =
    update-IsHeaded (timed_out lane now) (recovered now) db.lane_messages (recovered-Calms lane now)
      headed

pub eligible-clear :
    (rows : List MessageRow) (lane : String) (now : ℕ) (m : MessageRow)
    → eligible rows lane now m ≡ true
    → any (blocks m) rows ≡ false
unfolding eligible
eligible-clear rows lane now m h = ground arith
