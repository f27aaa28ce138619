-- ===== src/Broker/Invariant.antt =====
-- The well-formedness of the tables of LocalLaneBroker, under its statements.
use lineage_collection.Prelude.{
  ℕ, suc, ◌≤◌, ◌<◌, String, ◌≡◌, ◌≢◌, refl, Bool, true, false, Option, none, some, List, [], ◌∷◌,
  ◌++◌, arith, leb, eq_iff, select, update, Has, AllRows, UniqueBy, Ascending, AllRows-update,
  AllRows-append, UniqueBy-update, UniqueBy-append, Ascending-update, Ascending-append, select-none,
  update-Has, Ascending-UniqueBy,
}
use mathlib.Core.Path.{subst}
use lineage_collection.Database.{Database, MessageRow}
use lineage_collection.Broker
use lineage_collection.Broker.{
  Publication, has_id, is_available, is_in_flight, is_active, timed_out, recovered, claims_row,
  leased, delivers, acknowledged, retried, redriven, retired, of_older_head, new_message,
  retire_older,
}
use lineage_collection.Broker.Cases.{with_messages}

-- A row: its attempts are bounded, a message that can be claimed has an attempt left, exactly the
-- messages in flight have a lease, and each attempt had an epoch of its own.
pub record RowIsValid (r : MessageRow) : Type 0 where
  pub capacity : 1 ≤ r.max_attempts
  pub bounded : r.attempts ≤ r.max_attempts
  pub epochs : r.attempts ≤ r.delivery_epoch
  pub spare : is_available r ≡ true → r.attempts < r.max_attempts
  pub leased_owner : is_in_flight r ≡ true → r.lease_owner ≢ none
  pub leased_expiry : is_in_flight r ≡ true → r.lease_expires_at ≢ none
  pub free_owner : is_in_flight r ≡ false → r.lease_owner ≡ none
  pub free_expiry : is_in_flight r ≡ false → r.lease_expires_at ≡ none

-- The table: valid rows, sequence numbers that grow up to the last one given, unique identities.
pub record TableIsValid (rows : List MessageRow) (last : ℕ) : Type 0 where
  pub rows_valid : AllRows RowIsValid rows
  pub below : AllRows (λ r. r.sequence ≤ last) rows
  pub ascending : Ascending (λ r. r.sequence) 0 rows
  pub identities : UniqueBy (λ r. r.message_id) rows

abbrev pub IsValid : Database → Type 0
IsValid db = TableIsValid db.lane_messages db.lane_sequence

-- An UPDATE keeps the table valid if it keeps each row that it takes valid, and its two keys.
update-TableIsValid :
    (p : MessageRow → Bool) (f : MessageRow → MessageRow) (rows : List MessageRow) (last : ℕ)
    → ((r : MessageRow) → (f r).sequence ≡ r.sequence)
    → ((r : MessageRow) → (f r).message_id ≡ r.message_id)
    → ((r : MessageRow) → Has r rows → RowIsValid r → p r ≡ true → RowIsValid (f r))
    → TableIsValid rows last
    → TableIsValid (update p f rows) last
update-TableIsValid p f rows last seq id keep v = record {
  rows_valid = AllRows-update RowIsValid p f rows keep v.rows_valid;
  below = AllRows-update (λ r. r.sequence ≤ last) p f rows (λ r _ le _. rw (seq r) le) v.below;
  ascending = Ascending-update (λ r. r.sequence) p f 0 rows seq v.ascending;
  identities = UniqueBy-update (λ r. r.message_id) p f rows id v.identities;
}

pub retired-RowIsValid : (r : MessageRow) → RowIsValid r → RowIsValid (retired r)
unfolding retired
retired-RowIsValid r v = ground arith

pub recovered-RowIsValid : (now : ℕ) (r : MessageRow) → RowIsValid r → RowIsValid (recovered now r)
unfolding recovered
recovered-RowIsValid now r v = ground arith

pub acknowledged-RowIsValid :
    (now : ℕ) (r : MessageRow) → RowIsValid r → RowIsValid (acknowledged now r)
unfolding acknowledged
acknowledged-RowIsValid now r v = ground arith

pub redriven-RowIsValid : (at : ℕ) (r : MessageRow) → RowIsValid r → RowIsValid (redriven at r)
unfolding redriven
redriven-RowIsValid at r v = ground arith

pub retried-RowIsValid :
    (at now : ℕ) (code : String) (r : MessageRow)
    → RowIsValid r
    → RowIsValid (retried (leb r.max_attempts r.attempts) at now code r)
unfolding retried
retried-RowIsValid at now code r v = ground arith

leased-RowIsValid :
    (owner : String) (expires_at : ℕ) (r : MessageRow)
    → is_available r ≡ true
    → RowIsValid r
    → RowIsValid (leased r owner expires_at r)
unfolding leased
leased-RowIsValid owner expires_at r a v = ground arith

new_message-RowIsValid :
    (p : Publication) (now sequence : ℕ)
    → 1 ≤ p.max_attempts
    → RowIsValid (new_message p now sequence)
unfolding new_message
new_message-RowIsValid p now sequence h = ground arith

-- A new row with the next sequence number and an identity of its own.
append-TableIsValid :
    (rows : List MessageRow) (last : ℕ) (new : MessageRow)
    → RowIsValid new
    → new.sequence ≡ suc last
    → ((r : MessageRow) → Has r rows → r.message_id ≢ new.message_id)
    → TableIsValid rows last
    → TableIsValid (rows ++ new ∷ []) (suc last)
append-TableIsValid rows last new row_valid next fresh v = record {
  rows_valid = AllRows-append RowIsValid rows new v.rows_valid row_valid;
  below =
      AllRows-append (λ r. r.sequence ≤ suc last) rows new (λ r m. omega (arith, v.below r m))
        (omega arith);
  ascending =
      Ascending-append (λ r. r.sequence) 0 last rows new v.ascending (omega arith) v.below
        (omega arith);
  identities = UniqueBy-append (λ r. r.message_id) rows new fresh v.identities;
}

module _ (lane : String) where
  pub retire_older-TableIsValid :
      (key : Option String) (rows : List MessageRow) (last : ℕ)
      → TableIsValid rows last
      → TableIsValid (retire_older lane key rows) last
  unfolding retire_older
  retire_older-TableIsValid none rows last v = v
  retire_older-TableIsValid (some key) rows last v =
      update-TableIsValid (of_older_head lane key) retired rows last (λ r. unfold retired in refl)
        (λ r. unfold retired in refl) (λ r _ row_valid _. retired-RowIsValid r row_valid) v

  -- The identities after the older head's messages are retired are those before.
  retire_older-fresh :
      (key : Option String) (rows : List MessageRow) (id : String)
      → select (has_id id) rows ≡ none
      → (r : MessageRow) → Has r (retire_older lane key rows)
      → r.message_id ≢ id
  unfolding retire_older retired
  retire_older-fresh none rows id fresh r h e =
      cc (select-none (has_id id) rows r fresh h, (eq_iff r.message_id id).1 e)
  retire_older-fresh (some key) rows id fresh r h e =
      let (x, hx, ex) = update-Has (of_older_head lane key) retired rows r h in
      ground (arith, select-none (has_id id) rows x fresh hx, eq_iff x.message_id id)

pub claims_row_lem :
    (row r : MessageRow)
    → claims_row row r ≡ true
    → (r.sequence ≡ row.sequence) × (is_available r ≡ true)
unfolding claims_row
claims_row_lem row r h = ground arith

module _ (db : Database) (v : IsValid db) where
  pub recover_expired-IsValid :
      (lane : String) (now : ℕ) → IsValid (Broker.recover_expired lane now db)
  unfolding Broker.recover_expired
  recover_expired-IsValid lane now =
      update-TableIsValid (timed_out lane now) (recovered now) db.lane_messages db.lane_sequence
        (λ r. unfold recovered in refl) (λ r. unfold recovered in refl)
        (λ r _ ok_row _. recovered-RowIsValid now r ok_row) v

  pub insert_message-IsValid :
      (p : Publication) (now : ℕ)
      → select (has_id p.message_id) db.lane_messages ≡ none
      → 1 ≤ p.max_attempts
      → IsValid (Broker.insert_message p now db)
  unfolding Broker.insert_message
  insert_message-IsValid p now fresh h =
      append-TableIsValid (retire_older p.lane p.supersession_key db.lane_messages) db.lane_sequence
        (new_message p now (suc db.lane_sequence))
        (new_message-RowIsValid p now (suc db.lane_sequence) h) (unfold new_message in refl)
        (unfold new_message in
          retire_older-fresh p.lane p.supersession_key db.lane_messages p.message_id fresh)
        (retire_older-TableIsValid p.lane p.supersession_key db.lane_messages db.lane_sequence v)

  -- The row that `claim` selects is available, and stands in the table.
  pub lease_row-IsValid :
      (row : MessageRow) (owner : String) (expires_at : ℕ)
      → Has row db.lane_messages
      → IsValid (Broker.lease_row row owner expires_at db)
  unfolding Broker.lease_row
  lease_row-IsValid row owner expires_at h =
      update-TableIsValid (claims_row row) (leased row owner expires_at) db.lane_messages
        db.lane_sequence (λ r. unfold leased in refl) (λ r. unfold leased in refl)
        (λ r hr row_valid hit.
          subst (λ x. RowIsValid (leased x owner expires_at r))
            (Ascending-UniqueBy (λ x. x.sequence) 0 db.lane_messages v.ascending r row hr h
              (claims_row_lem row r hit).0)
            (leased-RowIsValid owner expires_at r (claims_row_lem row r hit).1 row_valid))
        v

  -- An UPDATE on the rows of one delivery keeps the table valid if it keeps rows valid.
  pub delivery-IsValid :
      (p : MessageRow → Bool) (f : MessageRow → MessageRow)
      → ((r : MessageRow) → (f r).sequence ≡ r.sequence)
      → ((r : MessageRow) → (f r).message_id ≡ r.message_id)
      → ((r : MessageRow) → Has r db.lane_messages → RowIsValid r → p r ≡ true → RowIsValid (f r))
      → IsValid (with_messages db p f)
  delivery-IsValid p f seq id keep =
      update-TableIsValid p f db.lane_messages db.lane_sequence seq id keep v
