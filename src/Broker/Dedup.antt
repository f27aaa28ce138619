-- ===== src/Broker/Dedup.antt =====
-- Publication: deduplication by the message identity, and the retirement of an older head.
use lineage_collection.Prelude.{
  ℕ, suc, String, ◌≡◌, ◌≢◌, refl, sym, ap, ◌∙◌, inl, inr, true, false, Option, none, some, List, [],
  ◌∷◌, arith, Has, select, select-append, select-update, update-Has, append-Has, set_if, eq_iff,
  eq_refl, same_option, Bool-cases,
}
use mathlib.Core.Path.{subst}
use lineage_collection.Database.{Database, MessageRow}
use lineage_collection.Database.Transaction.{ok, committed}
use lineage_collection.Broker
use lineage_collection.Broker.{
  Publication, has_id, same_content, new_message, is_active, is_available, retire_older, retired,
  of_older_head,
}
use lineage_collection.Broker.Cases.{publish_ok}
use lineage_collection.Broker.Evolution.{Evolves, Evolves-refl, Reaches, run-Reaches}
use lineage_collection.Broker.History.{Call, run}

same_option_refl : (o : Option String) → same_option o o ≡ true
same_option_refl none = refl
same_option_refl (some s) = eq_refl s

pub same_content-Evolves :
    (p : Publication) (old new : MessageRow)
    → Evolves old new
    → same_content p old ≡ true
    → same_content p new ≡ true
same_content-Evolves p old new e h = rw (content) h
  where
    content : same_content p new ≡ same_content p old
    content =
        unfold same_content in
        rw
          (e.lane, e.group_key, e.payload_ref, e.correlation_id, e.supersession_key, e.max_attempts)

same_content-new_message :
    (p : Publication) (now sequence : ℕ) → same_content p (new_message p now sequence) ≡ true
unfolding same_content new_message
same_content-new_message p now sequence =
    rw
      (
        eq_refl p.lane,
        eq_refl p.group_key,
        eq_refl p.payload_ref,
        eq_refl p.correlation_id,
        same_option_refl p.supersession_key,
      )
      (ground arith)

retire_older-none :
    (lane : String) (key : Option String) (rows : List MessageRow) (id : String)
    → select (has_id id) rows ≡ none
    → select (has_id id) (retire_older lane key rows) ≡ none
unfolding retire_older
retire_older-none lane none rows id fresh = fresh
retire_older-none lane (some key) rows id fresh =
    select-update (has_id id) (of_older_head lane key) retired rows
      (λ r. unfold retired in ground arith)
    ∙ rw fresh

inserted_found :
    (p : Publication) (now : ℕ) (db : Database)
    → select (has_id p.message_id) db.lane_messages ≡ none
    → select (has_id p.message_id) (Broker.insert_message p now db).lane_messages
      ≡ some (new_message p now (suc db.lane_sequence))
unfolding Broker.insert_message
inserted_found p now db fresh =
    select-append (has_id p.message_id) (retire_older p.lane p.supersession_key db.lane_messages)
      (new_message p now (suc db.lane_sequence))
      (retire_older-none p.lane p.supersession_key db.lane_messages p.message_id fresh)
    ∙ unfold new_message in rw (eq_refl p.message_id)

publish_found_again :
    (p : Publication) (now later : ℕ) (db db' s : Database) (r : MessageRow) (id : String)
    → Broker.publish p now db ≡ (ok id, db')
    → select (has_id p.message_id) s.lane_messages ≡ some r
    → same_content p r ≡ true
    → Broker.publish p later s ≡ (ok id, s)
unfolding Broker.publish Broker.publish_tx Broker.publish_found
publish_found_again p now later db db' s r id e found content = ground arith

publish_other :
    (q : Publication) (now : ℕ) (s : Database) (r : MessageRow)
    → select (has_id q.message_id) s.lane_messages ≡ some r
    → same_content q r ≡ false
    → ((Broker.publish q now s).1 ≡ s) × ((i : String) → (Broker.publish q now s).0 ≢ ok i)
unfolding Broker.publish Broker.publish_tx Broker.publish_found
publish_other q now s r found content = (ground arith, λ i e. ground arith)

-- After a publication its identity stands in the table with the content that was published.
pub published-Reaches :
    (p : Publication) (now : ℕ) (db db' : Database) (id : String)
    → Broker.publish p now db ≡ (ok id, db')
    → (r : MessageRow) × (same_content p r ≡ true) × Reaches p.message_id r db'.lane_messages
unfolding Broker.publish
published-Reaches p now db db' id e =
    elim (publish_ok db db' p now (committed (Broker.publish_tx p now) db id db' e)) [
      | inl (r, found, content, same) ↦ (r, content, (r, rw same found, Evolves-refl r))
      | inr (fresh, _, new) ↦
          let r = new_message p now (suc db.lane_sequence) in
          (
            r,
            same_content-new_message p now (suc db.lane_sequence),
            (r, rw new (inserted_found p now db fresh), Evolves-refl r),
          )
    ]

-- Publishing again, after any calls, returns the same identity and changes nothing.
pub publish_again :
    (p : Publication) (now later : ℕ) (db db' : Database) (id : String) (cs : List Call)
    → Broker.publish p now db ≡ (ok id, db')
    → Broker.publish p later (run db' cs) ≡ (ok id, run db' cs)
publish_again p now later db db' id cs e =
    let (r, content, reached) = published-Reaches p now db db' id e in
    let (r', found, evolved) = run-Reaches p.message_id r db' cs reached in
    publish_found_again p now later db db' (run db' cs) r' id e found
      (same_content-Evolves p r r' evolved content)

-- What `publish` compares of two publications under one identity.
pub record Content : Type 0 where
  pub lane : String
  pub group_key : String
  pub payload_ref : String
  pub correlation_id : String
  pub supersession_key : Option String
  pub max_attempts : ℕ

abbrev pub content_of : Publication → Content
content_of p = record {
  lane = p.lane;
  group_key = p.group_key;
  payload_ref = p.payload_ref;
  correlation_id = p.correlation_id;
  supersession_key = p.supersession_key;
  max_attempts = p.max_attempts;
}

same_option_sound : (a b : Option String) → same_option a b ≡ true → a ≡ b
same_option_sound none none h = refl
same_option_sound (some s) (some t) h = ap some ((eq_iff s t).0 h)
same_option_sound none (some t) h = cc
same_option_sound (some s) none h = cc

row_content : MessageRow → Content
row_content r = record {
  lane = r.lane;
  group_key = r.group_key;
  payload_ref = r.payload_ref;
  correlation_id = r.correlation_id;
  supersession_key = r.supersession_key;
  max_attempts = r.max_attempts;
}

same_content_sound :
    (p : Publication) (r : MessageRow) → same_content p r ≡ true → row_content r ≡ content_of p
unfolding same_content row_content
same_content_sound p r h = ground (
  arith,
  eq_iff r.lane p.lane,
  eq_iff r.group_key p.group_key,
  eq_iff r.payload_ref p.payload_ref,
  eq_iff r.correlation_id p.correlation_id,
  same_option_sound r.supersession_key p.supersession_key,
)

-- Another content under a published identity is refused, whenever it comes, and changes nothing.
pub publish_conflict :
    (p q : Publication) (now later : ℕ) (db db' : Database) (id : String) (cs : List Call)
    → Broker.publish p now db ≡ (ok id, db')
    → q.message_id ≡ p.message_id
    → content_of q ≢ content_of p
    → ((Broker.publish q later (run db' cs)).1 ≡ run db' cs)
      × ((i : String) → (Broker.publish q later (run db' cs)).0 ≢ ok i)
publish_conflict p q now later db db' id cs e same differs =
    let (r, content, reached) = published-Reaches p now db db' id e in
    let (r', found, evolved) = run-Reaches p.message_id r db' cs reached in
    publish_other q later (run db' cs) r' (rw same found) (elim (Bool-cases (same_content q r')) [
      | inl agrees ↦ absurd (
          differs (
            sym (same_content_sound q r' agrees)
            ∙ same_content_sound p r' (same_content-Evolves p r r' evolved content)))
      | inr other ↦ other
    ])

retired_head :
    (lane key : String) (x r : MessageRow)
    → r ≡ set_if (of_older_head lane key) retired x
    → r.lane ≡ lane
    → r.supersession_key ≡ some key
    → is_active r ≡ false
unfolding of_older_head retired
retired_head lane key x r e in_lane of_head =
    ground (arith, eq_iff x.lane lane, eq_refl key, eq_iff r.lane lane)

superseded_rows :
    (p : Publication) (now : ℕ) (db : Database) (key : String) (r : MessageRow)
    → p.supersession_key ≡ some key
    → Has r (Broker.insert_message p now db).lane_messages
    → r.lane ≡ p.lane
    → r.supersession_key ≡ some key
    → is_active r ≡ true
    → r ≡ new_message p now (suc db.lane_sequence)
unfolding Broker.insert_message retire_older
superseded_rows p now db key r keyed h in_lane of_head active =
    elim (append-Has (retire_older p.lane p.supersession_key db.lane_messages)
      (new_message p now (suc db.lane_sequence) ∷ []) r h) [
        | inl old ↦
            let (x, hx, ex) =
              update-Has (of_older_head p.lane key) retired db.lane_messages r
                (subst (λ k. Has r (retire_older p.lane k db.lane_messages)) keyed old) in
            absurd (cc (retired_head p.lane key x r ex in_lane of_head))
        | inr (inl new) ↦ new
        | inr (inr nothing) ↦ absurd nothing
      ]

-- After a new message with a supersession key is published, it stands in the table and is available, and
-- it is the only message of its lane with that key that is available or in flight.
pub publish_supersedes :
    (p : Publication) (now : ℕ) (db db' : Database) (id key : String)
    → select (has_id p.message_id) db.lane_messages ≡ none
    → Broker.publish p now db ≡ (ok id, db')
    → p.supersession_key ≡ some key
    → (select (has_id p.message_id) db'.lane_messages
        ≡ some (new_message p now (suc db.lane_sequence)))
      × (is_available (new_message p now (suc db.lane_sequence)) ≡ true)
      × ((r : MessageRow)
          → Has r db'.lane_messages
          → r.lane ≡ p.lane
          → r.supersession_key ≡ some key
          → is_active r ≡ true
          → r ≡ new_message p now (suc db.lane_sequence))
unfolding Broker.publish
publish_supersedes p now db db' id key fresh e keyed =
    elim (publish_ok db db' p now (committed (Broker.publish_tx p now) db id db' e)) [
      | inl (x, found, _, _) ↦ absurd (cc)
      | inr (_, _, new) ↦ (
        rw new (inserted_found p now db fresh),
        unfold new_message in refl,
        λ r h in_lane of_head active.
            superseded_rows p now db key r keyed
              (subst (λ (d : Database). Has r d.lane_messages) new h) in_lane of_head active,
      )
    ]
