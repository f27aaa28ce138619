-- ===== src/Broker/Rows.antt =====
-- The rows of `lane_messages` under the statements of the broker: which rows a statement takes, and
-- what it writes.
use lineage_collection.Prelude.{
  ℕ, ◌+◌, String, Bool, true, false, not, ◌&&◌, ◌||◌, Option, none, some, List, [], ◌∷◌, ltb, leb,
  eqb, column_is, any, ◌==◌, if◌then◌else◌, select,
}
use lineage_collection.Clock.{text_leb}
use lineage_collection.Models.{LaneMessage}
use lineage_collection.Database.{
  MessageRow, available, in_flight, dead, superseded, acked, GroupRow,
}

abbrev pub is_available : MessageRow → Bool
is_available r = elim r.status [ available ↦ true | _ ↦ false ]

abbrev pub is_in_flight : MessageRow → Bool
is_in_flight r = elim r.status [ in_flight ↦ true | _ ↦ false ]

abbrev pub is_dead : MessageRow → Bool
is_dead r = elim r.status [ dead ↦ true | _ ↦ false ]

-- status IN ('AVAILABLE', 'IN_FLIGHT')
abbrev pub is_active : MessageRow → Bool
is_active r = is_available r || is_in_flight r

abbrev pub has_id : String → MessageRow → Bool
has_id message_id r = r.message_id == message_id

-- lease_expires_at <= now, on the texts; false on NULL
abbrev pub expiry_passed : Option ℕ → ℕ → Bool
expiry_passed none now = false
expiry_passed (some t) now = text_leb t now

-- `_recover_expired`: the rows that it takes ...
unfoldable pub timed_out : String → ℕ → MessageRow → Bool
timed_out lane now r = r.lane == lane && (is_in_flight r && expiry_passed r.lease_expires_at now)

-- ... and what it writes.
unfoldable pub recovered : ℕ → MessageRow → MessageRow
recovered now r = record r {
  status = if leb r.max_attempts r.attempts then dead else available;
  available_at = now;
  lease_owner = none;
  lease_expires_at = none;
  dead_at = if leb r.max_attempts r.attempts then some now else none;
  last_error = some "VISIBILITY_TIMEOUT";
}

-- The subquery of `claim`: an older message of the group that is still to be handled.
unfoldable pub blocks : MessageRow → MessageRow → Bool
blocks m older =
    older.lane == m.lane
    && (older.group_key == m.group_key && (ltb older.sequence m.sequence && is_active older))

unfoldable pub eligible : List MessageRow → String → ℕ → MessageRow → Bool
eligible rows lane now m =
    m.lane == lane && (is_available m && (text_leb m.available_at now && not (any (blocks m) rows)))

unfoldable pub of_group : String → String → GroupRow → Bool
of_group lane group g = g.lane == lane && g.group_key == group

-- LEFT JOIN lane_group_state
unfoldable pub last_claim : List GroupRow → MessageRow → Option ℕ
unfolding of_group
last_claim groups m = elim (select (of_group m.lane m.group_key) groups) [
  | none ↦ none
  | some g ↦ some g.last_claim_order
]

-- ORDER BY CASE WHEN g.last_claim_order IS NULL THEN 0 ELSE 1 END, g.last_claim_order, m.sequence
unfoldable pub turn_leb : Option ℕ → ℕ → Option ℕ → ℕ → Bool
turn_leb none a none b = leb a b
turn_leb none a (some y) b = true
turn_leb (some x) a none b = false
turn_leb (some x) a (some y) b = if eqb x y then leb a b else ltb x y

unfoldable pub first_in_turn : List GroupRow → List MessageRow → Option MessageRow
first_in_turn groups [] = none
first_in_turn groups (m ∷ ms) = elim (first_in_turn groups ms) [
  | none ↦ some m
  | some n ↦
      if turn_leb (last_claim groups m) m.sequence (last_claim groups n) n.sequence
      then some m
      else some n
]

-- The UPDATE of `claim`: its rows, and what it writes.
unfoldable pub claims_row : MessageRow → MessageRow → Bool
claims_row row r =
    eqb r.sequence row.sequence && (is_available r && eqb r.delivery_epoch row.delivery_epoch)

unfoldable pub leased : MessageRow → String → ℕ → MessageRow → MessageRow
leased row owner expires_at r = record r {
  status = in_flight;
  attempts = row.attempts + 1;
  delivery_epoch = row.delivery_epoch + 1;
  lease_owner = some owner;
  lease_expires_at = some expires_at;
}

-- WHERE message_id = ? AND status = 'IN_FLIGHT' AND lease_owner = ? AND delivery_epoch = ?
unfoldable pub delivers : LaneMessage → MessageRow → Bool
delivers m r =
    has_id m.message_id r
    && (is_in_flight r
        && (column_is r.lease_owner m.owner && eqb r.delivery_epoch m.delivery_epoch))

-- The UPDATE of `acknowledge`.
unfoldable pub acknowledged : ℕ → MessageRow → MessageRow
acknowledged now r = record r {
  status = acked;
  lease_owner = none;
  lease_expires_at = none;
  acknowledged_at = some now;
}

-- The UPDATE of `retry`.
unfoldable pub retried : Bool → ℕ → ℕ → String → MessageRow → MessageRow
retried exhausted available_at now error_code r = record r {
  status = if exhausted then dead else available;
  available_at = available_at;
  lease_owner = none;
  lease_expires_at = none;
  last_error = some error_code;
  dead_at = if exhausted then some now else none;
}

-- The UPDATE of `redrive`.
unfoldable pub redriven : ℕ → MessageRow → MessageRow
redriven available_at r = record r {
  status = available;
  available_at = available_at;
  attempts = 0;
  lease_owner = none;
  lease_expires_at = none;
  dead_at = none;
  last_error = none;
}

-- The UPDATE of `publish` on the messages of an older head.
unfoldable pub of_older_head : String → String → MessageRow → Bool
of_older_head lane key r = r.lane == lane && (column_is r.supersession_key key && is_active r)

unfoldable pub retired : MessageRow → MessageRow
retired r = record r {
  status = superseded;
  lease_owner = none;
  lease_expires_at = none;
  last_error = some "SUPERSEDED_BY_NEWER_HEAD";
}

-- `_lane_message_from_row`; a row with no lease has no expiry to parse.
unfoldable pub lane_message_from_row : MessageRow → Option LaneMessage
lane_message_from_row r = elim r.lease_owner [
  | none ↦ none
  | some owner ↦ elim r.lease_expires_at [
    | none ↦ none
    | some expires_at ↦ some (record {
      message_id = r.message_id;
      lane = r.lane;
      group_key = r.group_key;
      payload_ref = r.payload_ref;
      correlation_id = r.correlation_id;
      attempt = r.attempts;
      max_attempts = r.max_attempts;
      delivery_epoch = r.delivery_epoch;
      owner = owner;
      lease_expires_at = expires_at;
      supersession_key = r.supersession_key;
    })
  ]
]

-- `_assert_active_delivery`
unfoldable pub active_delivery : MessageRow → LaneMessage → ℕ → Bool
active_delivery r m now =
    is_in_flight r
    && (column_is r.lease_owner m.owner
        && (eqb r.delivery_epoch m.delivery_epoch
            && elim r.lease_expires_at [ none ↦ false | some expiry ↦ ltb now expiry ]))
