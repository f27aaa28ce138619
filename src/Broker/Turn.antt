-- ===== src/Broker/Turn.antt =====
-- The message that `claim` of LocalLaneBroker selects: the ORDER BY of its SELECT.
use lineage_collection.Prelude.{
  ℕ, String, ◌≡◌, refl, inl, inr, true, false, Option, none, some, List, [], ◌∷◌, arith, select_all,
  select_all-Has, Has-select_all, Has, Option-cases, Bool-cases,
}
use lineage_collection.Database.{Database, MessageRow, GroupRow}
use lineage_collection.Broker
use lineage_collection.Broker.{eligible, first_in_turn, turn_leb, last_claim}

turn_leb_refl : (x : Option ℕ) (a : ℕ) → turn_leb x a x a ≡ true
unfolding turn_leb
turn_leb_refl none a = ground arith
turn_leb_refl (some x) a = ground arith

turn_leb_total : (x y : Option ℕ) (a b : ℕ) → turn_leb x a y b ≡ false → turn_leb y b x a ≡ true
unfolding turn_leb
turn_leb_total none none a b h = ground arith
turn_leb_total none (some y) a b h = ground arith
turn_leb_total (some x) none a b h = ground arith
turn_leb_total (some x) (some y) a b h = ground arith

turn_leb_trans :
    (x y z : Option ℕ) (a b c : ℕ)
    → turn_leb x a y b ≡ true
    → turn_leb y b z c ≡ true
    → turn_leb x a z c ≡ true
unfolding turn_leb
turn_leb_trans none none none a b c h k = ground arith
turn_leb_trans none none (some z) a b c h k = ground arith
turn_leb_trans none (some y) none a b c h k = ground arith
turn_leb_trans none (some y) (some z) a b c h k = ground arith
turn_leb_trans (some x) none z a b c h k = ground arith
turn_leb_trans (some x) (some y) none a b c h k = ground arith
turn_leb_trans (some x) (some y) (some z) a b c h k = ground arith

-- Message `m` comes at or before message `n` in turn.
abbrev pub InTurn : List GroupRow → MessageRow → MessageRow → Type 0
InTurn groups m n =
    turn_leb (last_claim groups m) m.sequence (last_claim groups n) n.sequence ≡ true

module _ (groups : List GroupRow) where
  pub first_in_turn-Has :
      (ms : List MessageRow) (m : MessageRow) → first_in_turn groups ms ≡ some m → Has m ms
  unfolding first_in_turn
  first_in_turn-Has [] m e = cc
  first_in_turn-Has (x ∷ ms) m e = elim (Option-cases (first_in_turn groups ms)) [
    | inl alone ↦ ground arith
    | inr (n, en) ↦ ground (arith, first_in_turn-Has ms n)
  ]

  pub first_in_turn-none : (ms : List MessageRow) → first_in_turn groups ms ≡ none → ms ≡ []
  unfolding first_in_turn
  first_in_turn-none [] e = refl
  first_in_turn-none (x ∷ ms) e = ground arith

  not-Has-nil : (ms : List MessageRow) (n : MessageRow) → ms ≡ [] → Has n ms → ⊥
  not-Has-nil [] n e h = h
  not-Has-nil (x ∷ ms) n e h = cc

  pub first_in_turn-le :
      (ms : List MessageRow) (m n : MessageRow)
      → first_in_turn groups ms ≡ some m
      → Has n ms
      → InTurn groups m n
  unfolding first_in_turn
  first_in_turn-le [] m n e h = absurd h
  first_in_turn-le (x ∷ ms) m n e h = elim (Option-cases (first_in_turn groups ms)) [
    | inl alone ↦ ground (
      arith,
      not-Has-nil ms n (first_in_turn-none ms alone),
      turn_leb_refl (last_claim groups x) x.sequence,
    )
    | inr (y, ey) ↦ ground (
      arith,
      first_in_turn-le ms y n ey,
      turn_leb_refl (last_claim groups x) x.sequence,
      turn_leb_total (last_claim groups x) (last_claim groups y) x.sequence y.sequence,
      turn_leb_trans (last_claim groups x) (last_claim groups y) (last_claim groups n) x.sequence
          y.sequence n.sequence,
    )
  ]

module _ (lane : String) (now : ℕ) (db : Database) where
  -- The message of a claim is eligible, and stands at or before every other eligible one in turn.
  pub next_row-IsNext :
      (row : MessageRow)
      → Broker.next_row lane now db ≡ some row
      → Has row db.lane_messages
        × (eligible db.lane_messages lane now row ≡ true)
        × ((n : MessageRow)
            → Has n db.lane_messages
            → eligible db.lane_messages lane now n ≡ true
            → InTurn db.lane_groups row n)
  unfolding Broker.next_row
  next_row-IsNext row e =
      let found = first_in_turn-Has db.lane_groups candidates row e in
      let (stands, fits) =
        select_all-Has (eligible db.lane_messages lane now) db.lane_messages row found in
      (
        stands,
        fits,
        λ n hn en.
            first_in_turn-le db.lane_groups candidates row n e
              (Has-select_all (eligible db.lane_messages lane now) db.lane_messages n hn en),
      )
    where
      candidates : List MessageRow
      candidates = select_all (eligible db.lane_messages lane now) db.lane_messages

  -- A claim finds nothing only if no message is eligible.
  pub next_row-none :
      (n : MessageRow)
      → Broker.next_row lane now db ≡ none
      → Has n db.lane_messages
      → eligible db.lane_messages lane now n ≡ false
  unfolding Broker.next_row
  next_row-none n e hn = elim (Bool-cases (eligible db.lane_messages lane now n)) [
    | inl fits ↦ absurd (
        not-Has-nil db.lane_groups _ n (first_in_turn-none db.lane_groups _ e)
          (Has-select_all (eligible db.lane_messages lane now) db.lane_messages n hn fits))
    | inr unfit ↦ unfit
  ]
