-- ===== src/Broker/Selection.antt =====
-- The SELECT of `claim` of LocalLaneBroker, and the message that its conditions and its order describe.
use lineage_collection.Prelude.{
  ℕ, ◌≤◌, ◌<◌, String, ◌≡◌, ◌≢◌, ◌⊎◌, ◌↔◌, refl, inl, inr, Bool, true, false, Option, none, some,
  List, [], ◌∷◌, any, arith, Has, Bool-cases, Option-cases, eq_iff,
}
use lineage_collection.Clock.{text_leb}
use lineage_collection.Database.{
  Database, MessageRow, MessageStatus, available, in_flight, acked, dead, superseded,
}
use lineage_collection.Broker
use lineage_collection.Broker.{
  eligible, blocks, turn_leb, last_claim, is_available, is_in_flight, is_active,
}
use lineage_collection.Broker.Turn.{next_row-IsNext, next_row-none}

-- A message of the lane that is available and due, and no older message of its group is available or in
-- flight.
pub record IsReady (rows : List MessageRow) (lane : String) (now : ℕ) (m : MessageRow)
    : Type 0 where
  pub in_lane : m.lane ≡ lane
  pub waits : m.status ≡ available
  pub due : text_leb m.available_at now ≡ true
  pub heads :
      (older : MessageRow)
      → Has older rows
      → older.lane ≡ m.lane
      → older.group_key ≡ m.group_key
      → older.sequence < m.sequence
      → (older.status ≢ available) × (older.status ≢ in_flight)

-- A group that was never claimed comes first, then the group whose last claim is oldest; in a group, and
-- among those never claimed, the order is that of the sequence numbers.
abbrev pub Before : Option ℕ → ℕ → Option ℕ → ℕ → Type 0
Before none a none b = a ≤ b
Before none a (some y) b = Unit {0}
Before (some x) a none b = ⊥
Before (some x) a (some y) b = (x < y) ⊎ ((x ≡ y) × (a ≤ b))

turn_leb-Before : (x y : Option ℕ) (a b : ℕ) → turn_leb x a y b ≡ true → Before x a y b
unfolding turn_leb
turn_leb-Before none none a b h = ground (arith, h)
turn_leb-Before none (some y) a b h = tt
turn_leb-Before (some x) none a b h = cc
turn_leb-Before (some x) (some y) a b h = ground (arith, h)

available_status :
    (s : MessageStatus) → ((elim s [ available ↦ true | _ ↦ false ]) ≡ true) ↔ (s ≡ available)
available_status available = (λ h. refl, λ h. refl)
available_status in_flight = (λ h. cc, λ h. cc)
available_status acked = (λ h. cc, λ h. cc)
available_status dead = (λ h. cc, λ h. cc)
available_status superseded = (λ h. cc, λ h. cc)

in_flight_status :
    (s : MessageStatus) → ((elim s [ in_flight ↦ true | _ ↦ false ]) ≡ true) ↔ (s ≡ in_flight)
in_flight_status available = (λ h. cc, λ h. cc)
in_flight_status in_flight = (λ h. refl, λ h. refl)
in_flight_status acked = (λ h. cc, λ h. cc)
in_flight_status dead = (λ h. cc, λ h. cc)
in_flight_status superseded = (λ h. cc, λ h. cc)

any-false :
    (p : MessageRow → Bool) (rs : List MessageRow) (r : MessageRow)
    → any p rs ≡ false
    → Has r rs
    → p r ≡ false
any-false p [] r h m = absurd m
any-false p (x ∷ rs) r h (inl same) = elim (Bool-cases (p x)) [
  | inl hit ↦ absurd (ground (arith, hit, h))
  | inr miss ↦ rw same miss
]
any-false p (x ∷ rs) r h (inr m) = elim (Bool-cases (p x)) [
  | inl hit ↦ absurd (ground (arith, hit, h))
  | inr miss ↦ any-false p rs r (ground (arith, miss, h)) m
]

none-any :
    (p : MessageRow → Bool) (rs : List MessageRow)
    → ((r : MessageRow) → Has r rs → p r ≡ false)
    → any p rs ≡ false
none-any p [] h = refl
none-any p (x ∷ rs) h = rw (h x (inl refl)) (none-any p rs (λ r m. h r (inr m)))

module _ (rows : List MessageRow) (lane : String) (now : ℕ) (m : MessageRow) where
  eligible-IsReady : eligible rows lane now m ≡ true → IsReady rows lane now m
  unfolding eligible blocks
  eligible-IsReady h = record {
    in_lane = (eq_iff m.lane lane).0 (ground (arith, h));
    waits = (available_status m.status).0 (ground (arith, h));
    due = ground (arith, h);
    heads = λ older there in_lane of_group before.
        let clear = any-false (blocks m) rows older (ground (arith, h)) there in
        let l = (eq_iff older.lane m.lane).1 in_lane in
        let g = (eq_iff older.group_key m.group_key).1 of_group in
        (
          λ is.
              let x = (available_status older.status).1 is in
              ground (arith, clear, l, g, before, x),
          λ is.
              let x = (in_flight_status older.status).1 is in
              ground (arith, clear, l, g, before, x),
        );
  }

  IsReady-eligible : IsReady rows lane now m → eligible rows lane now m ≡ true
  unfolding eligible blocks
  IsReady-eligible r =
      let l = (eq_iff m.lane lane).1 r.in_lane in
      let a = (available_status m.status).1 r.waits in
      let clear : any (blocks m) rows ≡ false = none-any (blocks m) rows (free r) in
      ground (arith, l, a, r.due, clear)
    where
      free :
          IsReady rows lane now m → (older : MessageRow) → Has older rows → blocks m older ≡ false
      free r older there = elim (Bool-cases (blocks m older)) [
        | inr clear ↦ clear
        | inl hit ↦
            let (no_available, no_flight) =
              r.heads older there ((eq_iff older.lane m.lane).0 (ground (arith, hit)))
                ((eq_iff older.group_key m.group_key).0 (ground (arith, hit)))
                (ground (arith, hit)) in
            elim (Bool-cases (is_available older)) [
              | inl waits ↦ absurd (no_available ((available_status older.status).0 waits))
              | inr gone ↦
                  absurd (no_flight ((in_flight_status older.status).0 (ground (arith, hit, gone))))
            ]
      ]

module _ (lane : String) (now : ℕ) (db : Database) where
  -- The SELECT finds a message that is ready and comes before every other that is, or there is none that is
  -- ready.
  pub next_row_exact :
      ((Broker.next_row lane now db ≡ none)
        × ((n : MessageRow) → Has n db.lane_messages → IsReady db.lane_messages lane now n → ⊥))
      ⊎ ((row : MessageRow) × (Broker.next_row lane now db ≡ some row)
          × Has row db.lane_messages
          × IsReady db.lane_messages lane now row
          × ((n : MessageRow)
              → Has n db.lane_messages
              → IsReady db.lane_messages lane now n
              → Before
                  (last_claim db.lane_groups row)
                  row.sequence
                  (last_claim db.lane_groups n)
                  n.sequence))
  next_row_exact = elim (Option-cases (Broker.next_row lane now db)) [
    | inl nothing ↦ inl (
      nothing,
      λ n there ready.
          let fits = IsReady-eligible db.lane_messages lane now n ready in
          let unfit = next_row-none lane now db n nothing there in cc (fits, unfit),
    )
    | inr (row, selected) ↦
        let (stands, fits, first) = next_row-IsNext lane now db row selected in
        inr (
          row,
          selected,
          stands,
          eligible-IsReady db.lane_messages lane now row fits,
          λ n there ready.
              turn_leb-Before (last_claim db.lane_groups row) (last_claim db.lane_groups n)
                row.sequence n.sequence
                (first n there (IsReady-eligible db.lane_messages lane now n ready)),
        )
  ]
