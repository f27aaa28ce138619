-- ===== src/Outbox/Batch.antt =====
-- The batch of `SQLiteOutbox.pending` (infrastructure/local_broker.py).
use lineage_collection.Prelude.{
  ℕ, zero, suc, ◌≤◌, ◌≡◌, ◌⊎◌, refl, inl, inr, true, false, List, [], ◌∷◌, arith, length, Has, take,
  Bool-cases, select_all, select_all-Has, Has-select_all, length-take-le, Has-take,
}
use lineage_collection.Models.{OutboxEvent, pending}
use lineage_collection.Database.{Database}
use lineage_collection.Clock.{text_leb}
use lineage_collection.Clock.Bounds.{text_leb_total, text_leb_trans}
use lineage_collection.Outbox.{pending_rows, due, event_leb, insert_event, sort_events}

-- In the order of the delivery times, and of the creation times where these are the same.
abbrev pub Comes : OutboxEvent → OutboxEvent → Type 0
Comes a b =
    (text_leb b.available_at a.available_at ≡ false)
    ⊎ ((text_leb a.available_at b.available_at ≡ true)
        × (text_leb a.created_at b.created_at ≡ true))

-- Each event comes before all that follow it.
abbrev pub IsOrdered : List OutboxEvent → Type 0
IsOrdered [] = Unit {0}
IsOrdered (e ∷ es) = ((x : OutboxEvent) → Has x es → Comes e x) × IsOrdered es

Comes-trans : (a b c : OutboxEvent) → Comes a b → Comes b c → Comes a c
Comes-trans a b c x y = ground (
  x,
  y,
  text_leb_total a.available_at b.available_at,
  text_leb_total b.available_at a.available_at,
  text_leb_total c.available_at b.available_at,
  text_leb_total c.available_at a.available_at,
  text_leb_trans a.available_at b.available_at c.available_at,
  text_leb_trans c.available_at a.available_at b.available_at,
  text_leb_trans b.available_at c.available_at a.available_at,
  text_leb_trans a.created_at b.created_at c.created_at,
  arith,
)

event_leb-Comes : (a b : OutboxEvent) → event_leb a b ≡ true → Comes a b
unfolding event_leb
event_leb-Comes a b h = ground (
  arith,
  h,
  text_leb_total b.created_at a.created_at,
  text_leb_total a.created_at b.created_at,
  text_leb_total a.available_at b.available_at,
)

event_leb-false : (a b : OutboxEvent) → event_leb a b ≡ false → Comes b a
unfolding event_leb
event_leb-false a b h = ground (
  arith,
  h,
  text_leb_total b.created_at a.created_at,
  text_leb_total a.created_at b.created_at,
  text_leb_total a.available_at b.available_at,
  text_leb_total b.available_at a.available_at,
)

insert_event-Has :
    (e x : OutboxEvent) (es : List OutboxEvent) → Has x (insert_event e es) → (x ≡ e) ⊎ Has x es
unfolding insert_event
insert_event-Has e x [] h = h
insert_event-Has e x (y ∷ es) h = ground (arith, insert_event-Has e x es)

Has-insert_event :
    (e x : OutboxEvent) (es : List OutboxEvent) → (x ≡ e) ⊎ Has x es → Has x (insert_event e es)
unfolding insert_event
Has-insert_event e x [] h = h
Has-insert_event e x (y ∷ es) h = ground (arith, Has-insert_event e x es)

insert_event-IsOrdered :
    (e : OutboxEvent) (es : List OutboxEvent) → IsOrdered es → IsOrdered (insert_event e es)
unfolding insert_event
insert_event-IsOrdered e [] o = ((λ x h. absurd h), tt)
insert_event-IsOrdered e (y ∷ es) (first, rest) = elim (Bool-cases (event_leb e y)) [
  | inl le ↦ rw le (
    (λ x h. elim h [
      | inl same ↦ rw same (event_leb-Comes e y le)
      | inr later ↦ Comes-trans e y x (event_leb-Comes e y le) (first x later)
    ]),
    (first, rest),
  )
  | inr gt ↦ rw gt (
    (λ x h. elim (insert_event-Has e x es h) [
      | inl same ↦ rw same (event_leb-false e y gt)
      | inr later ↦ first x later
    ]),
    insert_event-IsOrdered e es rest,
  )
]

sort_events-IsOrdered : (es : List OutboxEvent) → IsOrdered (sort_events es)
unfolding sort_events
sort_events-IsOrdered [] = tt
sort_events-IsOrdered (e ∷ es) =
    insert_event-IsOrdered e (sort_events es) (sort_events-IsOrdered es)

sort_events-Has : (x : OutboxEvent) (es : List OutboxEvent) → Has x (sort_events es) → Has x es
unfolding sort_events
sort_events-Has x [] h = h
sort_events-Has x (e ∷ es) h =
    ground (arith, insert_event-Has e x (sort_events es), sort_events-Has x es)

Has-sort_events : (x : OutboxEvent) (es : List OutboxEvent) → Has x es → Has x (sort_events es)
unfolding sort_events
Has-sort_events x [] h = h
Has-sort_events x (e ∷ es) h =
    ground (arith, Has-insert_event e x (sort_events es), Has-sort_events x es)

take-IsOrdered : (n : ℕ) (es : List OutboxEvent) → IsOrdered es → IsOrdered (take n es)
take-IsOrdered zero es o = tt
take-IsOrdered (suc n) [] o = tt
take-IsOrdered (suc n) (e ∷ es) (first, rest) =
    ((λ x h. first x (Has-take n es x h)), take-IsOrdered n es rest)

-- What is left out comes after a batch that is full.
left_out :
    (n : ℕ) (es : List OutboxEvent) (x : OutboxEvent)
    → IsOrdered es
    → Has x es
    → Has x (take n es)
      ⊎ ((length (take n es) ≡ n) × ((e : OutboxEvent) → Has e (take n es) → Comes e x))
left_out zero es x o h = inr (refl, λ e nothing. absurd nothing)
left_out (suc n) [] x o h = absurd h
left_out (suc n) (y ∷ es) x o (inl same) = inl (inl same)
left_out (suc n) (y ∷ es) x (first, rest) (inr h) = elim (left_out n es x rest h) [
  | inl there ↦ inl (inr there)
  | inr (full, before) ↦ inr (
    omega (arith, full),
    λ e there. elim there [ inl same ↦ rw same (first x h) | inr later ↦ before e later ],
  )
]

module _ (limit now : ℕ) (db : Database) where
  -- A pending row of the table whose delivery time has come.
  abbrev pub IsDue : OutboxEvent → Type 0
  IsDue e = Has e db.outbox_events × (e.status ≡ pending) × (text_leb e.available_at now ≡ true)

  IsDue-due :
      (e : OutboxEvent) → e.status ≡ pending → text_leb e.available_at now ≡ true → due now e ≡ true
  unfolding due
  IsDue-due e waits at = rw (waits) at

  -- The batch has at most `limit` events, each of them due, in the order of their delivery and creation
  -- times; and an event that is due is in the batch, or the batch is full and each of its events comes
  -- before it.
  pub pending_rows_exact :
      (length (pending_rows limit now db) ≤ limit)
      × IsOrdered (pending_rows limit now db)
      × ((e : OutboxEvent) → Has e (pending_rows limit now db) → IsDue e)
      × ((x : OutboxEvent)
          → IsDue x
          → Has x (pending_rows limit now db)
            ⊎ ((length (pending_rows limit now db) ≡ limit)
                × ((e : OutboxEvent) → Has e (pending_rows limit now db) → Comes e x)))
  unfolding pending_rows due
  pending_rows_exact = (
    length-take-le limit (sort_events (select_all (due now) db.outbox_events)),
    take-IsOrdered limit (sort_events (select_all (due now) db.outbox_events))
        (sort_events-IsOrdered (select_all (due now) db.outbox_events)),
    λ e h.
        let (stands, fits) = select_all-Has (due now) db.outbox_events e (
          sort_events-Has e (select_all (due now) db.outbox_events)
            (Has-take limit (sort_events (select_all (due now) db.outbox_events)) e h)) in
        (stands, ground arith, ground arith),
    λ x (there, waits, at).
        left_out limit (sort_events (select_all (due now) db.outbox_events)) x
          (sort_events-IsOrdered (select_all (due now) db.outbox_events))
          (Has-sort_events x (select_all (due now) db.outbox_events)
            (Has-select_all (due now) db.outbox_events x there (IsDue-due x waits at))),
  )
