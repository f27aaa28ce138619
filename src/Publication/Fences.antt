-- ===== src/Publication/Fences.antt =====
-- The reservation of an environment through the calls of PublisherService (services/publisher.py).
use lineage_collection.Prelude.{
  ℕ, ◌+◌, ◌≤◌, ◌<◌, String, Bool, true, false, ◌≡◌, ◌⊎◌, refl, sym, ap, ◌∙◌, inl, inr, Option, none,
  some, List, [], ◌∷◌, select, update, set_if, select-update, select-append_some, select-append,
  select-Has, arith, Bool-cases, eq_iff, eq_refl,
}
use mathlib.Core.Option
use lineage_collection.Database.Transaction.{ok, err, fence_lost, committed}
use lineage_collection.Publication
use lineage_collection.Publication.Tables.{
  Pointer, ReservationStatus, PublishReservation, StagedNamespace, GraphTables,
}
use lineage_collection.Publication.{
  pointer_of, reservation_of, last_token, upsert_reservation, close_reservation, owns_fence,
  reserve_tx,
}
use lineage_collection.Publication.Writes.{
  Write, keeps, reserves, adds, discards, moves, rolls_back, Writes, Writes-keep, new_reservation,
}
use lineage_collection.Publication.History.{Setup, Call, run, history-Writes}

-- The token of the environment's reservation is at least `n`.
abbrev pub Reaches : String → ℕ → List PublishReservation → Type 0
Reaches env n rows =
    (q : PublishReservation) × (select (reservation_of env) rows ≡ some q) × (n ≤ q.token)

-- An UPDATE that keeps environments and lowers no token.
update-Reaches :
    (env : String) (n : ℕ) (p : PublishReservation → Bool)
    (f : PublishReservation → PublishReservation) (rows : List PublishReservation)
    → ((r : PublishReservation) → p r ≡ true → (reservation_of env (f r) ≡ reservation_of env r))
    → ((q : PublishReservation)
        → select (reservation_of env) rows ≡ some q
        → p q ≡ true
        → n ≤ q.token
        → n ≤ (f q).token)
    → Reaches env n rows
    → Reaches env n (update p f rows)
update-Reaches env n p f rows same grows (q, found, le) = (
  set_if p f q,
  select-update (reservation_of env) p f rows kept ∙ ap (Option.map (set_if p f)) found,
  later (Bool-cases (p q)),
)
  where
    kept : (r : PublishReservation) → reservation_of env (set_if p f r) ≡ reservation_of env r
    kept r = elim (Bool-cases (p r)) [ inl hit ↦ rw hit (same r hit) | inr miss ↦ rw miss refl ]

    later : (p q ≡ true) ⊎ (p q ≡ false) → n ≤ (set_if p f q).token
    later (inl hit) = rw hit (grows q found hit le)
    later (inr miss) = rw miss le

upsert-Reaches :
    (env : String) (n : ℕ) (t : GraphTables) (source prior : String) (now : ℕ) (p : Pointer)
    (row : Option PublishReservation)
    → select (reservation_of source) t.reservations ≡ row
    → Reaches env n t.reservations
    → Reaches env n (upsert_reservation (new_reservation source prior now p row) row t).reservations
unfolding upsert_reservation
upsert-Reaches env n t source prior now p none e (q, found, le) = (
  q,
  select-append_some (reservation_of env) t.reservations
      (new_reservation source prior now p none ∷ []) q found,
  le,
)
upsert-Reaches env n t source prior now p (some old) e reached =
    update-Reaches env n (reservation_of source)
      (λ _. new_reservation source prior now p (some old)) t.reservations
      (λ r hit. rw ((eq_iff r.env source).0 hit) refl)
      (λ q found hit le. grows q found ((eq_iff q.env source).0 hit) le) reached
  where
    grows :
        (q : PublishReservation)
        → select (reservation_of env) t.reservations ≡ some q
        → q.env ≡ source
        → n ≤ q.token
        → n ≤ last_token p (some old) + 1
    grows q found at le =
        let named : env ≡ source =
          sym ((eq_iff q.env env).0 (select-Has (reservation_of env) t.reservations found).1)
          ∙ at in
        let same : some old ≡ some q =
          sym e
          ∙ ap (λ (x : String). select (reservation_of x) t.reservations) (sym named)
          ∙ found in
        let tokens : old.token ≡ q.token = cc in ground (arith, tokens)

Write-Reaches :
    {free : Bool} (env : String) (n : ℕ) (t u : GraphTables)
    → Write free t u
    → Reaches env n t.reservations
    → Reaches env n u.reservations
Write-Reaches env n t u (keeps p r v) h = rw r h
Write-Reaches env n t u (adds g s f p r v) h = rw r h
Write-Reaches env n t u (discards test p r v) h = rw r h
Write-Reaches env n t u (rolls_back e v k now f p r vs) h = rw r h
Write-Reaches env n t u (reserves source prior now p found ps r v) h = rw r (
    upsert-Reaches env n t source prior now p (select (reservation_of source) t.reservations) refl
      h)
Write-Reaches env n t u (moves source e v k now test f hits owns p r vs) h = rw r (
    unfold close_reservation in
    update-Reaches env n (reservation_of e) (λ q. record q { status = ReservationStatus.activated })
      t.reservations (λ q _. refl) (λ q _ _ le. le) h)

pub Writes-Reaches :
    {free : Bool} (env : String) (n : ℕ) {t u : GraphTables}
    → Writes free t u
    → Reaches env n t.reservations
    → Reaches env n u.reservations
Writes-Reaches env n w h = Writes-keep (λ t. Reaches env n t.reservations) (Write-Reaches env n) w h

-- The reservation that a call has made is found, at the token after the last one.
upsert_found :
    (env prior : String) (now : ℕ) (p : Pointer) (row : Option PublishReservation) (t : GraphTables)
    → select (reservation_of env) t.reservations ≡ row
    → select
        (reservation_of env)
        (upsert_reservation (new_reservation env prior now p row) row t).reservations
      ≡ some (new_reservation env prior now p row)
unfolding upsert_reservation
upsert_found env prior now p none t e =
    select-append (reservation_of env) t.reservations (new_reservation env prior now p none) e
    ∙ rw (eq_refl env) refl
upsert_found env prior now p (some old) t e =
    select-update (reservation_of env) (reservation_of env)
      (λ _. new_reservation env prior now p (some old)) t.reservations kept
    ∙ rw e (rw (select-Has (reservation_of env) t.reservations e).1 refl)
  where
    kept :
        (r : PublishReservation)
        → reservation_of env
            (set_if (reservation_of env) (λ _. new_reservation env prior now p (some old)) r)
          ≡ reservation_of env r
    kept r = elim (Bool-cases (reservation_of env r)) [
      | inl hit ↦ rw hit (eq_refl env)
      | inr miss ↦ rw miss miss
    ]

-- A reservation and what it found.
record Reserves (env prior : String) (now : ℕ) (t : GraphTables) (r : PublishReservation)
    (u : GraphTables) : Type 0 where
  p : Pointer
  made : r ≡ new_reservation env prior now p (select (reservation_of env) t.reservations)
  stored : select (reservation_of env) u.reservations ≡ some r

reserve_ok :
    (env prior : String) (now : ℕ) (t : GraphTables) (r : PublishReservation) (u : GraphTables)
    → Publication.reserve env prior now t ≡ (ok r, u)
    → Reserves env prior now t r u
unfolding Publication.reserve
reserve_ok env prior now t r u e =
    by_pointer (select (pointer_of env) t.pointers) refl
      (committed (reserve_tx env prior now) t r u e)
  where
    by_pointer :
        (row : Option Pointer)
        → select (pointer_of env) t.pointers ≡ row
        → reserve_tx env prior now t ≡ ok (r, u)
        → Reserves env prior now t r u
    by_pointer none h k = absurd (unfold reserve_tx in ground (arith, h))
    by_pointer (some p) h k =
        let existing : Option PublishReservation = select (reservation_of env) t.reservations in
        let made : r ≡ new_reservation env prior now p existing =
          unfold reserve_tx in ground (arith, h) in
        let table : u.reservations
            ≡ (upsert_reservation (new_reservation env prior now p existing) existing
                t).reservations =
          unfold reserve_tx in ground (arith, h) in
        record {
          p = p;
          made = made;
          stored =
              ap (select (reservation_of env)) table
              ∙ upsert_found env prior now p existing t refl
              ∙ ap some (sym made);
        }

-- A new reservation has a greater token than every one before it.
reserve_grows :
    (env prior : String) (now n : ℕ) (t u : GraphTables) (r : PublishReservation)
    → Publication.reserve env prior now t ≡ (ok r, u)
    → Reaches env n t.reservations
    → n < r.token
reserve_grows env prior now n t u r e (q, found, le) =
    let ok_reserve = reserve_ok env prior now t r u e in
    let tokens : r.token ≡ last_token ok_reserve.p (some q) + 1 =
      ap (λ (x : PublishReservation). x.token) ok_reserve.made
      ∙ ap (λ x. last_token ok_reserve.p x + 1) found in
    ground (arith, tokens)

reserve-Reaches :
    (env prior : String) (now : ℕ) (t u : GraphTables) (r : PublishReservation)
    → Publication.reserve env prior now t ≡ (ok r, u)
    → Reaches env r.token u.reservations × (r.env ≡ env)
reserve-Reaches env prior now t u r e =
    let ok_reserve = reserve_ok env prior now t r u e in
    ((r, ok_reserve.stored, omega arith), ap (λ (x : PublishReservation). x.env) ok_reserve.made)

-- A token below that of the reservation owns nothing.
owns_none :
    (env : String) (token n : ℕ) (rows : List PublishReservation)
    → token < n
    → Reaches env n rows
    → owns_fence token (select (reservation_of env) rows) ≡ false
owns_none env token n rows lt (q, found, le) = rw found (ground arith)

-- When an environment is reserved, and later, after any calls, reserved again, the second reservation
-- has a greater token; and from then on, after any further calls, an activation under the first one
-- raises FENCE_LOST and changes nothing, whatever namespace it brings.
pub newer_reservation_fences :
    (setup : Setup) (env prior prior' : String) (now now' : ℕ) (t t1 t2 : GraphTables)
    (r r' : PublishReservation) (cs cs' : List Call) (s : StagedNamespace) (later : ℕ)
    → Publication.reserve env prior now t ≡ (ok r, t1)
    → Publication.reserve env prior' now' (run setup t1 cs) ≡ (ok r', t2)
    → (r.token < r'.token)
      × (Publication.activate setup.checksum r s later (run setup t2 cs')
          ≡ (err fence_lost, run setup t2 cs'))
newer_reservation_fences setup env prior prior' now now' t t1 t2 r r' cs cs' s later first second =
    let reached = reserve-Reaches env prior now t t1 r first in
    let lt : r.token < r'.token =
      reserve_grows env prior' now' r.token (run setup t1 cs) t2 r' second
        (Writes-Reaches env r.token (history-Writes setup t1 cs) reached.0) in
    let lost : owns_fence r.token (select (reservation_of r.env) (run setup t2 cs').reservations)
        ≡ false =
      rw reached.1 (
        owns_none env r.token r'.token (run setup t2 cs').reservations lt (
          Writes-Reaches env r'.token (history-Writes setup t2 cs')
            (reserve-Reaches env prior' now' (run setup t1 cs) t2 r' second).0)) in
    (lt, unfold Publication.activate Publication.activate_tx in rw lost refl)
