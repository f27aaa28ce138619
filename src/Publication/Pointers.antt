-- ===== src/Publication/Pointers.antt =====
-- The fencing token of a pointer through the calls of PublisherService (services/publisher.py).
use lineage_collection.Prelude.{
  ℕ, ◌+◌, ◌<◌, String, true, false, ◌≡◌, ◌⊎◌, refl, sym, ap, ◌∙◌, inl, inr, Option, none, some,
  List, [], ◌∷◌, select, set_if, Has, UniqueBy, UniqueBy-update, update-Has, Has-update, append-Has,
  select-Has, arith, Bool-cases, eq_iff,
}
use mathlib.Core.Path.{subst}
use lineage_collection.Publication.Tables.{
  Pointer, ReservationStatus, reserved, PublishReservation, GraphTables,
}
use lineage_collection.Publication.{
  pointer_of, reservation_of, last_token, upsert_reservation, move_pointer, close_reservation,
  owns_fence,
}
use lineage_collection.Publication.Writes.{
  Write, keeps, reserves, adds, discards, moves, rolls_back, Writes, done, then_write,
  new_reservation,
}
use lineage_collection.Publication.History.{Setup, Call, AllAdmit, run, run-Writes}

-- An environment has one pointer, and a reservation that is still open has a greater token than it.
pub record IsFenced (pointers : List Pointer) (reservations : List PublishReservation)
    : Type 0 where
  pub unique : UniqueBy (λ (p : Pointer). p.env) pointers
  pub ahead :
      (p : Pointer) (q : PublishReservation)
      → Has p pointers
      → Has q reservations
      → q.env ≡ p.env
      → q.status ≡ reserved
      → p.fencing_token < q.token

-- The pointer is as before, or it has moved to a greater token.
abbrev pub Advances : Pointer → Pointer → Type 0
Advances p p' = (p'.env ≡ p.env) × ((p' ≡ p) ⊎ (p.fencing_token < p'.fencing_token))

abbrev AllAdvance : List Pointer → List Pointer → Type 0
AllAdvance before after =
    (p : Pointer) → Has p before → (p' : Pointer) × Has p' after × Advances p p'

upserted :
    (r q : PublishReservation) (row : Option PublishReservation) (t : GraphTables)
    → Has q (upsert_reservation r row t).reservations
    → (q ≡ r) ⊎ Has q t.reservations
unfolding upsert_reservation
upserted r q none t h = elim (append-Has t.reservations (r ∷ []) q h) [
  | inl old ↦ inr old
  | inr (inl new) ↦ inl new
  | inr (inr nothing) ↦ absurd nothing
]
upserted r q (some x) t h =
    let (y, hy, e) = update-Has (reservation_of r.env) (λ _. r) t.reservations q h in
    elim (Bool-cases (reservation_of r.env y)) [
      | inl hit ↦ inl (e ∙ (rw hit refl))
      | inr miss ↦ inr (subst (λ z. Has z t.reservations) (sym (e ∙ (rw miss refl))) hy)
    ]

reserved-IsFenced :
    (env prior : String) (now : ℕ) (found : Pointer) (row : Option PublishReservation)
    (t : GraphTables)
    → select (pointer_of env) t.pointers ≡ some found
    → IsFenced t.pointers t.reservations
    → IsFenced t.pointers
        (upsert_reservation (new_reservation env prior now found row) row t).reservations
reserved-IsFenced env prior now found row t e f = record {
  unique = f.unique;
  ahead = λ p q hp hq same is.
      elim (upserted (new_reservation env prior now found row) q row t hq) [
        | inl new ↦ newer row p q hp new same
        | inr old ↦ f.ahead p q hp old same is
      ];
}
  where
    newer :
        (row : Option PublishReservation) (p : Pointer) (q : PublishReservation)
        → Has p t.pointers
        → q ≡ new_reservation env prior now found row
        → q.env ≡ p.env
        → p.fencing_token < q.token
    newer row p q hp new same =
        let (hf, at) = select-Has (pointer_of env) t.pointers e in
        let is_found : p ≡ found = f.unique p found hp hf (
          sym same
          ∙ ap (λ (x : PublishReservation). x.env) new
          ∙ sym ((eq_iff found.env env).0 at)) in
        let tokens : q.token ≡ last_token found row + 1 =
          ap (λ (x : PublishReservation). x.token) new in
        let mine : p.fencing_token ≡ found.fencing_token =
          ap (λ (x : Pointer). x.fencing_token) is_found in
        last row (ground (arith, tokens)) (ground (arith, mine))
      where
        last :
            (row : Option PublishReservation)
            → q.token ≡ last_token found row + 1
            → p.fencing_token ≡ found.fencing_token
            → p.fencing_token < q.token
        last none a b = omega arith
        last (some x) a b = ground arith

-- What the fence says: the open reservation of the environment, with this token.
owned :
    (token : ℕ) (row : Option PublishReservation)
    → owns_fence token row ≡ true
    → (q : PublishReservation) × (row ≡ some q) × (q.token ≡ token) × (q.status ≡ reserved)
owned token none h = cc
owned token (some q) h = (q, refl, ground arith, by_status q.status refl)
  where
    by_status : (s : ReservationStatus) → q.status ≡ s → q.status ≡ reserved
    by_status reserved e = e
    by_status ReservationStatus.activated e = absurd (ground (arith, h, e))

-- The pointer of the environment moves to the token, and the others stay.
moved_row :
    (env version : String) (token now : ℕ) (p p' : Pointer)
    → (p.env ≡ env → p.fencing_token < token)
    → p'
      ≡ set_if
          (pointer_of env)
          (λ x. record x { active_version = version; fencing_token = token; updated_at = now })
          p
    → Advances p p'
moved_row env version token now p p' below same = elim (Bool-cases (pointer_of env p)) [
  | inl hit ↦
      let f : Pointer → Pointer =
        λ x. record x { active_version = version; fencing_token = token; updated_at = now } in
      let became : p' ≡ f p = same ∙ (rw hit refl) in
      let tokens : p'.fencing_token ≡ token = ap (λ (x : Pointer). x.fencing_token) became in
      let lt : p.fencing_token < token = below ((eq_iff p.env env).0 hit) in
      (ap (λ (x : Pointer). x.env) became, inr (omega (arith, tokens, lt)))
  | inr miss ↦
      let stayed : p' ≡ p = same ∙ (rw miss refl) in
      (ap (λ (x : Pointer). x.env) stayed, inl stayed)
]

-- No open reservation of the environment is left, and those of the others are as before.
closed_row :
    (env : String) (q q' : PublishReservation)
    → q' ≡ set_if (reservation_of env) (λ r. record r { status = ReservationStatus.activated }) q
    → q'.status ≡ reserved
    → (q' ≡ q) × (reservation_of env q ≡ false)
closed_row env q q' same is = elim (Bool-cases (reservation_of env q)) [
  | inl hit ↦
      let f : PublishReservation → PublishReservation =
        λ r. record r { status = ReservationStatus.activated } in
      let became : q' ≡ f q = same ∙ (rw hit refl) in
      absurd (
        let clash : ReservationStatus.activated ≡ reserved =
          sym (ap (λ (x : PublishReservation). x.status) became) ∙ is in
        cc)
  | inr miss ↦ (same ∙ (rw miss refl), miss)
]

module _ (env version : String) (token now : ℕ) (t : GraphTables)
    (f : IsFenced t.pointers t.reservations)
    (owns : owns_fence token (select (reservation_of env) t.reservations) ≡ true) where
  moved_below : (p : Pointer) → Has p t.pointers → p.env ≡ env → p.fencing_token < token
  moved_below p hp at =
      let (q, found, tokens, open_) =
        owned token (select (reservation_of env) t.reservations) owns in
      let (hq, named) = select-Has (reservation_of env) t.reservations found in
      let lt : p.fencing_token < q.token =
        f.ahead p q hp hq ((eq_iff q.env env).0 named ∙ sym at) open_ in
      omega (arith, tokens, lt)

  moved-AllAdvance : AllAdvance t.pointers (move_pointer env version token now t).pointers
  unfolding move_pointer
  moved-AllAdvance p hp =
      let g : Pointer → Pointer =
        λ x. record x { active_version = version; fencing_token = token; updated_at = now } in
      (
        set_if (pointer_of env) g p,
        Has-update (pointer_of env) g t.pointers p hp,
        moved_row env version token now p (set_if (pointer_of env) g p) (moved_below p hp) refl,
      )

  moved-IsFenced :
      IsFenced
        (move_pointer env version token now t).pointers
        (close_reservation env t).reservations
  unfolding move_pointer close_reservation
  moved-IsFenced =
      let g : Pointer → Pointer =
        λ x. record x { active_version = version; fencing_token = token; updated_at = now } in
      record {
        unique =
            UniqueBy-update (λ (p : Pointer). p.env) (pointer_of env) g t.pointers (λ p. refl)
              f.unique;
        ahead = λ p' q' hp hq same is.
            let (p, hp0, pe) = update-Has (pointer_of env) g t.pointers p' hp in
            let (q, hq0, qe) =
              update-Has (reservation_of env)
                (λ r. record r { status = ReservationStatus.activated }) t.reservations q' hq in
            let (kept, other) = closed_row env q q' qe is in
            still p p' q q' pe kept other same is (f.ahead p q hp0 hq0);
      }
    where
      still :
          (p p' : Pointer) (q q' : PublishReservation)
          → p'
            ≡ set_if
                (pointer_of env)
                (λ x. record x {
                  active_version = version;
                  fencing_token = token;
                  updated_at = now;
                })
                p
          → q' ≡ q
          → reservation_of env q ≡ false
          → q'.env ≡ p'.env
          → q'.status ≡ reserved
          → (q.env ≡ p.env → q.status ≡ reserved → p.fencing_token < q.token)
          → p'.fencing_token < q'.token
      still p p' q q' pe kept other same is before = elim (Bool-cases (pointer_of env p)) [
        | inl hit ↦
            let g : Pointer → Pointer =
              λ x. record x { active_version = version; fencing_token = token; updated_at = now } in
            let became : p' ≡ g p = pe ∙ (rw hit refl) in
            let at : q.env ≡ env =
              sym (ap (λ (x : PublishReservation). x.env) kept)
              ∙ same
              ∙ ap (λ (x : Pointer). x.env) became
              ∙ (eq_iff p.env env).0 hit in
            absurd (ground (arith, other, at, eq_iff q.env env))
        | inr miss ↦
            let stayed : p' ≡ p = pe ∙ (rw miss refl) in
            rw (kept, stayed)
              (before
                (sym (ap (λ (x : PublishReservation). x.env) kept)
                  ∙ same
                  ∙ ap (λ (x : Pointer). x.env) stayed)
                (sym (ap (λ (x : PublishReservation). x.status) kept) ∙ is))
      ]

all_stay : {before after : List Pointer} → after ≡ before → AllAdvance before after
all_stay e p h = (p, rw e h, (refl, inl refl))

-- One write, from fenced tables, leaves them fenced and moves no pointer back.
Write-Advances :
    (t u : GraphTables)
    → Write false t u
    → IsFenced t.pointers t.reservations
    → IsFenced u.pointers u.reservations × AllAdvance t.pointers u.pointers
Write-Advances t u (keeps p r v) f = (rw (p, r) f, all_stay p)
Write-Advances t u (adds g is fresh p r v) f = (rw (p, r) f, all_stay p)
Write-Advances t u (discards test p r v) f = (rw (p, r) f, all_stay p)
Write-Advances t u (reserves env expected now old found p r v) f = (
  rw (p, r)
      (reserved-IsFenced env expected now old (select (reservation_of env) t.reservations) t found
        f),
  all_stay p,
)
Write-Advances t u (rolls_back env version token now free p r v) f = cc
Write-Advances t u (moves source env version token now test (inl free) hits owns p r v) f = cc
Write-Advances t u (moves source env version token now test (inr same) hits owns p r v) f =
    let here : owns_fence token (select (reservation_of env) t.reservations) ≡ true =
      subst (λ e. owns_fence token (select (reservation_of e) t.reservations) ≡ true) same owns in
    (
      rw (p, r) (moved-IsFenced env version token now t f here),
      rw p (moved-AllAdvance env version token now t f here),
    )

Advances-trans : {p q r : Pointer} → Advances p q → Advances q r → Advances p r
Advances-trans (a, inl x) (b, inl y) = (b ∙ a, inl (y ∙ x))
Advances-trans (a, inl x) (b, inr y) = (b ∙ a, inr (ground (arith, x)))
Advances-trans (a, inr x) (b, inl y) = (b ∙ a, inr (ground (arith, y)))
Advances-trans (a, inr x) (b, inr y) = (b ∙ a, inr (omega arith))

Writes-Advances :
    {t u : GraphTables}
    → Writes false t u
    → IsFenced t.pointers t.reservations
    → IsFenced u.pointers u.reservations × AllAdvance t.pointers u.pointers
Writes-Advances done f = (f, all_stay refl)
Writes-Advances (then_write {u = u} {v = v} w last) f =
    let (fenced, before) = Writes-Advances w f in
    let (fenced', after) = Write-Advances u v last fenced in
    (
      fenced',
      λ p hp.
          let (q, hq, a) = before p hp in
          let (r, hr, b) = after q hq in (r, hr, Advances-trans a b),
    )

-- From tables where an environment has one pointer and an open reservation has a greater token than
-- it, after every history of calls without rollbacks and without activations under the reservation of
-- another environment than the namespace's, each pointer is as before or has a greater token.
pub pointers_advance :
    (setup : Setup) (t : GraphTables) (cs : List Call) (p : Pointer)
    → IsFenced t.pointers t.reservations
    → AllAdmit false cs
    → Has p t.pointers
    → (p' : Pointer) × Has p' (run setup t cs).pointers × Advances p p'
pointers_advance setup t cs p f admitted h =
    (Writes-Advances (run-Writes setup false t cs admitted) f).1 p h
