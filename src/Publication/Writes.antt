-- ===== src/Publication/Writes.antt =====
-- What a transaction of PublisherService (services/publisher.py) does to the pointers, the reservations
-- and the graph versions, as a relation between the tables before and after it.
use lineage_collection.Prelude.{
  ℕ, ◌+◌, String, Bool, true, false, ◌≡◌, ◌⊎◌, Option, some, List, [], ◌∷◌, ◌++◌, any, select,
  update, arith,
}
use lineage_collection.Publication.Tables.{
  Pointer, reserved, PublishReservation, staging, active, VersionState, GraphVersion, GraphTables,
}
use lineage_collection.Publication.{
  pointer_of, reservation_of, version_at, last_token, upsert_reservation, retire_active,
  move_pointer, close_reservation, owns_fence,
}

abbrev pub new_reservation :
    String → String → ℕ → Pointer → Option PublishReservation → PublishReservation
new_reservation env expected_prior now p existing = record {
  env = env;
  token = last_token p existing + 1;
  expected_prior = expected_prior;
  status = reserved;
  reserved_at = now;
}

abbrev pub activated_version : GraphVersion → GraphVersion
activated_version g = record g { state = active }

abbrev pub with_state : VersionState → GraphVersion → GraphVersion
with_state s g = record g { state = s }

abbrev pub switched : (GraphVersion → Bool) → String → GraphTables → List GraphVersion
switched test env t = update test activated_version (retire_active env t).versions

-- `free` admits rollbacks, and activations whose namespace is of another environment than the reservation.
pub data Write (free : Bool) (t t' : GraphTables) : Type 0 where
  keeps :
      t'.pointers ≡ t.pointers
      → t'.reservations ≡ t.reservations
      → t'.versions ≡ t.versions
      → Write free t t'
  reserves :
      (env expected_prior : String) (now : ℕ) (p : Pointer)
      → select (pointer_of env) t.pointers ≡ some p
      → t'.pointers ≡ t.pointers
      → t'.reservations
        ≡ (upsert_reservation
            (new_reservation env expected_prior now p (select (reservation_of env) t.reservations))
            (select (reservation_of env) t.reservations)
            t).reservations
      → t'.versions ≡ t.versions
      → Write free t t'
  adds :
      (g : GraphVersion)
      → g.state ≡ staging
      → any (version_at g.env g.version) t.versions ≡ false
      → t'.pointers ≡ t.pointers
      → t'.reservations ≡ t.reservations
      → t'.versions ≡ t.versions ++ g ∷ []
      → Write free t t'
  discards :
      (test : GraphVersion → Bool)
      → t'.pointers ≡ t.pointers
      → t'.reservations ≡ t.reservations
      → t'.versions ≡ update test (with_state VersionState.discarded) t.versions
      → Write free t t'
  moves :
      (source env version : String) (token now : ℕ) (test : GraphVersion → Bool)
      → (free ≡ true) ⊎ (source ≡ env)
      → ((g : GraphVersion) → test g ≡ true → version_at env version g ≡ true)
      → owns_fence token (select (reservation_of source) t.reservations) ≡ true
      → t'.pointers ≡ (move_pointer env version token now t).pointers
      → t'.reservations ≡ (close_reservation env t).reservations
      → t'.versions ≡ switched test env t
      → Write free t t'
  rolls_back :
      (env version : String) (token now : ℕ)
      → free ≡ true
      → t'.pointers ≡ (move_pointer env version token now t).pointers
      → t'.reservations ≡ t.reservations
      → t'.versions ≡ switched (version_at env version) env t
      → Write free t t'

pub data Writes (free : Bool) (t : GraphTables) : GraphTables → Type 0 where
  done : Writes free t t
  then_write : {u v : GraphTables} → Writes free t u → Write free u v → Writes free t v

module _ {free : Bool} where
  pub Writes-trans : {t u v : GraphTables} → Writes free t u → Writes free u v → Writes free t v
  Writes-trans a done = a
  Writes-trans a (then_write b w) = then_write (Writes-trans a b) w

  pub one : {t u : GraphTables} → Write free t u → Writes free t u
  one w = then_write done w

  pub unchanged : {t u : GraphTables} → u ≡ t → Writes free t u
  unchanged {t} {u} e = one (keeps (ground (arith, e)) (ground (arith, e)) (ground (arith, e)))

  -- What each write keeps, all keep.
  pub Writes-keep {ℓ} :
      (P : GraphTables → Type ℓ)
      → ((t u : GraphTables) → Write free t u → P t → P u)
      → {t u : GraphTables} → Writes free t u
      → P t
      → P u
  Writes-keep P keep done h = h
  Writes-keep P keep (then_write {u = u} {v = v} a w) h = keep u v w (Writes-keep P keep a h)
