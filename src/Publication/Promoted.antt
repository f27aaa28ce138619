-- ===== src/Publication/Promoted.antt =====
-- A `promote_existing` (services/publisher.py) that returned.
use mathlib.Core.Option
use mathlib.Core.Path.{subst}
use lineage_collection.Prelude.{
  ℕ, String, true, not, ◌≡◌, refl, sym, ap, ◌∙◌, inl, inr, Option, none, some, List, select,
  select-Has, select-update, set_if, arith, eq_iff, Bool-cases, Option-cases,
}
use lineage_collection.Database.Transaction.{ok, Result-cases, committed}
use lineage_collection.Publication.{
  pointer_of, version_at, stored_edges, reserve_tx, reserve, promote_tx, promote_reserved,
  promote_existing, supported_action, sums_to, pointer, new_pointer, retire_active, make_active,
  move_pointer, close_reservation, insert_audit,
}
use lineage_collection.Publication.Tables.{
  Edge, Pointer, PublishReservation, GraphVersion, GraphTables,
}

-- The version that a promotion makes active was stored, its checksum and that of its edges are the one
-- that was expected, and the environment points at it with the token that is returned.
pub record IsPromoted (checksum : List Edge → String) (env target expected : String)
    (before : GraphTables) (q : Pointer) (after : GraphTables) : Type 0 where
  pub version : GraphVersion
  pub edges : List Edge
  pub version_found : select (version_at env target) before.versions ≡ some version
  pub version_sum : version.checksum ≡ expected
  pub edges_found : stored_edges env target before ≡ some edges
  pub edges_sum : checksum edges ≡ expected
  pub moved_to : q.active_version ≡ target
  pub points : pointer env after ≡ ok q

reserved_env :
    (env prior : String) (now : ℕ) (t : GraphTables) (r : PublishReservation)
    → (reserve env prior now t).0 ≡ ok r
    → r.env ≡ env
unfolding reserve reserve_tx
reserved_env env prior now t r e = ground arith

pointer_moved :
    (env version : String) (token now : ℕ) (t t' : GraphTables) (p : Pointer)
    → select (pointer_of env) t.pointers ≡ some p
    → t'.pointers ≡ (move_pointer env version token now t).pointers
    → pointer env t' ≡ ok (new_pointer env version token now)
unfolding pointer move_pointer
pointer_moved env version token now t t' p found moved =
    let hit = (select-Has (pointer_of env) t.pointers found).1 in
    let named : p.env ≡ env = (eq_iff p.env env).0 hit in
    let at : select (pointer_of env) t'.pointers ≡ some (new_pointer env version token now) =
      ap (select (pointer_of env)) moved
      ∙ select-update (pointer_of env) (pointer_of env)
          (λ x. record x { active_version = version; fencing_token = token; updated_at = now })
          t.pointers (λ x. elim (Bool-cases (pointer_of env x)) [ inl h ↦ rw h h | inr h ↦ rw h h ])
      ∙ ap
          (Option.map (
            set_if (pointer_of env) (λ x. record x {
              active_version = version;
              fencing_token = token;
              updated_at = now;
            })))
          found
      ∙ rw hit (ap (λ i. some (new_pointer i version token now)) named) in
    rw (at, pointer) refl

module _ (checksum : List Edge → String) where
  sums :
      (expected : String) (v : Option GraphVersion) (found : Option (List Edge))
      → sums_to checksum expected v found ≡ true
      → (g : GraphVersion) × (es : List Edge) × (v ≡ some g)
        × (found ≡ some es)
        × (g.checksum ≡ expected)
        × (checksum es ≡ expected)
  sums expected none found h = cc
  sums expected (some g) none h = cc
  sums expected (some g) (some es) h = (
    g,
    es,
    refl,
    refl,
    (eq_iff g.checksum expected).0 (ground (arith, h)),
    (eq_iff (checksum es) expected).0 (ground (arith, h)),
  )

  promote_tx_ok :
      (r : PublishReservation) (target expected actor correlation_id action audit_id : String)
      (now : ℕ) (t t' : GraphTables) (q : Pointer)
      → promote_tx checksum r target expected actor correlation_id action audit_id now t
        ≡ ok (q, t')
      → IsPromoted checksum r.env target expected t q t'
  unfolding promote_tx insert_audit close_reservation move_pointer make_active retire_active
  promote_tx_ok r target expected actor correlation_id action audit_id now t t' q e =
      let (g, es, at, found, sum, edges_sum) =
        sums expected (select (version_at r.env target) t.versions) (stored_edges r.env target t)
          (ground arith) in
      record {
        version = g;
        edges = es;
        version_found = at;
        version_sum = sum;
        edges_found = found;
        edges_sum = edges_sum;
        moved_to = ground arith;
        points = elim (Option-cases (select (pointer_of r.env) t.pointers)) [
          | inl missing ↦ absurd (ground arith)
          | inr (p, at_env) ↦
              pointer_moved r.env target r.token now t t' p at_env (ground arith)
              ∙ ap ok (sym (the_pointer p at_env))
        ];
      }
    where
      the_pointer :
          (p : Pointer)
          → select (pointer_of r.env) t.pointers ≡ some p
          → q ≡ new_pointer r.env target r.token now
      the_pointer p at_env = ground arith

  -- A `promote_existing` that returned: between its two transactions others may have changed the tables.
  pub promote_existing_ok :
      (between : GraphTables → GraphTables)
      (env target prior expected actor correlation_id action audit_id : String)
      (reserved_at now : ℕ) (t t' : GraphTables) (q : Pointer)
      → promote_existing checksum between env target prior expected actor correlation_id action
          audit_id reserved_at now t
        ≡ (ok q, t')
      → IsPromoted checksum env target expected (between (reserve env prior reserved_at t).1) q t'
  unfolding promote_existing promote_reserved
  promote_existing_ok between env target prior expected actor correlation_id action audit_id
        reserved_at now t t' q e =
      elim (Bool-cases (not (supported_action action))) [
        | inl unknown ↦ absurd (ground (arith, unknown, e))
        | inr known ↦ elim (Result-cases (reserve env prior reserved_at t).0) [
          | inr (x, refused) ↦ absurd (ground (arith, known, refused, e))
          | inl (r, reserved_) ↦
              subst
                (λ i.
                  IsPromoted checksum i target expected
                    (between (reserve env prior reserved_at t).1) q t')
                (reserved_env env prior reserved_at t r reserved_)
                (promote_tx_ok r target expected actor correlation_id action audit_id now
                  (between (reserve env prior reserved_at t).1) t' q
                  (committed
                    (promote_tx checksum r target expected actor correlation_id action audit_id now)
                    (between (reserve env prior reserved_at t).1) q t'
                    (ground (arith, known, reserved_, e))))
        ]
      ]
