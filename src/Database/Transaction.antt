-- ===== src/Database/Transaction.antt =====
-- `Database.transaction`, and the exceptions that the stores raise.
use lineage_collection.Prelude.{◌≡◌, ◌⊎◌, inl, inr, refl, ap, Bool, true, false, Option, none, some}

pub data Error : Type 0 where
  value_error outbox_state message_state message_conflict stale_delivery : Error
  command_not_found command_state lease_unavailable stale_lease attempts_exhausted : Error
  deadline_exceeded idempotency_conflict constraint_failed callback_raised : Error
  package_not_approved package_conflict : Error
  overwrite_attempt unknown_evidence_kind invalid_evidence_key : Error
  pointer_not_found pointer_conflict fence_lost verify_mismatch approval_required : Error
  namespace_conflict publication_conflict rollback_not_found fault runtime_error : Error
  stale_base_version empty_proposal mixed_ownership proposal_not_found : Error
  concurrent_decision invalid_transition readback_mismatch overflow_error : Error
  -- No exception of the source: a loop of the model ran out of its fuel.
  out_of_fuel : Error

pub data Result {ℓ} (A : Type ℓ) : Type ℓ where
  ok : A → Result A
  err : Error → Result A

-- The body of a transaction: the statements so far are kept only if nothing is raised.
abbrev pub Tx : Type 0 → Type 0 → Type 0
Tx S A = S → Result (A × S)

module _ {S A B : Type 0} where
  infixl 5 ◌>>=◌
  abbrev pub ◌>>=◌ : Tx S A → (A → Tx S B) → Tx S B
  ◌>>=◌ m f s = elim (m s) [ ok (a, s') ↦ f a s' | err e ↦ err e ]

  infixl 5 ◌>>◌
  abbrev pub ◌>>◌ : Tx S A → Tx S B → Tx S B
  m >> k = m >>= λ _. k

module _ {S : Type 0} where
  abbrev pub guard : Bool → Error → Tx S Unit
  guard true e s = ok (tt, s)
  guard false e s = err e

  abbrev pub modify : (S → S) → Tx S Unit
  modify f s = ok (tt, f s)

module _ {S A : Type 0} where
  abbrev pub pure : A → Tx S A
  pure a s = ok (a, s)

  abbrev pub raise : Error → Tx S A
  raise e s = err e

  abbrev pub gets : (S → A) → Tx S A
  gets f s = ok (f s, s)

  abbrev pub or_raise : Option A → Error → Tx S A
  or_raise none e s = err e
  or_raise (some a) e s = ok (a, s)

  -- Commit, or roll back.
  abbrev pub settle : S → Result (A × S) → Result A × S
  settle s (ok (a, s')) = (ok a, s')
  settle s (err e) = (err e, s)

  abbrev pub transaction : Tx S A → S → Result A × S
  transaction m s = settle s (m s)

pub Result-cases :
    {A : Type 0} (r : Result A) → ((a : A) × (r ≡ ok a)) ⊎ ((e : Error) × (r ≡ err e))
Result-cases (ok a) = inl (a, refl)
Result-cases (err e) = inr (e, refl)

-- A property holds after a transaction if it holds before it, and after every body that commits.
pub transaction-keeps {ℓ} :
    {S A : Type 0} (P : S → Type ℓ) (m : Tx S A) (s : S)
    → P s
    → ((a : A) (s' : S) → m s ≡ ok (a, s') → P s')
    → P (transaction m s).1
transaction-keeps {S} {A} P m s before after = by_result (m s) refl
  where
    by_result : (r : Result (A × S)) → m s ≡ r → P (settle s r).1
    by_result (ok (a, s')) e = after a s' e
    by_result (err e) _ = before

-- A transaction that returned has committed what its body wrote.
pub committed :
    {S A : Type 0} (m : Tx S A) (s : S) (a : A) (s' : S)
    → transaction m s ≡ (ok a, s')
    → m s ≡ ok (a, s')
committed {S} {A} m s a s' e = by_result (m s) e
  where
    by_result : (r : Result (A × S)) → settle s r ≡ (ok a, s') → r ≡ ok (a, s')
    by_result (ok (b, t)) h = cc
    by_result (err x) h = cc

-- A sequence that returned has run both of its parts.
pub bind_ok :
    {S A B : Type 0} (m : Tx S A) (f : A → Tx S B) (s s' : S) (b : B)
    → (m >>= f) s ≡ ok (b, s')
    → (a : A) × (t : S) × (m s ≡ ok (a, t)) × (f a t ≡ ok (b, s'))
bind_ok {S} {A} m f s s' b e = by_result (m s) refl e
  where
    by_result :
        (r : Result (A × S))
        → m s ≡ r
        → elim r [ ok (a, t) ↦ f a t | err x ↦ err x ] ≡ ok (b, s')
        → (a : A) × (t : S) × (m s ≡ ok (a, t)) × (f a t ≡ ok (b, s'))
    by_result (ok (a, t)) h k = (a, t, h, k)
    by_result (err x) h k = cc

-- A sequence whose first part returned goes on with the second.
pub bind_then :
    {S A B : Type 0} (m : Tx S A) (f : A → Tx S B) (s t : S) (a : A)
    → m s ≡ ok (a, t)
    → (m >>= f) s ≡ f a t
bind_then {S} {A} {B} m f s t a e =
    ap (λ (r : Result (A × S)). elim r [ ok (b, u) ↦ f b u | err x ↦ err x ]) e
