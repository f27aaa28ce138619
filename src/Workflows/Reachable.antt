-- ===== src/Workflows/Reachable.antt =====
-- The loop of `reachable_stage_ids` (application/workflows/definitions.py).
use lineage_collection.Prelude.{
  ℕ, zero, suc, ◌+◌, ◌≤◌, ◌<◌, String, true, false, ◌≡◌, ◌⊎◌, ◌↔◌, refl, sym, ap, ◌∙◌, inl, inr,
  none, some, List, [], ◌∷◌, ◌==◌, length, if◌then◌else◌, Has, arith, Bool-cases, Option-cases,
  eq_iff,
}
use mathlib.Core.Path.{subst}
use lineage_collection.Workflows.{
  Target, stage, terminal, StageDefinition, WorkflowDefinition, member, by_id, targets, push_stages,
  visit, search_stages, count_targets, reachable_stage_ids,
}

member-true : (s : String) (xs : List String) → member s xs ≡ true → Has s xs
member-true s [] h = cc
member-true s (x ∷ xs) h = elim (Bool-cases (x == s)) [
  | inl hit ↦ inl (sym ((eq_iff x s).0 hit))
  | inr miss ↦ inr (member-true s xs (ground (arith, miss)))
]

member-false : (s : String) (xs : List String) → member s xs ≡ false → Has s xs → ⊥
member-false s [] h m = m
member-false s (x ∷ xs) h (inl e) = ground (arith, e, eq_iff x s)
member-false s (x ∷ xs) h (inr m) = member-false s xs (ground arith) m

-- The targets of the stages that are not yet reached.
pub unseen : List StageDefinition → List String → ℕ
unseen [] reached = 0
unseen (s ∷ ss) reached =
    if member s.stage_id reached then unseen ss reached else length (targets s) + unseen ss reached

unseen_less :
    (ss : List StageDefinition) (id : String) (reached : List String)
    → unseen ss (id ∷ reached) ≤ unseen ss reached
unfolding unseen
unseen_less [] id reached = omega arith
unseen_less (s ∷ ss) id reached = ground (arith, unseen_less ss id reached)

pub unseen-visit :
    (ss : List StageDefinition) (id : String) (reached : List String) (s : StageDefinition)
    → by_id id ss ≡ some s
    → member id reached ≡ false
    → unseen ss (id ∷ reached) + length (targets s) ≤ unseen ss reached
unfolding unseen by_id
unseen-visit [] id reached s e new = cc
unseen-visit (t ∷ ss) id reached s e new = elim (Option-cases (by_id id ss)) [
  | inr (x, found) ↦
      let ih = unseen-visit ss id reached s (ground (arith, found, e)) new in ground (arith, ih)
  | inl missing ↦ elim (Bool-cases (t.stage_id == id)) [
    | inl hit ↦
        let same : t ≡ s = ground (arith, missing, hit, e) in
        let here : t.stage_id ≡ id = (eq_iff t.stage_id id).0 hit in
        let count : length (targets t) ≡ length (targets s) =
          ap (λ (x : StageDefinition). length (targets x)) same in
        let new' : member t.stage_id reached ≡ false = ap (λ x. member x reached) here ∙ new in
        let less = unseen_less ss id reached in
        ground (arith, count, new', less, eq_iff id t.stage_id, here)
    | inr miss ↦ absurd (ground (arith, missing, miss, e))
  ]
]

length-push_le :
    (ts : List Target) (pending : List String)
    → length (push_stages ts pending) ≤ length ts + length pending
unfolding push_stages
length-push_le [] pending = omega arith
length-push_le (stage id ∷ ts) pending = omega (arith, length-push_le ts (id ∷ pending))
length-push_le (terminal t ∷ ts) pending = omega (arith, length-push_le ts pending)

module _ (stages : List StageDefinition) where
  abbrev measure : List String → List String → ℕ
  measure pending reached = length pending + unseen stages reached

  measure-visit :
      (id : String) (pending reached : List String)
      → measure (visit stages id pending reached).0 (visit stages id pending reached).1
        < measure (id ∷ pending) reached
  unfolding visit
  measure-visit id pending reached = elim (Bool-cases (member id reached)) [
    | inl old ↦ rw old (omega arith)
    | inr new ↦ elim (Option-cases (by_id id stages)) [
      | inl unknown ↦ rw new (rw unknown (omega arith))
      | inr (s, found) ↦ rw new (
          rw found (
            omega (
              arith,
              unseen-visit stages id reached s found new,
              length-push_le (targets s) pending,
            )))
    ]
  ]

  search_total :
      (fuel : ℕ) (pending reached : List String)
      → measure pending reached < fuel
      → (r : List String) × (search_stages fuel stages pending reached ≡ some r)
  unfolding search_stages
  search_total zero pending reached lt = absurd (omega arith)
  search_total (suc fuel) [] reached lt = (reached, refl)
  search_total (suc fuel) (id ∷ pending) reached lt =
      search_total fuel (visit stages id pending reached).0 (visit stages id pending reached).1
        (omega (arith, measure-visit id pending reached))

  abbrev pub IsKnown : String → Type 0
  IsKnown id = (s : StageDefinition) × (by_id id stages ≡ some s)

  -- A stage on a path of routes from the entry, through stages of the definition.
  pub data IsReachable (entry : String) : String → Type 0 where
    starts : {a : String} → a ≡ entry → IsKnown a → IsReachable entry a
    follows :
        {a b : String}
        → IsReachable entry a
        → (s : StageDefinition) → by_id a stages ≡ some s
        → Has (stage b) (targets s)
        → IsKnown b
        → IsReachable entry b

  push-Has :
      (ts : List Target) (pending : List String) (b : String)
      → Has b (push_stages ts pending)
      → Has (stage b) ts ⊎ Has b pending
  unfolding push_stages
  push-Has [] pending b h = inr h
  push-Has (stage id ∷ ts) pending b h = elim (push-Has ts (id ∷ pending) b h) [
    | inl later ↦ inl (inr later)
    | inr (inl e) ↦ inl (inl (ap stage e))
    | inr (inr old) ↦ inr old
  ]
  push-Has (terminal t ∷ ts) pending b h = elim (push-Has ts pending b h) [
    | inl later ↦ inl (inr later)
    | inr old ↦ inr old
  ]

  Has-push_left :
      (ts : List Target) (pending : List String) (b : String)
      → Has b pending
      → Has b (push_stages ts pending)
  unfolding push_stages
  Has-push_left [] pending b h = h
  Has-push_left (stage id ∷ ts) pending b h = Has-push_left ts (id ∷ pending) b (inr h)
  Has-push_left (terminal t ∷ ts) pending b h = Has-push_left ts pending b h

  stage_name : Target → String
  stage_name (stage id) = id
  stage_name (terminal t) = t

  Has-push_right :
      (ts : List Target) (pending : List String) (b : String)
      → Has (stage b) ts
      → Has b (push_stages ts pending)
  unfolding push_stages stage_name
  Has-push_right [] pending b h = absurd h
  Has-push_right (stage id ∷ ts) pending b (inl e) =
      Has-push_left ts (id ∷ pending) b (inl (ap stage_name e))
  Has-push_right (stage id ∷ ts) pending b (inr h) = Has-push_right ts (id ∷ pending) b h
  Has-push_right (terminal t ∷ ts) pending b (inl e) = cc
  Has-push_right (terminal t ∷ ts) pending b (inr h) = Has-push_right ts pending b h

  -- The three cases of a visit.
  data Visits (id : String) (pending reached : List String)
      : List String × List String → Type 0 where
    seen : Has id reached → Visits id pending reached (pending, reached)
    unknown : by_id id stages ≡ none → Visits id pending reached (pending, reached)
    enters :
        (s : StageDefinition)
        → by_id id stages ≡ some s
        → Visits id pending reached (push_stages (targets s) pending, id ∷ reached)

  visit-Visits :
      (id : String) (pending reached : List String)
      → Visits id pending reached (visit stages id pending reached)
  unfolding visit
  visit-Visits id pending reached = elim (Bool-cases (member id reached)) [
    | inl old ↦ rw old (seen (member-true id reached old))
    | inr new ↦ elim (Option-cases (by_id id stages)) [
      | inl missing ↦ rw new (rw missing (unknown missing))
      | inr (s, found) ↦ rw new (rw found (enters s found))
    ]
  ]

  module _ (entry : String) where
    -- All that is reached is reachable, and all that is pending would be if it is known.
    record IsSound (pending reached : List String) : Type 0 where
      in_reached : (a : String) → Has a reached → IsReachable entry a
      in_pending : (a : String) → Has a pending → IsKnown a → IsReachable entry a

    Visits-IsSound :
        (id : String) (pending reached : List String) {x : List String × List String}
        → Visits id pending reached x
        → IsSound (id ∷ pending) reached
        → IsSound x.0 x.1
    Visits-IsSound id pending reached (seen old) v = record {
      in_reached = v.in_reached;
      in_pending = λ a h. v.in_pending a (inr h);
    }
    Visits-IsSound id pending reached (unknown missing) v = record {
      in_reached = v.in_reached;
      in_pending = λ a h. v.in_pending a (inr h);
    }
    Visits-IsSound id pending reached (enters s found) v =
        let here : IsReachable entry id = v.in_pending id (inl refl) (s, found) in
        record {
          in_reached = λ a h. elim h [
            | inl e ↦ subst (IsReachable entry) (sym e) here
            | inr old ↦ v.in_reached a old
          ];
          in_pending = λ a h known. elim (push-Has (targets s) pending a h) [
            | inl target ↦ follows here s found target known
            | inr old ↦ v.in_pending a (inr old) known
          ];
        }

    search-IsReachable :
        (fuel : ℕ) (pending reached r : List String)
        → IsSound pending reached
        → search_stages fuel stages pending reached ≡ some r
        → (a : String) → Has a r
        → IsReachable entry a
    unfolding search_stages
    search-IsReachable zero pending reached r v e a h = cc
    search-IsReachable (suc fuel) [] reached r v e a h =
        let same : reached ≡ r = ground (arith, e) in v.in_reached a (subst (Has a) (sym same) h)
    search-IsReachable (suc fuel) (id ∷ pending) reached r v e a h =
        search-IsReachable fuel (visit stages id pending reached).0
          (visit stages id pending reached).1 r
          (Visits-IsSound id pending reached (visit-Visits id pending reached) v) e a h

  -- What a reached stage routes to is reached or pending, if it is known.
  abbrev IsClosed : List String → List String → Type 0
  IsClosed pending reached =
      (a b : String) (s : StageDefinition)
      → Has a reached
      → by_id a stages ≡ some s
      → Has (stage b) (targets s)
      → IsKnown b
      → Has b reached ⊎ Has b pending

  Visits-IsClosed :
      (id : String) (pending reached : List String) {x : List String × List String}
      → Visits id pending reached x
      → IsClosed (id ∷ pending) reached
      → IsClosed x.0 x.1
  Visits-IsClosed id pending reached (seen old) c = λ a b s h e t k. elim (c a b s h e t k) [
    | inl there ↦ inl there
    | inr (inl same) ↦ inl (subst (λ y. Has y reached) (sym same) old)
    | inr (inr later) ↦ inr later
  ]
  Visits-IsClosed id pending reached (unknown missing) c = λ a b s h e t k. elim (c a b s h e t k) [
    | inl there ↦ inl there
    | inr (inl same) ↦
        let there : by_id id stages ≡ some k.0 = ap (λ y. by_id y stages) (sym same) ∙ k.1 in
        absurd (let clash : none ≡ some k.0 = sym missing ∙ there in cc)
    | inr (inr later) ↦ inr later
  ]
  Visits-IsClosed id pending reached (enters s found) c = λ a b t h e target k. elim h [
    | inl same ↦
        let one : some s ≡ some t = sym found ∙ ap (λ y. by_id y stages) (sym same) ∙ e in
        let equal : s ≡ t = cc in
        inr (
          Has-push_right (targets s) pending b
            (subst (λ (x : StageDefinition). Has (stage b) (targets x)) (sym equal) target))
    | inr old ↦ elim (c a b t old e target k) [
      | inl there ↦ inl (inr there)
      | inr (inl top) ↦ inl (inl top)
      | inr (inr later) ↦ inr (Has-push_left (targets s) pending b later)
    ]
  ]

  -- What a visit does not lose: what was reached, and what was pending and is known.
  Visits-covers :
      (id : String) (pending reached : List String) {x : List String × List String}
      → Visits id pending reached x
      → ((a : String) → Has a reached → Has a x.1)
        × ((a : String) → Has a (id ∷ pending) → IsKnown a → Has a x.1 ⊎ Has a x.0)
  Visits-covers id pending reached (seen old) = (
    λ a h. h,
    λ a h k. elim h [
      | inl same ↦ inl (subst (λ y. Has y reached) (sym same) old)
      | inr later ↦ inr later
    ],
  )
  Visits-covers id pending reached (unknown missing) = (
    λ a h. h,
    λ a h k. elim h [
      | inl same ↦
          let there : by_id id stages ≡ some k.0 = ap (λ y. by_id y stages) (sym same) ∙ k.1 in
          absurd (let clash : none ≡ some k.0 = sym missing ∙ there in cc)
      | inr later ↦ inr later
    ],
  )
  Visits-covers id pending reached (enters s found) = (
    λ a h. inr h,
    λ a h k. elim h [
      | inl same ↦ inl (inl same)
      | inr later ↦ inr (Has-push_left (targets s) pending a later)
    ],
  )

  search-IsClosed :
      (fuel : ℕ) (pending reached r : List String)
      → IsClosed pending reached
      → search_stages fuel stages pending reached ≡ some r
      → IsClosed [] r
        × ((a : String) → Has a reached → Has a r)
        × ((a : String) → Has a pending → IsKnown a → Has a r)
  unfolding search_stages
  search-IsClosed zero pending reached r c e = cc
  search-IsClosed (suc fuel) [] reached r c e =
      let same : reached ≡ r = ground (arith, e) in
      (subst (IsClosed []) same c, λ a h. subst (Has a) same h, λ a h k. absurd h)
  search-IsClosed (suc fuel) (id ∷ pending) reached r c e =
      let x : List String × List String = visit stages id pending reached in
      let v = visit-Visits id pending reached in
      let (kept, moved) = Visits-covers id pending reached v in
      let (closed, old, later) =
        search-IsClosed fuel x.0 x.1 r (Visits-IsClosed id pending reached v c) e in
      (
        closed,
        λ a h. old a (kept a h),
        λ a h k. elim (moved a h k) [ inl there ↦ old a there | inr waits ↦ later a waits k ],
      )

  IsClosed-covers :
      (entry : String) (r : List String)
      → IsClosed [] r
      → (IsKnown entry → Has entry r)
      → (a : String) → IsReachable entry a
      → Has a r
  IsClosed-covers entry r c first a (starts same known) =
      subst (λ y. Has y r) (sym same) (first (subst IsKnown same known))
  IsClosed-covers entry r c first a (follows {a = b} path s found target known) =
      elim (c b a s (IsClosed-covers entry r c first b path) found target known) [
        | inl there ↦ there
        | inr nothing ↦ absurd nothing
      ]

pub unseen_all : (ss : List StageDefinition) → unseen ss [] ≡ count_targets ss
unfolding unseen count_targets
unseen_all [] = refl
unseen_all (s ∷ ss) = ap (λ n. length (targets s) + n) (unseen_all ss)

-- The loop ends within its fuel, with exactly the stages that a path of routes through the definition's
-- stages leads to from the entry.
pub reachable_stage_ids_exact :
    (w : WorkflowDefinition)
    → (r : List String) × (reachable_stage_ids w ≡ some r)
      × ((a : String) → Has a r ↔ IsReachable w.stages w.entry_stage a)
unfolding reachable_stage_ids
reachable_stage_ids_exact w =
    let (r, e) =
      search_total w.stages (count_targets w.stages + 2) (w.entry_stage ∷ []) []
        (omega (arith, unseen_all w.stages)) in
    let (closed, _, covered) =
      search-IsClosed w.stages (count_targets w.stages + 2) (w.entry_stage ∷ []) [] r
        (λ a b s h. absurd h) e in
    (
      r,
      e,
      λ a. (
        search-IsReachable w.stages w.entry_stage (count_targets w.stages + 2) (w.entry_stage ∷ [])
            [] r
            (record {
              in_reached = λ b h. absurd h;
              in_pending = λ b h known. elim h [
                | inl same ↦ starts same known
                | inr nothing ↦ absurd nothing
              ];
            })
            e a,
        IsClosed-covers w.stages w.entry_stage r closed
            (λ known. covered w.entry_stage (inl refl) known) a,
      ),
    )
