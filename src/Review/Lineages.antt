-- ===== src/Review/Lineages.antt =====
-- The versions of a proposal through the calls of ReviewService (services/review.py).
use mathlib.Core.Path.{subst}
use lineage_collection.Prelude.{
  ℕ, ◌≤◌, ◌<◌, String, true, false, ◌≡◌, ◌≢◌, ◌⊎◌, refl, sym, ap, ◌∙◌, inl, inr, List, [], ◌∷◌,
  ◌++◌, leb, any, update, set_if, Has, AllRows, AllRows-update, AllRows-append, UniqueBy,
  UniqueBy-update, UniqueBy-append, update-Has, Has-update, append-Has, Has-append_left,
  Has-append_right, select-Has, any-false, arith, Bool-cases, eq_iff,
}
use lineage_collection.Domain.Proposals.{ProposalState, superseded, may_move, allowed_transitions}
use lineage_collection.Review.{
  Proposal, ProposalRow, ReviewTables, version_of, row_of, locked_at, overwritten,
}
use lineage_collection.Review.Decisions.{Setup}
use lineage_collection.Review.Effects.{Moves, Write, keeps, creates, writes, corrects}
use lineage_collection.Review.History.{Call, run, run-keeps}

abbrev row_key : ProposalRow → String × ℕ
row_key r = (r.proposal_id, r.version)

-- Rows have their keys, and columns that agree with what they hold; the versions of a proposal start at
-- 1, and all but the last one are superseded.
pub record IsReviewed (rows : List ProposalRow) : Type 0 where
  pub keys : UniqueBy row_key rows
  pub agrees :
      AllRows (λ r. (r.state ≡ r.payload.state) × (r.lock_version ≡ r.payload.lock_version)) rows
  pub positive : AllRows (λ r. 1 ≤ r.version) rows
  pub first :
      (b : ProposalRow)
      → Has b rows
      → (a : ProposalRow) × Has a rows × (a.proposal_id ≡ b.proposal_id) × (a.version ≡ 1)
  pub older :
      (a b : ProposalRow)
      → Has a rows
      → Has b rows
      → a.proposal_id ≡ b.proposal_id
      → a.version < b.version
      → a.state ≡ superseded

superseded_stays : (s : ProposalState) → may_move superseded s ≡ false
unfolding may_move allowed_transitions
superseded_stays s = refl

version_of_ok :
    (id : String) (version : ℕ) (r : ProposalRow)
    → version_of id version r ≡ true
    → (r.proposal_id ≡ id) × (r.version ≡ version)
version_of_ok id version r h = (ground (arith, h, eq_iff r.proposal_id id), ground (arith, h))

leb_cases : (a b : ℕ) → (a ≤ b) ⊎ (b < a)
leb_cases a b = elim (Bool-cases (leb a b)) [
  | inl h ↦ inl (ground arith)
  | inr h ↦ inr (ground arith)
]

module _ (rows : List ProposalRow) (valid : IsReviewed rows) (id : String) (version lock : ℕ)
    (q : Proposal) (m : Moves rows id version lock q) where
  -- The row that moves is not superseded.
  moving : m.row.state ≢ superseded
  moving h =
      let (hr, _) = select-Has (version_of id version) rows m.found in
      let payload : m.row.payload.state ≡ superseded = sym (valid.agrees m.row hr).0 ∙ h in
      let refused : may_move m.row.payload.state q.state ≡ false =
        ap (λ s. may_move s q.state) payload ∙ superseded_stays q.state in
      ground (arith, refused, m.moves)

  -- The row that an UPDATE hits is the row found.
  hit_found : (r : ProposalRow) → Has r rows → locked_at id version lock r ≡ true → r ≡ m.row
  hit_found r h hit =
      let (hf, fv) = select-Has (version_of id version) rows m.found in
      let (ri, rv) = version_of_ok id version r (ground (arith, hit)) in
      let (fi, fv') = version_of_ok id version m.row fv in
      valid.keys r m.row h hf (ground (arith, ri, rv, fi, fv'))

  -- No version of the proposal is greater.
  top : (b : ProposalRow) → Has b rows → b.proposal_id ≡ id → b.version ≤ version
  top b h at =
      let (hf, fv) = select-Has (version_of id version) rows m.found in
      let (fi, fv') = version_of_ok id version m.row fv in
      elim (leb_cases b.version version) [
        | inl le ↦ le
        | inr gt ↦ absurd (moving (valid.older m.row b hf h (fi ∙ sym at) (omega (arith, fv', gt))))
      ]

  abbrev updated : List ProposalRow
  updated = update (locked_at id version lock) (overwritten q) rows

  -- A superseded row stays as it is.
  stays :
      (a a' : ProposalRow)
      → Has a rows
      → a.state ≡ superseded
      → a' ≡ set_if (locked_at id version lock) (overwritten q) a
      → a' ≡ a
  stays a a' h old e = elim (Bool-cases (locked_at id version lock a)) [
    | inl hit ↦ absurd (moving (ap (λ (r : ProposalRow). r.state) (sym (hit_found a h hit)) ∙ old))
    | inr miss ↦ e ∙ (rw miss refl)
  ]

  same_key :
      (a a' : ProposalRow)
      → a' ≡ set_if (locked_at id version lock) (overwritten q) a
      → (a'.proposal_id ≡ a.proposal_id) × (a'.version ≡ a.version)
  same_key a a' e = elim (Bool-cases (locked_at id version lock a)) [
    | inl hit ↦
        let became : a' ≡ overwritten q a = e ∙ (rw hit refl) in
        (ap (λ (r : ProposalRow). r.proposal_id) became, ap (λ (r : ProposalRow). r.version) became)
    | inr miss ↦
        let stayed : a' ≡ a = e ∙ (rw miss refl) in
        (ap (λ (r : ProposalRow). r.proposal_id) stayed, ap (λ (r : ProposalRow). r.version) stayed)
  ]

  updated-IsReviewed : IsReviewed updated
  updated-IsReviewed = record {
    keys =
        UniqueBy-update row_key (locked_at id version lock) (overwritten q) rows (λ r. refl)
          valid.keys;
    agrees =
        AllRows-update
          (λ r. (r.state ≡ r.payload.state) × (r.lock_version ≡ r.payload.lock_version))
          (locked_at id version lock) (overwritten q) rows (λ r _ _ _. (refl, refl)) valid.agrees;
    positive =
        AllRows-update (λ r. 1 ≤ r.version) (locked_at id version lock) (overwritten q) rows
          (λ r _ le _. le) valid.positive;
    first = λ b' hb.
        let (b, hb0, be) = update-Has (locked_at id version lock) (overwritten q) rows b' hb in
        let (a, ha, same, one) = valid.first b hb0 in
        let a' : ProposalRow = set_if (locked_at id version lock) (overwritten q) a in
        let ka = same_key a a' refl in
        let kb = same_key b b' be in
        (
          a',
          Has-update (locked_at id version lock) (overwritten q) rows a ha,
          ka.0 ∙ same ∙ sym kb.0,
          ka.1 ∙ one,
        );
    older = λ a' b' ha hb same lt.
        let (a, ha0, ae) = update-Has (locked_at id version lock) (overwritten q) rows a' ha in
        let (b, hb0, be) = update-Has (locked_at id version lock) (overwritten q) rows b' hb in
        let ka = same_key a a' ae in
        let kb = same_key b b' be in
        let old : a.state ≡ superseded =
          valid.older a b ha0 hb0 (sym ka.0 ∙ same ∙ kb.0) (omega (arith, ka.1, kb.1, lt)) in
        ap (λ (r : ProposalRow). r.state) (stays a a' ha0 old ae) ∙ old;
  }

  -- After a correction the version that was replaced is superseded.
  replaced_row :
      m.row.lock_version ≡ lock
      → q.state ≡ superseded
      → (a' : ProposalRow) → Has a' updated
      → a'.proposal_id ≡ id
      → a'.version ≡ version
      → a'.state ≡ superseded
  replaced_row at is a' ha' ai av =
      let (hf, fv) = select-Has (version_of id version) rows m.found in
      let (fi, fv') = version_of_ok id version m.row fv in
      let b' : ProposalRow = overwritten q m.row in
      let hit : locked_at id version lock m.row ≡ true = ground (arith, fv, at) in
      let hb : Has b' updated =
        subst (λ r. Has r updated)
          (let e : set_if (locked_at id version lock) (overwritten q) m.row ≡ b' = rw hit refl in e)
          (Has-update (locked_at id version lock) (overwritten q) rows m.row hf) in
      let same : a' ≡ b' = updated-IsReviewed.keys a' b' ha' hb (ground (arith, ai, av, fi, fv')) in
      ap (λ (r : ProposalRow). r.state) same ∙ is

added-IsReviewed :
    (rows : List ProposalRow) (s : Proposal)
    → IsReviewed rows
    → any (version_of s.proposal_id s.version) rows ≡ false
    → 1 ≤ s.version
    → ((s.version ≡ 1)
        ⊎ ((a : ProposalRow) × Has a rows × (a.proposal_id ≡ s.proposal_id) × (a.version ≡ 1)))
    → ((a : ProposalRow)
        → Has a rows
        → a.proposal_id ≡ s.proposal_id
        → (a.version < s.version) × (a.state ≡ superseded))
    → IsReviewed (rows ++ row_of s ∷ [])
added-IsReviewed rows s v fresh pos start others = record {
  keys =
      UniqueBy-append row_key rows (row_of s)
        (λ r hr e. other r (any-false (version_of s.proposal_id s.version) rows fresh r hr) e)
        v.keys;
  agrees =
      AllRows-append (λ r. (r.state ≡ r.payload.state) × (r.lock_version ≡ r.payload.lock_version))
        rows (row_of s) v.agrees (refl, refl);
  positive = AllRows-append (λ r. 1 ≤ r.version) rows (row_of s) v.positive pos;
  first = λ b hb. from_first b (append-Has rows (row_of s ∷ []) b hb);
  older = λ a b ha hb same lt.
      below a b (append-Has rows (row_of s ∷ []) a ha) (append-Has rows (row_of s ∷ []) b hb) same
        lt;
}
  where
    other :
        (r : ProposalRow)
        → version_of s.proposal_id s.version r ≡ false
        → row_key r ≢ row_key (row_of s)
    other r miss e = ground (
      arith,
      miss,
      ap (λ (k : String × ℕ). k.0) e,
      ap (λ (k : String × ℕ). k.1) e,
      eq_iff r.proposal_id s.proposal_id,
    )

    from_first :
        (b : ProposalRow)
        → Has b rows ⊎ Has b (row_of s ∷ [])
        → (a : ProposalRow) × Has a (rows ++ row_of s ∷ [])
          × (a.proposal_id ≡ b.proposal_id)
          × (a.version ≡ 1)
    from_first b (inl old) =
        let (a, ha, same, one) = v.first b old in
        (a, Has-append_left rows (row_of s ∷ []) a ha, same, one)
    from_first b (inr (inr nothing)) = absurd nothing
    from_first b (inr (inl new)) = elim start [
      | inl one ↦ (
        row_of s,
        Has-append_right rows (row_of s ∷ []) (row_of s) (inl refl),
        ap (λ (r : ProposalRow). r.proposal_id) (sym new),
        one,
      )
      | inr (a, ha, same, one) ↦ (
        a,
        Has-append_left rows (row_of s ∷ []) a ha,
        same ∙ ap (λ (r : ProposalRow). r.proposal_id) (sym new),
        one,
      )
    ]

    below :
        (a b : ProposalRow)
        → Has a rows ⊎ Has a (row_of s ∷ [])
        → Has b rows ⊎ Has b (row_of s ∷ [])
        → a.proposal_id ≡ b.proposal_id
        → a.version < b.version
        → a.state ≡ superseded
    below a b (inl oa) (inl ob) same lt = v.older a b oa ob same lt
    below a b (inl oa) (inr (inl new)) same lt =
        (others a oa (same ∙ ap (λ (r : ProposalRow). r.proposal_id) new)).1
    below a b (inl oa) (inr (inr nothing)) same lt = absurd nothing
    below a b (inr (inr nothing)) hb same lt = absurd nothing
    below a b (inr (inl new)) (inl ob) same lt =
        let (under, _) = others b ob (sym same ∙ ap (λ (r : ProposalRow). r.proposal_id) new) in
        let at : a.version ≡ s.version = ap (λ (r : ProposalRow). r.version) new in
        absurd (omega (arith, under, at, lt))
    below a b (inr (inl new)) (inr (inl new')) same lt =
        let x : a.version ≡ s.version = ap (λ (r : ProposalRow). r.version) new in
        let y : b.version ≡ s.version = ap (λ (r : ProposalRow). r.version) new' in
        absurd (omega (arith, x, y, lt))
    below a b (inr (inl new)) (inr (inr nothing)) same lt = absurd nothing

Write-IsReviewed :
    (rows rows' : List ProposalRow) → Write rows rows' → IsReviewed rows → IsReviewed rows'
Write-IsReviewed rows rows' (keeps e) v = rw e v
Write-IsReviewed rows rows' (writes id version lock q m e) v =
    rw e (updated-IsReviewed rows v id version lock q m)
Write-IsReviewed rows rows' (creates p one is fresh e) v = rw e (
    added-IsReviewed rows p v fresh (omega (arith, one)) (inl one) λ a ha same.
      let (b, hb, same', at) = v.first a ha in
      let miss = any-false (version_of p.proposal_id p.version) rows fresh b hb in
      absurd (ground (arith, miss, at, one, same' ∙ same, eq_iff b.proposal_id p.proposal_id)))
Write-IsReviewed rows rows' (corrects id version lock q s m at is si sv ss fresh e) v =
    let u = updated-IsReviewed rows v id version lock q m in
    let rows1 : List ProposalRow = update (locked_at id version lock) (overwritten q) rows in
    let (hf, fv) = select-Has (version_of id version) rows m.found in
    let (fi, fv') = version_of_ok id version m.row fv in
    let b' : ProposalRow = set_if (locked_at id version lock) (overwritten q) m.row in
    let hb : Has b' rows1 = Has-update (locked_at id version lock) (overwritten q) rows m.row hf in
    let kb = same_key rows v id version lock q m m.row b' refl in
    let (a, ha, same, one) = u.first b' hb in
    rw e (
      added-IsReviewed rows1 s u fresh (omega (arith, sv))
        (inr (a, ha, same ∙ kb.0 ∙ fi ∙ sym si, one))
        λ x' hx at'.
          let (x, hx0, xe) = update-Has (locked_at id version lock) (overwritten q) rows x' hx in
          let kx = same_key rows v id version lock q m x x' xe in
          let le : x.version ≤ version =
            top rows v id version lock q m x hx0 (sym kx.0 ∙ at' ∙ si) in
          (
            omega (arith, le, kx.1, sv),
            elim (leb_cases version x'.version) [
              | inl ge ↦
                  replaced_row rows v id version lock q m at is x' hx (at' ∙ si)
                    (omega (arith, le, ge, kx.1))
              | inr lt ↦
                  u.older x' b' hx hb (at' ∙ si ∙ sym (kb.0 ∙ fi)) (omega (arith, lt, kb.1, fv'))
            ],
          ))

-- In every history of calls from no proposals, two versions of a proposal that are not superseded are
-- one row: a correction leaves a single version that can still be decided.
pub one_open_version :
    (setup : Setup) (t : ReviewTables) (cs : List Call) (a b : ProposalRow)
    → t.proposals ≡ []
    → Has a (run setup t cs).proposals
    → Has b (run setup t cs).proposals
    → a.proposal_id ≡ b.proposal_id
    → a.state ≢ superseded
    → b.state ≢ superseded
    → a ≡ b
one_open_version setup t cs a b start ha hb same oa ob =
    let v = run-keeps setup IsReviewed Write-IsReviewed t cs (rw start no_rows) in
    elim (leb_cases a.version b.version) [
      | inr lt ↦ absurd (ob (v.older b a hb ha (sym same) lt))
      | inl le ↦ elim (leb_cases b.version a.version) [
        | inr lt ↦ absurd (oa (v.older a b ha hb same lt))
        | inl ge ↦ v.keys a b ha hb (ground (arith, same, le, ge))
      ]
    ]
  where
    no_rows : IsReviewed []
    no_rows = record {
      keys = λ x y hx hy e. absurd hx;
      agrees = λ x hx. absurd hx;
      positive = λ x hx. absurd hx;
      first = λ x hx. absurd hx;
      older = λ x y hx hy e lt. absurd hx;
    }
