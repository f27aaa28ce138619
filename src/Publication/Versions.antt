-- ===== src/Publication/Versions.antt =====
-- The graph versions of an environment and its pointer, through the calls of PublisherService
-- (services/publisher.py).
use lineage_collection.Prelude.{
  ℕ, String, Bool, true, false, ◌&&◌, ◌≡◌, ◌≢◌, ◌⊎◌, refl, sym, ap, ◌∙◌, inl, inr, List, [], ◌∷◌,
  ◌++◌, ◌==◌, any, update, set_if, Has, UniqueBy, UniqueBy-update, UniqueBy-append, update-Has,
  append-Has, any-false, arith, Bool-cases, eq_iff,
}
use mathlib.Core.Path.{subst}
use lineage_collection.Publication.Tables.{
  Pointer, staging, active, prior, VersionState, GraphVersion, GraphTables,
}
use lineage_collection.Publication.{pointer_of, version_at, is_active, retire_active, move_pointer}
use lineage_collection.Publication.Writes.{
  Write, keeps, reserves, adds, discards, moves, rolls_back, Writes-keep, activated_version,
  with_state, switched,
}
use lineage_collection.Publication.History.{Setup, Call, run, history-Writes}

abbrev version_key : GraphVersion → String × String
version_key g = (g.env, g.version)

-- The versions and pointers of the tables: keys are unique, an environment has at most one active
-- version, and its pointer, where it has one, names it.
pub record Serves (versions : List GraphVersion) (pointers : List Pointer) : Type 0 where
  pub keys : UniqueBy version_key versions
  pub one_active :
      (a b : GraphVersion)
      → Has a versions
      → Has b versions
      → a.env ≡ b.env
      → a.state ≡ active
      → b.state ≡ active
      → a ≡ b
  pub pointed :
      (g : GraphVersion) (p : Pointer)
      → Has g versions
      → Has p pointers
      → p.env ≡ g.env
      → g.state ≡ active
      → p.active_version ≡ g.version

abbrev in_force : String → GraphVersion → Bool
in_force env g = g.env == env && is_active g.state

switched_row :
    (env version : String) (test : GraphVersion → Bool) (x y r : GraphVersion)
    → (test y ≡ true → version_at env version y ≡ true)
    → y ≡ set_if (in_force env) (with_state prior) x
    → r ≡ set_if test activated_version y
    → r.state ≡ active
    → ((r.env ≡ env) × (r.version ≡ version)) ⊎ ((r ≡ x) × (r.env ≢ env))
switched_row env version test x y r hits yx ry is = elim (Bool-cases (test y)) [
  | inl hit ↦
      let at : version_at env version y ≡ true = hits hit in
      let same : r ≡ activated_version y = ry ∙ (rw hit refl) in
      inl (
        ap (λ (g : GraphVersion). g.env) same ∙ (ground (arith, at, eq_iff y.env env)),
        ap (λ (g : GraphVersion). g.version) same ∙ (ground (arith, at, eq_iff y.version version)),
      )
  | inr miss ↦
      let same : r ≡ y = ry ∙ (rw miss refl) in
      let y_active : y.state ≡ active = sym (ap (λ (g : GraphVersion). g.state) same) ∙ is in
      elim (Bool-cases (in_force env x)) [
        | inl retired ↦
            let became : y ≡ with_state prior x = yx ∙ (rw retired refl) in
            let state : y.state ≡ prior = ap (λ (g : GraphVersion). g.state) became in
            absurd (let clash : prior ≡ active = sym state ∙ y_active in cc)
        | inr kept ↦
            let stayed : y ≡ x = yx ∙ (rw kept refl) in
            let x_active : x.state ≡ active =
              sym (ap (λ (g : GraphVersion). g.state) stayed) ∙ y_active in
            inr (
              same ∙ stayed,
              λ at.
                  let here : x.env ≡ env =
                    sym (ap (λ (g : GraphVersion). g.env) (same ∙ stayed)) ∙ at in
                  absurd (ground (arith, kept, x_active, here, eq_iff x.env env)),
            )
      ]
]

-- An active row after the switch is the version that was made active, or stands in another environment.
switched-active :
    (env version : String) (test : GraphVersion → Bool) (t : GraphTables) (r : GraphVersion)
    → ((g : GraphVersion) → test g ≡ true → version_at env version g ≡ true)
    → Has r (switched test env t)
    → r.state ≡ active
    → ((r.env ≡ env) × (r.version ≡ version)) ⊎ (Has r t.versions × (r.env ≢ env))
unfolding retire_active
switched-active env version test t r hits h is =
    let (y, hy, ry) = update-Has test activated_version (retire_active env t).versions r h in
    let (x, hx, yx) = update-Has (in_force env) (with_state prior) t.versions y hy in
    elim (switched_row env version test x y r (hits y) yx ry is) [
      | inl now ↦ inl now
      | inr (same, other) ↦ inr (subst (λ g. Has g t.versions) (sym same) hx, other)
    ]

moved_pointer :
    (env version : String) (p q : Pointer) (f : Pointer → Pointer)
    → ((f p).env ≡ p.env) × ((f p).active_version ≡ version)
    → q ≡ set_if (pointer_of env) f p
    → (q.env ≡ env → q.active_version ≡ version) × (q.env ≢ env → q ≡ p)
moved_pointer env version p q f (e, v) same = elim (Bool-cases (pointer_of env p)) [
  | inl hit ↦
      let became : q ≡ f p = same ∙ (rw hit refl) in
      (
        λ _. ap (λ (x : Pointer). x.active_version) became ∙ v,
        λ other. absurd (other (ap (λ (x : Pointer). x.env) became ∙ e ∙ (eq_iff p.env env).0 hit)),
      )
  | inr miss ↦
      let stayed : q ≡ p = same ∙ (rw miss refl) in
      (
        λ here. absurd (
            ground
              (arith, miss, sym (ap (λ (x : Pointer). x.env) stayed) ∙ here, eq_iff p.env env)),
        λ _. stayed,
      )
]

switched-keys :
    (env : String) (test : GraphVersion → Bool) (t : GraphTables)
    → UniqueBy version_key t.versions
    → UniqueBy version_key (switched test env t)
unfolding retire_active
switched-keys env test t keys =
    UniqueBy-update version_key test activated_version (retire_active env t).versions (λ g. refl)
      (UniqueBy-update version_key (in_force env) (with_state prior) t.versions (λ g. refl) keys)

switched-Serves :
    (env version : String) (token now : ℕ) (test : GraphVersion → Bool) (t : GraphTables)
    → ((g : GraphVersion) → test g ≡ true → version_at env version g ≡ true)
    → Serves t.versions t.pointers
    → Serves (switched test env t) (move_pointer env version token now t).pointers
switched-Serves env version token now test t hits s = record {
  keys = switched-keys env test t s.keys;
  one_active = λ a b ha hb same a_is b_is.
      both a b ha hb same (switched-active env version test t a hits ha a_is)
        (switched-active env version test t b hits hb b_is) a_is b_is;
  pointed =
      λ g p hg hp same is. points g p hp same (switched-active env version test t g hits hg is) is;
}
  where
    both :
        (a b : GraphVersion)
        → Has a (switched test env t)
        → Has b (switched test env t)
        → a.env ≡ b.env
        → ((a.env ≡ env) × (a.version ≡ version)) ⊎ (Has a t.versions × (a.env ≢ env))
        → ((b.env ≡ env) × (b.version ≡ version)) ⊎ (Has b t.versions × (b.env ≢ env))
        → a.state ≡ active
        → b.state ≡ active
        → a ≡ b
    both a b ha hb same (inl (ae, av)) (inl (be, bv)) x y =
        switched-keys env test t s.keys a b ha hb (ground (arith, ae, be, av, bv))
    both a b ha hb same (inl (ae, av)) (inr (ob, be)) x y = absurd (be (sym same ∙ ae))
    both a b ha hb same (inr (oa, ae)) (inl (be, bv)) x y = absurd (ae (same ∙ be))
    both a b ha hb same (inr (oa, ae)) (inr (ob, be)) x y = s.one_active a b oa ob same x y

    points :
        (g : GraphVersion) (p : Pointer)
        → Has p (move_pointer env version token now t).pointers
        → p.env ≡ g.env
        → ((g.env ≡ env) × (g.version ≡ version)) ⊎ (Has g t.versions × (g.env ≢ env))
        → g.state ≡ active
        → p.active_version ≡ g.version
    points g p hp same at is =
        unfold move_pointer in
        let f : Pointer → Pointer =
          λ q. record q { active_version = version; fencing_token = token; updated_at = now } in
        let (q, hq, pq) = update-Has (pointer_of env) f t.pointers p hp in
        let moved = moved_pointer env version q p f (refl, refl) pq in
        elim at [
          | inl (ge, gv) ↦ moved.0 (same ∙ ge) ∙ sym gv
          | inr (og, ge) ↦
              let stayed : p ≡ q = moved.1 (λ x. ge (sym same ∙ x)) in
              ap (λ (x : Pointer). x.active_version) stayed
              ∙ s.pointed g q og hq (sym (ap (λ (x : Pointer). x.env) stayed) ∙ same) is
        ]

-- A new version is not active, and its key is fresh.
added-Serves :
    (g : GraphVersion) (versions : List GraphVersion) (pointers : List Pointer)
    → g.state ≡ staging
    → any (version_at g.env g.version) versions ≡ false
    → Serves versions pointers
    → Serves (versions ++ g ∷ []) pointers
added-Serves g versions pointers is fresh s = record {
  keys =
      UniqueBy-append version_key versions g
        (λ x hx e. other x (any-false (version_at g.env g.version) versions fresh x hx) e) s.keys;
  one_active = λ a b ha hb same a_is b_is.
      s.one_active a b (old a a_is (append-Has versions (g ∷ []) a ha))
        (old b b_is (append-Has versions (g ∷ []) b hb)) same a_is b_is;
  pointed = λ x p hx hp same x_is.
      s.pointed x p (old x x_is (append-Has versions (g ∷ []) x hx)) hp same x_is;
}
  where
    other :
        (x : GraphVersion) → version_at g.env g.version x ≡ false → version_key x ≢ version_key g
    other x miss e = ground (
      arith,
      miss,
      ap (λ (k : String × String). k.0) e,
      ap (λ (k : String × String). k.1) e,
      eq_iff x.env g.env,
      eq_iff x.version g.version,
    )

    old : (x : GraphVersion) → x.state ≡ active → Has x versions ⊎ Has x (g ∷ []) → Has x versions
    old x x_is (inl h) = h
    old x x_is (inr (inl e)) = absurd (
        let clash : staging ≡ active = sym is ∙ sym (ap (λ (y : GraphVersion). y.state) e) ∙ x_is in
        cc)
    old x x_is (inr (inr h)) = absurd h

discarded-Serves :
    (test : GraphVersion → Bool) (versions : List GraphVersion) (pointers : List Pointer)
    → Serves versions pointers
    → Serves (update test (with_state VersionState.discarded) versions) pointers
discarded-Serves test versions pointers s = record {
  keys =
      UniqueBy-update version_key test (with_state VersionState.discarded) versions (λ g. refl)
        s.keys;
  one_active =
      λ a b ha hb same a_is b_is. s.one_active a b (old a a_is ha) (old b b_is hb) same a_is b_is;
  pointed = λ x p hx hp same x_is. s.pointed x p (old x x_is hx) hp same x_is;
}
  where
    old :
        (x : GraphVersion)
        → x.state ≡ active
        → Has x (update test (with_state VersionState.discarded) versions)
        → Has x versions
    old x x_is h =
        let (y, hy, e) = update-Has test (with_state VersionState.discarded) versions x h in
        elim (Bool-cases (test y)) [
          | inl hit ↦
              let became : x ≡ with_state VersionState.discarded y = e ∙ (rw hit refl) in
              absurd (
                let clash : VersionState.discarded ≡ active =
                  sym (ap (λ (g : GraphVersion). g.state) became) ∙ x_is in
                cc)
          | inr miss ↦ subst (λ g. Has g versions) (sym (e ∙ (rw miss refl))) hy
        ]

Write-Serves :
    {free : Bool} (t u : GraphTables)
    → Write free t u
    → Serves t.versions t.pointers
    → Serves u.versions u.pointers
Write-Serves t u (keeps p r v) s = rw (p, v) s
Write-Serves t u (reserves env expected now old found p r v) s = rw (p, v) s
Write-Serves t u (adds g is fresh p r v) s =
    rw (p, v) (added-Serves g t.versions t.pointers is fresh s)
Write-Serves t u (discards test p r v) s = rw (p, v) (discarded-Serves test t.versions t.pointers s)
Write-Serves t u (moves source env version token now test f hits owns p r v) s =
    rw (p, v) (switched-Serves env version token now test t hits s)
Write-Serves t u (rolls_back env version token now f p r v) s =
    rw (p, v) (switched-Serves env version token now (version_at env version) t (λ g h. h) s)

-- From tables where version keys are unique, an environment has at most one active version and its
-- pointer names that version, every history of calls, interrupted publications and rollbacks included,
-- leads to tables where the same holds.
pub run-Serves :
    (setup : Setup) (t : GraphTables) (cs : List Call)
    → Serves t.versions t.pointers
    → Serves (run setup t cs).versions (run setup t cs).pointers
run-Serves setup t cs s =
    Writes-keep (λ u. Serves u.versions u.pointers) Write-Serves (history-Writes setup t cs) s
