-- ===== src/Prelude/Rows.antt =====
-- A table is the list of its rows, in the order of insertion. `select` is a SELECT that is
-- fetched once, `update` an UPDATE and `matching` its row count.
use Prim.Native.Nat.{ℕ, zero, suc}
use mathlib.Core.Path.{◌≡◌, refl, ap, sym, ◌∙◌}
use mathlib.Core.Logic.{◌≢◌, ◌⊎◌, inl, inr}
use mathlib.Core.Bool.{Bool, true, false}
use mathlib.Core.Option
use mathlib.Core.Option.{Option, none, some}
use mathlib.Core.List.{List, [], ◌∷◌, ◌++◌}
use native.Mathlib.Omega.{arith}
use lineage_collection.Prelude.Lists.{any, take}
use lineage_collection.Prelude.Tests.{if◌then◌else◌, Bool-cases, Option-cases}

module _ {ℓ} {A : Type ℓ} where
  unfoldable pub select : (A → Bool) → List A → Option A
  select p [] = none
  select p (r ∷ rs) = if p r then some r else select p rs

  unfoldable pub select_all : (A → Bool) → List A → List A
  select_all p [] = []
  select_all p (r ∷ rs) = if p r then r ∷ select_all p rs else select_all p rs

  abbrev pub set_if : (A → Bool) → (A → A) → A → A
  set_if p f r = if p r then f r else r

  unfoldable pub update : (A → Bool) → (A → A) → List A → List A
  update p f [] = []
  update p f (r ∷ rs) = set_if p f r ∷ update p f rs

  unfoldable pub matching : (A → Bool) → List A → ℕ
  matching p [] = 0
  matching p (r ∷ rs) = if p r then suc (matching p rs) else matching p rs

-- Rows are records of texts and numbers, so that membership lies in `Type 0`, beside `⊥`.
module _ {A : Type 0} where
  -- `r` is a row of the table.
  abbrev pub Has : A → List A → Type 0
  Has r [] = ⊥
  Has r (x ∷ xs) = (r ≡ x) ⊎ Has r xs

  pub select-Has :
      (p : A → Bool) (rs : List A) {r : A} → select p rs ≡ some r → Has r rs × (p r ≡ true)
  unfolding select
  select-Has p [] e = cc
  select-Has p (x ∷ rs) {r} e = ground (arith, select-Has p rs {r = r})

  -- A row that satisfies the condition is found, or another one.
  pub select-ne-none :
      (p : A → Bool) (rs : List A) (r : A) → Has r rs → p r ≡ true → select p rs ≢ none
  unfolding select
  select-ne-none p [] r h e = absurd h
  select-ne-none p (x ∷ rs) r h e = ground (arith, select-ne-none p rs r)

  pub select-none :
      (p : A → Bool) (rs : List A) (r : A) → select p rs ≡ none → Has r rs → p r ≡ false
  unfolding select
  select-none p [] r e h = absurd h
  select-none p (x ∷ rs) r e h = ground (arith, select-none p rs r)

  pub select_all-Has :
      (p : A → Bool) (rs : List A) (r : A) → Has r (select_all p rs) → Has r rs × (p r ≡ true)
  unfolding select_all
  select_all-Has p [] r h = absurd h
  select_all-Has p (x ∷ rs) r h = ground (arith, select_all-Has p rs r)

  pub Has-select_all :
      (p : A → Bool) (rs : List A) (r : A) → Has r rs → p r ≡ true → Has r (select_all p rs)
  unfolding select_all
  Has-select_all p [] r h e = absurd h
  Has-select_all p (x ∷ rs) r h e = ground (arith, Has-select_all p rs r)

  -- Every row after an UPDATE comes from a row before it.
  pub update-Has :
      (p : A → Bool) (f : A → A) (rs : List A) (r : A)
      → Has r (update p f rs)
      → (x : A) × Has x rs × (r ≡ set_if p f x)
  unfolding update
  update-Has p f [] r h = absurd h
  update-Has p f (x ∷ rs) r (inl e) = (x, inl refl, e)
  update-Has p f (x ∷ rs) r (inr h) = let (y, m, e) = update-Has p f rs r h in (y, inr m, e)

  pub Has-update :
      (p : A → Bool) (f : A → A) (rs : List A) (r : A)
      → Has r rs
      → Has (set_if p f r) (update p f rs)
  unfolding update
  Has-update p f [] r h = absurd h
  Has-update p f (x ∷ rs) r (inl e) = inl (ap (set_if p f) e)
  Has-update p f (x ∷ rs) r (inr h) = inr (Has-update p f rs r h)

  pub append-Has : (xs ys : List A) (r : A) → Has r (xs ++ ys) → Has r xs ⊎ Has r ys
  append-Has [] ys r h = inr h
  append-Has (x ∷ xs) ys r h = ground (arith, append-Has xs ys r)

  pub Has-append_left : (xs ys : List A) (r : A) → Has r xs → Has r (xs ++ ys)
  Has-append_left [] ys r h = absurd h
  Has-append_left (x ∷ xs) ys r h = ground (arith, Has-append_left xs ys r)

  pub Has-append_right : (xs ys : List A) (r : A) → Has r ys → Has r (xs ++ ys)
  Has-append_right [] ys r h = h
  Has-append_right (x ∷ xs) ys r h = inr (Has-append_right xs ys r h)

  -- A SELECT by a condition that the UPDATE leaves alone finds the updated row.
  pub select-update :
      (q p : A → Bool) (f : A → A) (rs : List A)
      → ((r : A) → q (set_if p f r) ≡ q r)
      → select q (update p f rs) ≡ Option.map (set_if p f) (select q rs)
  unfolding select update
  select-update q p f [] h = refl
  select-update q p f (x ∷ rs) h = rw (h x) (elim (Bool-cases (q x)) [
    | inl hit ↦ rw (hit, Option.map)
    | inr miss ↦ rw miss (select-update q p f rs h)
  ])

  pub select-append :
      (q : A → Bool) (rs : List A) (r : A)
      → select q rs ≡ none
      → select q (rs ++ r ∷ []) ≡ (if q r then some r else none)
  unfolding select
  select-append q [] r e = refl
  select-append q (x ∷ rs) r e = ground (arith, select-append q rs r)

  -- An UPDATE that matches no row changes nothing.
  pub update-matching_zero :
      (p : A → Bool) (f : A → A) (rs : List A) → matching p rs ≡ 0 → update p f rs ≡ rs
  unfolding update matching
  update-matching_zero p f [] e = refl
  update-matching_zero p f (x ∷ rs) e = ground (arith, update-matching_zero p f rs)

  pub update-none :
      (p : A → Bool) (f : A → A) (rs : List A) → select p rs ≡ none → update p f rs ≡ rs
  unfolding update select
  update-none p f [] e = refl
  update-none p f (x ∷ rs) e = ground (arith, update-none p f rs)

module _ {A : Type 0} where
  -- Every row of the table satisfies `P`.
  abbrev pub AllRows : (A → Type 0) → List A → Type 0
  AllRows P rs = (r : A) → Has r rs → P r

  pub AllRows-update :
      (P : A → Type 0) (p : A → Bool) (f : A → A) (rs : List A)
      → ((r : A) → Has r rs → P r → p r ≡ true → P (f r))
      → AllRows P rs
      → AllRows P (update p f rs)
  AllRows-update P p f rs keep all r h =
      let (x, hx, e) = update-Has p f rs r h in
      rw e (elim (Bool-cases (p x)) [
        | inl hit ↦ rw hit (keep x hx (all x hx) hit)
        | inr miss ↦ rw miss (all x hx)
      ])

  pub AllRows-append :
      (P : A → Type 0) (rs : List A) (new : A) → AllRows P rs → P new → AllRows P (rs ++ new ∷ [])
  AllRows-append P rs new all ok_new r h = elim (append-Has rs (new ∷ []) r h) [
    | inl old ↦ all r old
    | inr (inl e) ↦ rw e ok_new
    | inr (inr none_left) ↦ absurd none_left
  ]

  -- Rows that agree on the column `key` are one row.
  abbrev pub UniqueBy : {K : Type 0} → (A → K) → List A → Type 0
  UniqueBy key rs = (a b : A) → Has a rs → Has b rs → key a ≡ key b → a ≡ b

  pub UniqueBy-update :
      {K : Type 0} (key : A → K) (p : A → Bool) (f : A → A) (rs : List A)
      → ((r : A) → key (f r) ≡ key r)
      → UniqueBy key rs
      → UniqueBy key (update p f rs)
  UniqueBy-update key p f rs same unique a b ha hb e =
      let (x, hx, ex) = update-Has p f rs a ha in
      let (y, hy, ey) = update-Has p f rs b hb in
      ex
      ∙ ap (set_if p f) (unique x y hx hy (sym (kept x) ∙ ap key (sym ex) ∙ e ∙ ap key ey ∙ kept y))
      ∙ sym ey
    where
      kept : (r : A) → key (set_if p f r) ≡ key r
      kept r = elim (Bool-cases (p r)) [ inl hit ↦ rw hit (same r) | inr miss ↦ rw miss ]

  pub UniqueBy-append :
      {K : Type 0} (key : A → K) (rs : List A) (new : A)
      → ((r : A) → Has r rs → key r ≢ key new)
      → UniqueBy key rs
      → UniqueBy key (rs ++ new ∷ [])
  UniqueBy-append key rs new fresh unique a b ha hb e =
      both (append-Has rs (new ∷ []) a ha) (append-Has rs (new ∷ []) b hb)
    where
      both : Has a rs ⊎ Has a (new ∷ []) → Has b rs ⊎ Has b (new ∷ []) → a ≡ b
      both (inl oa) (inl ob) = unique a b oa ob e
      both (inl oa) (inr (inl eb)) = absurd (fresh a oa (e ∙ ap key eb))
      both (inr (inl ea)) (inl ob) = absurd (fresh b ob (sym e ∙ ap key ea))
      both (inr (inl ea)) (inr (inl eb)) = ea ∙ sym eb
      both (inr (inr n)) _ = absurd n
      both _ (inr (inr n)) = absurd n

  pub any-false : (p : A → Bool) (rs : List A) → any p rs ≡ false → AllRows (λ r. p r ≡ false) rs
  any-false p [] e r h = absurd h
  any-false p (x ∷ rs) e r (inl same) = rw same (ground arith)
  any-false p (x ∷ rs) e r (inr h) = any-false p rs (ground arith) r h

  -- A row that satisfies the condition, and is the only one to do so, is the row found.
  pub select_unique :
      (p : A → Bool) (rs : List A) (r : A)
      → Has r rs
      → p r ≡ true
      → ((x : A) → Has x rs → p x ≡ true → x ≡ r)
      → select p rs ≡ some r
  select_unique p rs r h e only = elim (Option-cases (select p rs)) [
    | inl missing ↦ absurd (select-ne-none p rs r h e missing)
    | inr (x, found) ↦ let (hx, px) = select-Has p rs found in found ∙ ap some (only x hx px)
  ]

  pub select-append_some :
      (p : A → Bool) (xs ys : List A) (r : A) → select p xs ≡ some r → select p (xs ++ ys) ≡ some r
  unfolding select
  select-append_some p [] ys r e = cc
  select-append_some p (x ∷ xs) ys r e = ground (arith, select-append_some p xs ys r)

  pub Has-take : (n : ℕ) (rs : List A) (r : A) → Has r (take n rs) → Has r rs
  Has-take zero rs r h = absurd h
  Has-take (suc n) [] r h = absurd h
  Has-take (suc n) (x ∷ rs) r h = ground (arith, Has-take n rs r)
