-- ===== src/Prelude/Growing.antt =====
-- Tables whose key column grows from row to row: an AUTOINCREMENT column, in insertion order.
use Prim.Native.Nat.{ℕ, suc, ◌≤◌, ◌<◌}
use mathlib.Core.Path.{◌≡◌, refl, sym, ap, ◌∙◌}
use mathlib.Core.Logic.{◌⊎◌, inl, inr}
use mathlib.Core.Bool.{Bool, true, false, false≢true}
use mathlib.Core.List.{List, [], ◌∷◌, ◌++◌}
use native.Mathlib.Omega.{arith}
use lineage_collection.Prelude.Tests.{Bool-cases}
use lineage_collection.Prelude.Rows.{update, matching, Has, AllRows, UniqueBy}

module _ {A : Type 0} (key : A → ℕ) where
  abbrev pub Ascending : ℕ → List A → Type 0
  Ascending n [] = Unit {0}
  Ascending n (r ∷ rs) = (n < key r) × Ascending (key r) rs

  pub Ascending-above : (n : ℕ) (rs : List A) (r : A) → Ascending n rs → Has r rs → n < key r
  Ascending-above n [] r a h = absurd h
  Ascending-above n (x ∷ rs) r a (inl e) = rw e a.0
  Ascending-above n (x ∷ rs) r a (inr h) = omega (arith, Ascending-above (key x) rs r a.1 h)

  pub Ascending-UniqueBy : (n : ℕ) (rs : List A) → Ascending n rs → UniqueBy key rs
  Ascending-UniqueBy n [] asc a b ha hb e = absurd ha
  Ascending-UniqueBy n (x ∷ rs) asc a b (inl ea) (inl eb) e = rw (ea, eb)
  Ascending-UniqueBy n (x ∷ rs) asc a b (inl ea) (inr hb) e =
      absurd (omega (arith, ap key ea, Ascending-above (key x) rs b asc.1 hb))
  Ascending-UniqueBy n (x ∷ rs) asc a b (inr ha) (inl eb) e =
      absurd (omega (arith, ap key eb, Ascending-above (key x) rs a asc.1 ha))
  Ascending-UniqueBy n (x ∷ rs) asc a b (inr ha) (inr hb) e =
      Ascending-UniqueBy (key x) rs asc.1 a b ha hb e

  pub Ascending-update :
      (p : A → Bool) (f : A → A) (n : ℕ) (rs : List A)
      → ((r : A) → key (f r) ≡ key r)
      → Ascending n rs
      → Ascending n (update p f rs)
  unfolding update
  Ascending-update p f n [] same asc = tt
  Ascending-update p f n (x ∷ rs) same asc = elim (Bool-cases (p x)) [
    | inl hit ↦ rw (hit, same x) (asc.0, Ascending-update p f (key x) rs same asc.1)
    | inr miss ↦ rw miss (asc.0, Ascending-update p f (key x) rs same asc.1)
  ]

  pub Ascending-append :
      (n m : ℕ) (rs : List A) (new : A)
      → Ascending n rs
      → n ≤ m
      → AllRows (λ r. key r ≤ m) rs
      → m < key new
      → Ascending n (rs ++ new ∷ [])
  Ascending-append n m [] new asc le all lt = (omega arith, tt)
  Ascending-append n m (x ∷ rs) new asc le all lt =
      (asc.0, Ascending-append (key x) m rs new asc.1 (all x (inl refl)) (λ r h. all r (inr h)) lt)

  matching-zero :
      (p : A → Bool) (rs : List A) → ((r : A) → Has r rs → p r ≡ false) → matching p rs ≡ 0
  unfolding matching
  matching-zero p [] h = refl
  matching-zero p (x ∷ rs) h = rw (h x (inl refl)) (matching-zero p rs (λ r m. h r (inr m)))

  -- A condition that a row satisfies, and of which all rows that satisfy it are that row, takes
  -- exactly one row.
  pub matching-one :
      (p : A → Bool) (n : ℕ) (rs : List A) (r : A)
      → Ascending n rs
      → Has r rs
      → p r ≡ true
      → ((x : A) → Has x rs → p x ≡ true → x ≡ r)
      → matching p rs ≡ 1
  unfolding matching
  matching-one p n [] r asc h e only = absurd h
  matching-one p n (x ∷ rs) r asc h e only = elim (Bool-cases (p x)) [
    | inl hit ↦ rw hit (ap suc (matching-zero p rs (λ y hy. rest y hy (only x (inl refl) hit))))
    | inr miss ↦
        rw miss (matching-one p (key x) rs r asc.1 (later h miss) e (λ y hy. only y (inr hy)))
  ]
    where
      rest : (y : A) → Has y rs → x ≡ r → p y ≡ false
      rest y hy same = elim (Bool-cases (p y)) [
        | inl hit ↦ absurd (
            omega (
              arith,
              ap key (only y (inr hy) hit),
              ap key same,
              Ascending-above (key x) rs y asc.1 hy,
            ))
        | inr miss ↦ miss
      ]

      later : (r ≡ x) ⊎ Has r rs → p x ≡ false → Has r rs
      later (inl same) miss = absurd (false≢true (sym miss ∙ ap p (sym same) ∙ e))
      later (inr hr) miss = hr
