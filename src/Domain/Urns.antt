-- ===== src/Domain/Urns.antt =====
-- `LineageUrn` of domain/urns.py. A text is the list of its code points, and `None` that a call returns
-- stands for the ValueError that it raises.
pub mod RoundTrip
use lineage_collection.Prelude.{
  ℕ, Bool, true, false, not, ◌&&◌, ◌||◌, Option, none, some, List, [], ◌∷◌, ◌++◌, eqb, any,
  if◌then◌else◌,
}

abbrev pub Text : Type 0
Text = List ℕ

abbrev pub colon : ℕ
colon = b':'

abbrev pub hash : ℕ
hash = b'#'

pub record LineageUrn : Type 0 where
  pub env : Text
  pub platform : Text
  pub system : Text
  pub dataset : Text
  pub element : Option Text

abbrev pub is_in : ℕ → Text → Bool
is_in c = any (λ x. eqb x c)

abbrev pub is_nil : Text → Bool
is_nil [] = true
is_nil (c ∷ s) = false

-- `__post_init__`
abbrev pub is_component : Text → Bool
is_component s = not (is_nil s) && (not (is_in colon s) && not (is_in hash s))

abbrev pub is_element : Option Text → Bool
is_element none = true
is_element (some s) = not (is_nil s) && not (is_in hash s)

unfoldable pub is_valid : LineageUrn → Bool
is_valid u =
    is_component u.env
    && (is_component u.platform
        && (is_component u.system && (is_component u.dataset && is_element u.element)))

unfoldable pub new_urn : LineageUrn → Option LineageUrn
new_urn u = if is_valid u then some u else none

-- "urn:ldp:"
abbrev pub scheme : Text
scheme = b'u' ∷ b'r' ∷ b'n' ∷ b':' ∷ b'l' ∷ b'd' ∷ b'p' ∷ b':' ∷ []

-- `dataset_urn`, and `__str__`
unfoldable pub dataset_urn : LineageUrn → Text
dataset_urn u =
    scheme ++ (u.env ++ (colon ∷ (u.platform ++ (colon ∷ (u.system ++ (colon ∷ u.dataset))))))

abbrev pub element_text : Option Text → Text
element_text none = []
element_text (some e) = hash ∷ e

unfoldable pub to_text : LineageUrn → Text
to_text u = dataset_urn u ++ element_text u.element

-- The longest run of characters outside a class, and what follows it.
unfoldable pub span : (ℕ → Bool) → Text → Text × Text
span stop [] = ([], [])
span stop (c ∷ s) = if stop c then ([], c ∷ s) else (c ∷ (span stop s).0, (span stop s).1)

abbrev pub ends_field : ℕ → Bool
ends_field c = eqb c colon || eqb c hash

abbrev pub is_hash : ℕ → Bool
is_hash c = eqb c hash

-- `[^:#]+:`
abbrev pub after_colon : Text → Text → Option (Text × Text)
after_colon [] rest = none
after_colon (c ∷ s) [] = none
after_colon (c ∷ s) (d ∷ rest) = if eqb d colon then some (c ∷ s, rest) else none

unfoldable pub field : Text → Option (Text × Text)
field s = after_colon (span ends_field s).0 (span ends_field s).1

-- `urn:ldp:`
unfoldable pub strip : Text → Text → Option Text
strip [] s = some s
strip (p ∷ ps) [] = none
strip (p ∷ ps) (c ∷ s) = if eqb c p then strip ps s else none

-- `[^#]+?(?:#[^#]+)?` at the end of the text
abbrev pub dataset_end : Text → Text → Option (Text × Option Text)
dataset_end [] rest = none
dataset_end (c ∷ s) [] = some (c ∷ s, none)
dataset_end (c ∷ s) (d ∷ []) = none
dataset_end (c ∷ s) (d ∷ e ∷ es) = if is_in hash (e ∷ es) then none else some (c ∷ s, some (e ∷ es))

unfoldable pub dataset_part : Text → Option (Text × Option Text)
dataset_part s = dataset_end (span is_hash s).0 (span is_hash s).1

infixl 5 ◌>>=◌
abbrev pub ◌>>=◌ : {A B : Type 0} → Option A → (A → Option B) → Option B
none >>= f = none
some a >>= f = f a

-- `parse`
unfoldable pub parse : Text → Option LineageUrn
parse value = do
  rest ← strip scheme value
  env ← field rest
  platform ← field env.1
  system ← field platform.1
  tail ← dataset_part system.1
  new_urn (record {
    env = env.0;
    platform = platform.0;
    system = system.0;
    dataset = tail.0;
    element = tail.1;
  })

-- `with_element`
unfoldable pub with_element : Text → LineageUrn → Option LineageUrn
with_element e u = new_urn (record u { element = some e })

abbrev pub same_text : Text → Text → Bool
same_text [] [] = true
same_text (c ∷ s) (d ∷ t) = eqb c d && same_text s t
same_text _ _ = false

abbrev pub same_element : Option Text → Option Text → Bool
same_element none none = true
same_element (some s) (some t) = same_text s t
same_element _ _ = false

-- `same_asset_as`
unfoldable pub same_asset_as : LineageUrn → LineageUrn → Bool
same_asset_as u v =
    same_text u.platform v.platform
    && (same_text u.system v.system
        && (same_text u.dataset v.dataset && same_element u.element v.element))

-- `is_element_scoped_dataset_urn`
abbrev pub has_element : Option LineageUrn → Bool
has_element none = false
has_element (some u) = elim u.element [ none ↦ false | some e ↦ true ]

unfoldable pub is_element_scoped_dataset_urn : Text → Bool
is_element_scoped_dataset_urn value = if is_in hash value then has_element (parse value) else false
