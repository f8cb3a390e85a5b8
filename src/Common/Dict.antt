-- ===== src/Common/Dict.antt =====
-- `HashMap<String, V>` as a list of entries in the order in which an iteration meets them. The keys
-- of a map are distinct (`Distinct`); `insert` writes in place, or adds an entry at the end.
use Prim.Native.String.{String}
use mathlib.Core.Path.{◌≡◌, refl}
use mathlib.Core.Bool.{Bool, true, false}
use mathlib.Core.List.{List, [], ◌∷◌}
use mathlib.Core.Option.{Option, none, some}
use native.Mathlib.Omega.{arith}
use text.Mathlib.Text.{◌==◌}
use text.Mathlib.TextEquality.{eq_iff}
use holonomy_source.Common.Tests.{if◌then◌else◌}
use holonomy_source.Common.Lists.{Has}

abbrev pub Dict {ℓ} : Type ℓ → Type ℓ
Dict V = List (String × V)

module _ {ℓ} {V : Type ℓ} where
  unfoldable pub get : String → Dict V → Option V
  get k [] = none
  get k ((j, v) ∷ m) = if j == k then some v else get k m

  unfoldable pub contains_key : String → Dict V → Bool
  contains_key k [] = false
  contains_key k ((j, v) ∷ m) = if j == k then true else contains_key k m

  unfoldable pub insert : String → V → Dict V → Dict V
  insert k v [] = (k, v) ∷ []
  insert k v ((j, w) ∷ m) = if j == k then (j, v) ∷ m else (j, w) ∷ insert k v m

  -- `for (k, v) in other { m.insert(k, v); }`
  unfoldable pub insert_all : Dict V → Dict V → Dict V
  insert_all [] m = m
  insert_all ((k, v) ∷ other) m = insert_all other (insert k v m)

  abbrev pub Distinct : Dict V → Type ℓ
  Distinct [] = Unit
  Distinct ((k, v) ∷ m) = (get k m ≡ none) × Distinct m

  pub get-insert :
      (k j : String) (v : V) (m : Dict V)
      → get j (insert k v m) ≡ (if k == j then some v else get j m)
  unfolding get insert
  get-insert k j v [] = refl
  get-insert k j v ((i, w) ∷ m) =
      ground (arith, eq_iff k j, eq_iff i k, eq_iff i j, get-insert k j v m)

  pub contains_key-get :
      (k : String) (m : Dict V) → contains_key k m ≡ elim (get k m) [ none ↦ false | some v ↦ true ]
  unfolding get contains_key
  contains_key-get k [] = refl
  contains_key-get k ((j, v) ∷ m) = ground (arith, contains_key-get k m)

  pub insert-Distinct : (k : String) (v : V) (m : Dict V) → Distinct m → Distinct (insert k v m)
  unfolding get insert
  insert-Distinct k v [] h = (refl, tt)
  insert-Distinct k v ((j, w) ∷ m) (fresh, rest) =
      ground (arith, eq_iff j k, eq_iff k j, get-insert k j v m, insert-Distinct k v m rest)

  pub get-insert_all :
      (k : String) (other m : Dict V)
      → Distinct other
      → get k (insert_all other m) ≡ elim (get k other) [ none ↦ get k m | some v ↦ some v ]
  unfolding get insert_all
  get-insert_all k [] m h = refl
  get-insert_all k ((j, v) ∷ other) m (fresh, rest) =
      ground (arith, get-insert_all k other (insert j v m) rest, get-insert j k v m, eq_iff j k)

  pub insert_all-Distinct : (other m : Dict V) → Distinct m → Distinct (insert_all other m)
  unfolding insert_all
  insert_all-Distinct [] m h = h
  insert_all-Distinct ((k, v) ∷ other) m h =
      insert_all-Distinct other (insert k v m) (insert-Distinct k v m h)

module _ {V : Type 0} where
  pub get-Has : (k : String) (v : V) (m : Dict V) → get k m ≡ some v → Has (k, v) m
  unfolding get
  get-Has k v [] h = cc
  get-Has k v ((j, w) ∷ m) h = ground (arith, eq_iff j k, get-Has k v m)

module _ {ℓ} {V : Type ℓ} where
  -- `m.remove(k)`, without its result.
  unfoldable pub remove : String → Dict V → Dict V
  remove k [] = []
  remove k ((j, v) ∷ m) = let rest = remove k m in if j == k then rest else (j, v) ∷ rest

  -- `m.retain(|_, v| p(v))`.
  unfoldable pub retain : (V → Bool) → Dict V → Dict V
  retain p [] = []
  retain p ((j, v) ∷ m) = let rest = retain p m in if p v then (j, v) ∷ rest else rest

  pub get-remove :
      (k j : String) (m : Dict V) → get j (remove k m) ≡ (if k == j then none else get j m)
  unfolding get remove
  get-remove k j [] = ground arith
  get-remove k j ((i, v) ∷ m) = ground (arith, eq_iff i k, eq_iff i j, eq_iff k j, get-remove k j m)

  pub get-retain-none :
      (p : V → Bool) (k : String) (m : Dict V) → get k m ≡ none → get k (retain p m) ≡ none
  unfolding get retain
  get-retain-none p k [] h = refl
  get-retain-none p k ((j, v) ∷ m) h = ground (arith, get-retain-none p k m)

  -- The entries of a map that are kept are those whose value passes.
  pub get-retain :
      (p : V → Bool) (k : String) (m : Dict V)
      → Distinct m
      → get k (retain p m) ≡ elim (get k m) [ none ↦ none | some v ↦ if p v then some v else none ]
  unfolding get retain
  get-retain p k [] d = refl
  get-retain p k ((j, v) ∷ m) (fresh, d) =
      ground (arith, eq_iff j k, get-retain p k m d, get-retain-none p k m)

  pub remove-Distinct : (k : String) (m : Dict V) → Distinct m → Distinct (remove k m)
  unfolding get remove
  remove-Distinct k [] d = tt
  remove-Distinct k ((j, v) ∷ m) (fresh, d) =
      ground (arith, get-remove k j m, remove-Distinct k m d)

  pub retain-Distinct : (p : V → Bool) (m : Dict V) → Distinct m → Distinct (retain p m)
  unfolding get retain
  retain-Distinct p [] d = tt
  retain-Distinct p ((j, v) ∷ m) (fresh, d) =
      ground (arith, get-retain-none p j m, retain-Distinct p m d)
