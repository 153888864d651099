-- ===== src/Base/Assoc.antt =====
-- `HashMap<String, V>` as an association list. The order of the list stands for the unspecified
-- order of iteration: the theorems hold for every order.
use Prim.Native.Nat.{◌+◌, ◌≤◌}
use Prim.Native.String.{String}
use mathlib.Core.Path.{◌≡◌, refl}
use mathlib.Core.Logic.{inl, inr}
use mathlib.Core.Bool.{Bool, false}
use mathlib.Core.List.{List, [], ◌∷◌}
use mathlib.Core.Option.{Option, none, some}
use native.Mathlib.Omega.{arith}
use text.Mathlib.Text.{◌==◌ as str_eq}
use text.Mathlib.TextEquality.{eq_iff}
use ida_mcp_rs.Base.Tests.{if◌then◌else◌, Option-cases}
use ida_mcp_rs.Base.Lists.{length, All}

abbrev pub Assoc {ℓ} : Type ℓ → Type ℓ
Assoc V = List (String × V)

module _ {ℓ} {V : Type ℓ} where
  -- `HashMap::get`
  unfoldable pub lookup : String → Assoc V → Option V
  lookup key [] = none
  lookup key ((k, value) ∷ others) = if str_eq k key then some value else lookup key others

  -- `HashMap::insert`
  unfoldable pub insert : String → V → Assoc V → Assoc V
  insert key value [] = (key, value) ∷ []
  insert key value ((k, old) ∷ others) =
      let rest = insert key value others in
      if str_eq k key then (key, value) ∷ others else (k, old) ∷ rest

  -- `HashMap::remove`, on a map whose keys are distinct
  unfoldable pub remove : String → Assoc V → Assoc V
  remove k [] = []
  remove k ((j, w) ∷ m) = let rest = remove k m in if str_eq j k then m else (j, w) ∷ rest

  -- A write through `HashMap::get_mut`.
  unfoldable pub update : String → (V → V) → Assoc V → Assoc V
  update k f [] = []
  update k f ((j, w) ∷ m) =
      let rest = update k f m in if str_eq j k then (j, f w) ∷ m else (j, w) ∷ rest

  -- `HashMap::retain`
  unfoldable pub retain_values : (V → Bool) → Assoc V → Assoc V
  retain_values p [] = []
  retain_values p ((j, w) ∷ m) = let rest = retain_values p m in if p w then (j, w) ∷ rest else rest

  -- A call of a `&mut self` method on the value at a key, if there is one.
  unfoldable pub modify {κ} : {R : Type κ} → String → (V → V × R) → R → Assoc V → Assoc V × R
  unfolding lookup update
  modify k f absent m = elim (lookup k m) [
    | none ↦ (m, absent)
    | some v ↦ (update k (λ _. (f v).0) m, (f v).1)
  ]

  abbrev pub values : Assoc V → List V
  values [] = []
  values ((j, w) ∷ m) = w ∷ values m

  abbrev pub HasDistinctKeys : Assoc V → Type ℓ
  HasDistinctKeys [] = Unit
  HasDistinctKeys ((j, w) ∷ m) = (lookup j m ≡ none) × HasDistinctKeys m

module _ {ℓ} {V : Type ℓ} where
  pub lookup-insert :
      (key asked : String) (value : V) (entries : Assoc V)
      → lookup asked (insert key value entries)
        ≡ (if str_eq key asked then some value else lookup asked entries)
  unfolding lookup insert
  lookup-insert key asked value [] = refl
  lookup-insert key asked value ((k, old) ∷ others) =
      ground (
        lookup-insert key asked value others,
        arith,
        eq_iff k asked,
        eq_iff k key,
        eq_iff key asked,
      )

  pub lookup-update :
      (k j : String) (f : V → V) (m : Assoc V)
      → lookup j (update k f m) ≡ (
          if str_eq k j
          then (elim (lookup j m) [ none ↦ none | some v ↦ some (f v) ])
          else lookup j m)
  unfolding lookup update
  lookup-update k j f [] = ground arith
  lookup-update k j f ((i, w) ∷ m) =
      ground (arith, eq_iff k j, eq_iff i k, eq_iff i j, lookup-update k j f m)

  pub lookup-remove_ne :
      (k j : String) (m : Assoc V) → str_eq k j ≡ false → lookup j (remove k m) ≡ lookup j m
  unfolding lookup remove
  lookup-remove_ne k j [] h = refl
  lookup-remove_ne k j ((i, w) ∷ m) h =
      ground (arith, eq_iff k j, eq_iff i k, eq_iff i j, lookup-remove_ne k j m)

  pub lookup-remove_self :
      (k : String) (m : Assoc V) → HasDistinctKeys m → lookup k (remove k m) ≡ none
  unfolding lookup remove
  lookup-remove_self k [] h = refl
  lookup-remove_self k ((i, w) ∷ m) h = ground (arith, eq_iff i k, lookup-remove_self k m h.1)

  pub retain_values-absent :
      (p : V → Bool) (k : String) (m : Assoc V)
      → lookup k m ≡ none
      → lookup k (retain_values p m) ≡ none
  unfolding lookup retain_values
  retain_values-absent p k [] h = refl
  retain_values-absent p k ((i, w) ∷ m) h = ground (arith, retain_values-absent p k m)

  pub lookup-retain_values :
      (p : V → Bool) (k : String) (m : Assoc V)
      → HasDistinctKeys m
      → lookup k (retain_values p m)
        ≡ (elim (lookup k m) [ none ↦ none | some v ↦ if p v then some v else none ])
  unfolding lookup retain_values
  lookup-retain_values p k [] h = refl
  lookup-retain_values p k ((i, w) ∷ m) h =
      ground (arith, eq_iff i k, lookup-retain_values p k m h.1, retain_values-absent p k m)

  pub length-insert : (k : String) (v : V) (m : Assoc V) → length (insert k v m) ≤ length m + 1
  unfolding insert
  length-insert k v [] = omega arith
  length-insert k v ((i, w) ∷ m) = ground (arith, length-insert k v m)

  pub length-update : (k : String) (f : V → V) (m : Assoc V) → length (update k f m) ≡ length m
  unfolding update
  length-update k f [] = refl
  length-update k f ((i, w) ∷ m) = ground (arith, length-update k f m)

  pub length-retain_values : (p : V → Bool) (m : Assoc V) → length (retain_values p m) ≤ length m
  unfolding retain_values
  length-retain_values p [] = omega arith
  length-retain_values p ((i, w) ∷ m) = ground (arith, length-retain_values p m)

  pub length-remove : (k : String) (m : Assoc V) → length (remove k m) ≤ length m
  unfolding remove
  length-remove k [] = omega arith
  length-remove k ((i, w) ∷ m) = ground (arith, length-remove k m)

  pub length-remove_present :
      (k : String) (v : V) (m : Assoc V) → lookup k m ≡ some v → length (remove k m) + 1 ≡ length m
  unfolding lookup remove
  length-remove_present k v [] h = ground arith
  length-remove_present k v ((i, w) ∷ m) h = ground (arith, length-remove_present k v m)

  pub insert-HasDistinctKeys :
      (k : String) (v : V) (m : Assoc V) → HasDistinctKeys m → HasDistinctKeys (insert k v m)
  unfolding lookup insert
  insert-HasDistinctKeys k v [] h = (refl, tt)
  insert-HasDistinctKeys k v ((i, w) ∷ m) h =
      ground
        (arith, eq_iff i k, eq_iff k i, insert-HasDistinctKeys k v m h.1, lookup-insert k i v m)

  pub update-HasDistinctKeys :
      (k : String) (f : V → V) (m : Assoc V) → HasDistinctKeys m → HasDistinctKeys (update k f m)
  unfolding update
  update-HasDistinctKeys k f [] h = tt
  update-HasDistinctKeys k f ((i, w) ∷ m) h =
      ground
        (arith, eq_iff i k, eq_iff k i, update-HasDistinctKeys k f m h.1, lookup-update k i f m)

  pub remove-HasDistinctKeys :
      (k : String) (m : Assoc V) → HasDistinctKeys m → HasDistinctKeys (remove k m)
  unfolding remove
  remove-HasDistinctKeys k [] h = tt
  remove-HasDistinctKeys k ((i, w) ∷ m) h =
      ground (arith, eq_iff i k, eq_iff k i, remove-HasDistinctKeys k m h.1, lookup-remove_ne k i m)

  pub retain_values-HasDistinctKeys :
      (p : V → Bool) (m : Assoc V) → HasDistinctKeys m → HasDistinctKeys (retain_values p m)
  unfolding retain_values
  retain_values-HasDistinctKeys p [] h = tt
  retain_values-HasDistinctKeys p ((i, w) ∷ m) h =
      ground (arith, retain_values-HasDistinctKeys p m h.1, retain_values-absent p i m)

module _ {ℓ κ} {V : Type ℓ} {R : Type κ} where
  pub length-modify :
      (k : String) (f : V → V × R) (absent : R) (m : Assoc V)
      → length (modify k f absent m).0 ≡ length m
  unfolding modify
  length-modify k f absent m = elim (Option-cases (lookup k m)) [
    | inl e ↦ rw (e, modify)
    | inr (v, e) ↦ rw (e, modify) (length-update k (λ _. (f v).0) m)
  ]

  pub modify-HasDistinctKeys :
      (k : String) (f : V → V × R) (absent : R) (m : Assoc V)
      → HasDistinctKeys m
      → HasDistinctKeys (modify k f absent m).0
  unfolding modify
  modify-HasDistinctKeys k f absent m h = elim (Option-cases (lookup k m)) [
    | inl e ↦ rw (e, modify) h
    | inr (v, e) ↦ rw (e, modify) (update-HasDistinctKeys k (λ _. (f v).0) m h)
  ]

  -- On a key that is there, `modify` is the call of the method.
  pub modify-found :
      (k : String) (f : V → V × R) (absent : R) (v : V) (m : Assoc V)
      → lookup k m ≡ some v
      → ((modify k f absent m).1 ≡ (f v).1) × (lookup k (modify k f absent m).0 ≡ some (f v).0)
  unfolding modify
  modify-found k f absent v m h = ground (arith, eq_iff k k, lookup-update k k (λ _. (f v).0) m)

  pub modify-absent :
      (k : String) (f : V → V × R) (absent : R) (m : Assoc V)
      → lookup k m ≡ none
      → modify k f absent m ≡ (m, absent)
  unfolding modify
  modify-absent k f absent m h = rw (h, modify)

  pub lookup-modify :
      (k j : String) (f : V → V × R) (absent : R) (m : Assoc V)
      → lookup j (modify k f absent m).0 ≡ (
          if str_eq k j
          then (elim (lookup j m) [ none ↦ none | some v ↦ some (f v).0 ])
          else lookup j m)
  unfolding modify
  lookup-modify k j f absent m = elim (Option-cases (lookup k m)) [
    | inl e ↦ ground (arith, eq_iff k j)
    | inr (v, e) ↦ ground (arith, eq_iff k j, lookup-update k j (λ _. (f v).0) m)
  ]

module _ {ℓ κ} {V : Type ℓ} (P : V → Type κ) where
  pub lookup-All : (k : String) (v : V) (m : Assoc V) → All P (values m) → lookup k m ≡ some v → P v
  unfolding lookup
  lookup-All k v [] h e = cc
  lookup-All k v ((i, w) ∷ m) h e = ground (arith, lookup-All k v m h.1)

  pub insert-All :
      (k : String) (v : V) (m : Assoc V) → All P (values m) → P v → All P (values (insert k v m))
  unfolding insert
  insert-All k v [] h p = (p, tt)
  insert-All k v ((i, w) ∷ m) h p = ground (arith, insert-All k v m h.1 p)

  pub update-All :
      (k : String) (v : V) (m : Assoc V)
      → All P (values m)
      → P v
      → All P (values (update k (λ _. v) m))
  unfolding update
  update-All k v [] h p = tt
  update-All k v ((i, w) ∷ m) h p = ground (arith, update-All k v m h.1 p)

  pub remove-All : (k : String) (m : Assoc V) → All P (values m) → All P (values (remove k m))
  unfolding remove
  remove-All k [] h = tt
  remove-All k ((i, w) ∷ m) h = ground (arith, remove-All k m h.1)

  pub retain_values-All :
      (p : V → Bool) (m : Assoc V) → All P (values m) → All P (values (retain_values p m))
  unfolding retain_values
  retain_values-All p [] h = tt
  retain_values-All p ((i, w) ∷ m) h = ground (arith, retain_values-All p m h.1)

  pub modify-All {ι} :
      {R : Type ι} (k : String) (f : V → V × R) (absent : R) (m : Assoc V)
      → ((v : V) → P v → P (f v).0)
      → All P (values m)
      → All P (values (modify k f absent m).0)
  unfolding modify
  modify-All k f absent m keep h = elim (Option-cases (lookup k m)) [
    | inl e ↦ rw (e, modify) h
    | inr (v, e) ↦ rw (e, modify) (update-All k (f v).0 m h (keep v (lookup-All k v m h e)))
  ]
