-- ===== src/Shared/Map.antt =====
-- Go's `map[string]V` as an association list. A Go map has no order, and a loop over one may run in
-- any order: a theorem about every list covers each order of the same entries.
use Prim.Native.String.{String}
use mathlib.Core.Path.{◌≡◌, refl, subst}
use mathlib.Core.Bool.{Bool, false, ◌||◌}
use mathlib.Core.Logic.{◌≢◌, inl, inr}
use mathlib.Core.Option.{Option, none, some}
use mathlib.Core.List.{List, [], ◌∷◌}
use native.Mathlib.Omega.{arith}
use text.Mathlib.Text.{◌==◌ as str_eq}
use text.Mathlib.TextEquality.{eq_iff}
use text.Mathlib.TextPositions.{eq_refl}
use prometheus_multi_tenant.Shared.Tests.{if◌then◌else◌, is_some, ne→str_eq, Bool-cases}
use prometheus_multi_tenant.Shared.Lists.{All}

abbrev pub Map {ℓ} : Type ℓ → Type ℓ
Map V = List (String × V)

-- A key list as a set.
abbrev pub has : String → List String → Bool
has k [] = false
has k (j ∷ ks) = str_eq j k || has k ks

abbrev pub Distinct : List String → Type 0
Distinct [] = Unit
Distinct (k ∷ ks) = (has k ks ≡ false) × Distinct ks

module _ {ℓ} {V : Type ℓ} where
  -- `v, ok := m[k]`
  unfoldable pub lookup : String → Map V → Option V
  lookup k [] = none
  lookup k ((j, v) ∷ m) = if str_eq j k then some v else lookup k m

  -- `m[k] = v`
  unfoldable pub insert : String → V → Map V → Map V
  insert key value [] = (key, value) ∷ []
  insert key value ((head, old) ∷ rest) =
      if str_eq head key then (key, value) ∷ rest else (head, old) ∷ insert key value rest

  -- `delete(m, k)`
  unfoldable pub delete : String → Map V → Map V
  delete k [] = []
  delete k ((j, v) ∷ m) = let rest = delete k m in if str_eq j k then rest else (j, v) ∷ rest

  abbrev pub keys : Map V → List String
  keys [] = []
  keys ((k, v) ∷ m) = k ∷ keys m

  abbrev pub has_key : String → Map V → Bool
  has_key k m = is_some (lookup k m)

  pub lookup-insert :
      (key sought : String) (value : V) (m : Map V)
      → lookup sought (insert key value m)
        ≡ (if str_eq key sought then some value else lookup sought m)
  unfolding lookup insert
  lookup-insert key sought value [] = refl
  lookup-insert key sought value ((head, old) ∷ rest) = ground (
    arith,
    lookup-insert key sought value rest,
    eq_iff head key,
    eq_iff head sought,
    eq_iff key sought,
  )

  pub lookup-delete :
      (k j : String) (m : Map V) → lookup j (delete k m) ≡ (if str_eq k j then none else lookup j m)
  unfolding lookup delete
  lookup-delete k j [] = ground arith
  lookup-delete k j ((i, w) ∷ m) =
      ground (arith, eq_iff k j, eq_iff i k, eq_iff i j, lookup-delete k j m)

  pub lookup-insert_self :
      (key : String) (value : V) (m : Map V) → lookup key (insert key value m) ≡ some value
  lookup-insert_self key value m = simp (eq_refl, lookup-insert)

  pub lookup-insert_ne :
      (k j : String) (v : V) (m : Map V) → k ≢ j → lookup j (insert k v m) ≡ lookup j m
  lookup-insert_ne k j v m h = simp (lookup-insert, ne→str_eq k j h)

  pub lookup-delete_self : (k : String) (m : Map V) → lookup k (delete k m) ≡ none
  lookup-delete_self k m = simp (lookup-delete, eq_refl)

  pub lookup-delete_ne : (k j : String) (m : Map V) → k ≢ j → lookup j (delete k m) ≡ lookup j m
  lookup-delete_ne k j m h = simp (lookup-delete, ne→str_eq k j h)

  -- No key stands twice: what a Go map gives by itself.
  abbrev pub Fresh : String → Map V → Type ℓ
  Fresh k m = lookup k m ≡ none

  abbrev pub NoDup : Map V → Type ℓ
  NoDup [] = Unit
  NoDup ((k, v) ∷ m) = Fresh k m × NoDup m

  pub delete-NoDup : (k : String) (m : Map V) → NoDup m → NoDup (delete k m)
  unfolding delete
  delete-NoDup k [] h = tt
  delete-NoDup k ((j, v) ∷ m) h = ground (arith, delete-NoDup k m h.1, lookup-delete k j m)

  pub insert-NoDup : (k : String) (v : V) (m : Map V) → NoDup m → NoDup (insert k v m)
  unfolding insert lookup
  insert-NoDup k v [] h = (refl, tt)
  insert-NoDup k v ((j, w) ∷ m) h =
      ground (arith, insert-NoDup k v m h.1, lookup-insert k j v m, eq_iff j k, eq_iff k j)

  -- What holds of each key and its value holds of each entry.
  pub lookup-All {κ} :
      (P : String → V → Type κ) (m : Map V)
      → NoDup m
      → ((k : String) (v : V) → lookup k m ≡ some v → P k v)
      → All (λ e. P e.0 e.1) m
  unfolding lookup
  lookup-All P [] h each = tt
  lookup-All P ((j, v) ∷ m) h each = (
    each j v (rw (eq_refl j) refl),
    lookup-All P m h.1 (λ k w e. each k w (elim (Bool-cases (str_eq j k)) [
      | inl same ↦
          let gone : lookup k m ≡ none = subst (λ x. lookup x m ≡ none) ((eq_iff j k).0 same) h.0 in
          ground (arith, gone, e)
      | inr other ↦ rw other e
    ])),
  )

  -- No entry has a key that is not there.
  pub Fresh-All : (k : String) (m : Map V) → Fresh k m → All (λ e. e.0 ≢ k) m
  unfolding lookup
  Fresh-All k [] h = tt
  Fresh-All k ((j, v) ∷ m) h = elim (Bool-cases (str_eq j k)) [
    | inl same ↦ ground (arith, same, h)
    | inr other ↦
        ((λ e. ground (arith, other, (eq_iff j k).1 e)), Fresh-All k m (ground (arith, other, h)))
  ]
