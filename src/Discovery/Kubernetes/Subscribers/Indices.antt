-- ===== src/Discovery/Kubernetes/Subscribers/Indices.antt =====
-- The entries of a list of channels by their index.
use prometheus_multi_tenant.Shared.{
  ℕ, zero, suc, ◌<◌, ◌≡◌, ◌≢◌, ◌⊎◌, refl, ap, some, List, [], ◌∷◌, ◌++◌, map, arith, inl, inr,
  get_elem?, set, length, some_inj,
}

pub get_elem?-map :
    {A : Type 0} (f : A → A) (xs : List A) (i : ℕ) (y : A)
    → get_elem? (map f xs) i ≡ some y
    → (x : A) × (get_elem? xs i ≡ some x) × (f x ≡ y)
get_elem?-map f [] i y h = ground (arith, h)
get_elem?-map f (x ∷ xs) zero y h = (x, refl, some_inj h)
get_elem?-map f (x ∷ xs) (suc i) y h = get_elem?-map f xs i y h

pub get_elem?-lt :
    {A : Type 0} (xs : List A) (i : ℕ) (x : A) → get_elem? xs i ≡ some x → i < length xs
get_elem?-lt [] i x h = ground (arith, h)
get_elem?-lt (y ∷ ys) zero x h = omega arith
get_elem?-lt (y ∷ ys) (suc i) x h = omega (arith, get_elem?-lt ys i x h)

pub get_elem?-set :
    {A : Type 0} (xs : List A) (i j : ℕ) (x y : A)
    → get_elem? (set xs i x) j ≡ some y
    → ((j ≡ i) × (x ≡ y)) ⊎ ((j ≢ i) × (get_elem? xs j ≡ some y))
get_elem?-set [] i j x y h = ground (arith, h)
get_elem?-set (z ∷ zs) zero zero x y h = inl (refl, some_inj h)
get_elem?-set (z ∷ zs) zero (suc j) x y h = inr ((λ e. omega (arith, e)), h)
get_elem?-set (z ∷ zs) (suc i) zero x y h = inr ((λ e. omega (arith, e)), h)
get_elem?-set (z ∷ zs) (suc i) (suc j) x y h = ground (arith, get_elem?-set zs i j x y h)

pub get_elem?-append_one :
    {A : Type 0} (xs : List A) (x : A) (i : ℕ) (y : A)
    → get_elem? (xs ++ (x ∷ [])) i ≡ some y
    → (get_elem? xs i ≡ some y) ⊎ ((i ≡ length xs) × (x ≡ y))
get_elem?-append_one [] x zero y h = inr (refl, some_inj h)
get_elem?-append_one [] x (suc i) y h = ground (arith, h)
get_elem?-append_one (z ∷ zs) x zero y h = inl h
get_elem?-append_one (z ∷ zs) x (suc i) y h = ground (arith, get_elem?-append_one zs x i y h)

pub length-map : {A : Type 0} (f : A → A) (xs : List A) → length (map f xs) ≡ length xs
length-map f [] = refl
length-map f (x ∷ xs) = ap suc (length-map f xs)

pub length-set : {A : Type 0} (xs : List A) (i : ℕ) (x : A) → length (set xs i x) ≡ length xs
length-set [] i x = refl
length-set (y ∷ ys) zero x = refl
length-set (y ∷ ys) (suc i) x = ap suc (length-set ys i x)
