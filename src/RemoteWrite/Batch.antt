-- ===== src/RemoteWrite/Batch.antt =====
-- Splitting a collection into batches (internal/remote_write/collector.go, `splitIntoBatches`).
use prometheus_multi_tenant.Shared.{
  ℕ, zero, suc, ◌≤◌, ◌<◌, ◌≡◌, refl, ap, ◌∙◌, List, [], ◌∷◌, ◌++◌, arith, leb, if◌then◌else◌,
  length, take, drop, concat, All, take-append-drop, length-take-le, length-drop, append-nil,
  Bool-cases, inl, inr,
}
use prometheus_multi_tenant.Shared.Int.{ℤ, pos, negsuc}

module _ {ℓ} {A : Type ℓ} where
  -- The loop from `i` on, `xs` being `metrics[i:]`; one round for each batch.
  unfoldable pub batches_from : ℕ → ℕ → List A → List (List A)
  batches_from zero size xs = []
  batches_from (suc fuel) size [] = []
  batches_from (suc fuel) size (x ∷ xs) =
      take size (x ∷ xs) ∷ batches_from fuel size (drop size (x ∷ xs))

  -- A batch holds at least one metric, so there are at most as many rounds as metrics.
  unfoldable pub split_batches : List A → ℕ → List (List A)
  split_batches xs size = if leb (length xs) size then xs ∷ [] else batches_from (length xs) size xs

  unfoldable pub split_into_batches : List A → ℤ → List (List A)
  split_into_batches xs (negsuc n) = xs ∷ []
  split_into_batches xs (pos zero) = xs ∷ []
  split_into_batches xs (pos (suc n)) = split_batches xs (suc n)

  concat-batches_from :
      (fuel size : ℕ) (xs : List A)
      → 0 < size
      → length xs ≤ fuel
      → concat (batches_from fuel size xs) ≡ xs
  unfolding batches_from
  concat-batches_from zero size [] p h = refl
  concat-batches_from zero size (x ∷ xs) p h = absurd (omega arith)
  concat-batches_from (suc fuel) size [] p h = refl
  concat-batches_from (suc fuel) size (x ∷ xs) p h =
      ap (◌++◌ (take size (x ∷ xs))) (
        concat-batches_from fuel size (drop size (x ∷ xs)) p
          (omega (arith, length-drop size (x ∷ xs))))
      ∙ take-append-drop size (x ∷ xs)

  -- No batch is empty or too large.
  abbrev pub Fits : ℕ → List A → Type 0
  Fits size b = (0 < length b) × (length b ≤ size)

  batches_from-Fits :
      (fuel size : ℕ) (xs : List A) → 0 < size → All (Fits size) (batches_from fuel size xs)
  unfolding batches_from
  batches_from-Fits zero size xs p = tt
  batches_from-Fits (suc fuel) size [] p = tt
  batches_from-Fits (suc fuel) (suc size) (x ∷ xs) p = (
    (omega arith, omega (arith, length-take-le size xs)),
    batches_from-Fits fuel (suc size) (drop (suc size) (x ∷ xs)) p,
  )
  batches_from-Fits (suc fuel) zero (x ∷ xs) p = absurd (omega arith)

  -- Joined in their order, the batches are the collection: nothing is lost, doubled or reordered,
  -- for every batch size.
  pub concat-split_into_batches :
      (xs : List A) (size : ℤ) → concat (split_into_batches xs size) ≡ xs
  unfolding split_into_batches split_batches
  concat-split_into_batches xs (negsuc n) = append-nil xs
  concat-split_into_batches xs (pos zero) = append-nil xs
  concat-split_into_batches xs (pos (suc n)) = elim (Bool-cases (leb (length xs) (suc n))) [
    | inl small ↦ rw small (append-nil xs)
    | inr large ↦ rw large (concat-batches_from (length xs) (suc n) xs (omega arith) (omega arith))
  ]

  -- For a positive batch size and a collection that is not empty, every batch holds at least one
  -- metric and at most that many.
  pub split_into_batches-Fits :
      (xs : List A) (size : ℕ)
      → 0 < size
      → 0 < length xs
      → All (Fits size) (split_into_batches xs (pos size))
  unfolding split_into_batches split_batches
  split_into_batches-Fits xs zero p h = absurd (omega arith)
  split_into_batches-Fits xs (suc n) p h = elim (Bool-cases (leb (length xs) (suc n))) [
    | inl small ↦ rw small ((h, ground arith), tt)
    | inr large ↦ rw large (batches_from-Fits (length xs) (suc n) xs p)
  ]
