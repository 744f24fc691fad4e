-- ===== src/Store/Buckets/Steps/Rows.antt =====
-- Sums and columns of the table of buckets behind its updates.
use ipa_rs_hetero_cloud.Prelude.{
  ◌≡◌, ◌≢◌, refl, ℕ, ◌≤◌, List, [], ◌∷◌, map, arith, ◌==◌, All, Distinct, sum_of, Bool-cases, inl,
  inr,
}
use ipa_rs_hetero_cloud.Domain.Vpc.{Uuid}
use ipa_rs_hetero_cloud.Store.Buckets.{BucketRow}
use ipa_rs_hetero_cloud.Store.Buckets.Steps.{remove_bucket}

pub All-of_map :
    {A B : Type 0} (P : B → Type 0) (f : A → B) (xs : List A)
    → All (λ x. P (f x)) xs
    → All P (map f xs)
All-of_map P f [] h = tt
All-of_map P f (x ∷ xs) h = (h.0, All-of_map P f xs h.1)

pub sum_map :
    (f : BucketRow → ℕ) (change : BucketRow → BucketRow) (rows : List BucketRow)
    → All (λ row. f (change row) ≤ f row) rows
    → sum_of f (map change rows) ≤ sum_of f rows
sum_map f change [] h = omega arith
sum_map f change (row ∷ rest) h = let here = h.0 in omega (arith, sum_map f change rest h.1)

pub sum_remove :
    (f : BucketRow → ℕ) (id : Uuid) (rows : List BucketRow)
    → sum_of f (remove_bucket id rows) ≤ sum_of f rows
unfolding remove_bucket
sum_remove f id [] = omega arith
sum_remove f id (row ∷ rest) =
    let ih = sum_remove f id rest in
    elim (Bool-cases (row.id == id)) [ inl e ↦ rw e (omega arith) | inr e ↦ rw e (omega arith) ]

pub All-remove :
    (P : BucketRow → Type 0) (id : Uuid) (rows : List BucketRow)
    → All P rows
    → All P (remove_bucket id rows)
unfolding remove_bucket
All-remove P id [] h = tt
All-remove P id (row ∷ rest) h =
    let ih = All-remove P id rest h.1 in
    elim (Bool-cases (row.id == id)) [ inl e ↦ rw e ih | inr e ↦ rw e (h.0, ih) ]

pub All-from_map :
    {A B : Type 0} (P : B → Type 0) (f : A → B) (xs : List A)
    → All P (map f xs)
    → All (λ x. P (f x)) xs
All-from_map P f [] h = tt
All-from_map P f (x ∷ xs) h = (h.0, All-from_map P f xs h.1)

pub remove-Distinct :
    {B : Type 0} (f : BucketRow → B) (id : Uuid) (rows : List BucketRow)
    → Distinct (map f rows)
    → Distinct (map f (remove_bucket id rows))
unfolding remove_bucket
remove-Distinct f id [] h = tt
remove-Distinct f id (row ∷ rest) h =
    let ih = remove-Distinct f id rest h.1 in
    elim (Bool-cases (row.id == id)) [
      | inl e ↦ rw e ih
      | inr e ↦ rw e (
        All-of_map (λ y. f row ≢ y) f (remove_bucket id rest)
            (All-remove (λ r. f row ≢ f r) id rest (All-from_map (λ y. f row ≢ y) f rest h.0)),
        ih,
      )
    ]

-- A change that a column does not see.
pub map_same :
    {B : Type 0} (f : BucketRow → B) (change : BucketRow → BucketRow) (rows : List BucketRow)
    → All (λ row. f (change row) ≡ f row) rows
    → map f (map change rows) ≡ map f rows
map_same f change [] h = refl
map_same f change (row ∷ rest) h = cc (h.0, map_same f change rest h.1)

pub All-always :
    (P : BucketRow → Type 0) (rows : List BucketRow) → ((row : BucketRow) → P row) → All P rows
All-always P [] h = tt
All-always P (row ∷ rest) h = (h row, All-always P rest h)
