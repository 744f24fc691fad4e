-- ===== src/Store/Lifecycle/Rows.antt =====
-- Rows by their primary key.
use ipa_rs_hetero_cloud.Prelude.{
  ◌≡◌, ◌≢◌, refl, inl, inr, true, false, none, some, List, [], ◌∷◌, arith, ◌==◌, ==_iff, Bool-cases,
}
use ipa_rs_hetero_cloud.Domain.Vpc.{Uuid}
use ipa_rs_hetero_cloud.Store.Lifecycle.{ServiceRow, find_row, put_row, remove_row}

pub find_row_id :
    (id : Uuid) (rows : List ServiceRow) (row : ServiceRow)
    → find_row id rows ≡ some row
    → row.id ≡ id
unfolding find_row
find_row_id id [] row h = cc
find_row_id id (first ∷ rest) row h = elim (Bool-cases (first.id == id)) [
  | inl e ↦ found first e (here e)
  | inr e ↦ find_row_id id rest row (there e)
]
  where
    here : (first.id == id) ≡ true → first ≡ row
    here e = ground arith

    there : (first.id == id) ≡ false → find_row id rest ≡ some row
    there e = ground arith

    found : (r : ServiceRow) → (r.id == id) ≡ true → r ≡ row → row.id ≡ id
    found r e path = cc (path, (==_iff r.id id).0 e)

-- Another row is found as before.
pub find_row-put_row :
    (id : Uuid) (row : ServiceRow) (rows : List ServiceRow)
    → row.id ≢ id
    → find_row id (put_row row rows) ≡ find_row id rows
unfolding find_row put_row
find_row-put_row id row [] apart = refl
find_row-put_row id row (first ∷ rest) apart = ground (arith, find_row-put_row id row rest apart)

-- The row that is written is found.
pub find_row-put_row_same :
    (row old : ServiceRow) (rows : List ServiceRow)
    → find_row row.id rows ≡ some old
    → find_row row.id (put_row row rows) ≡ some row
unfolding find_row put_row
find_row-put_row_same row old [] h = cc
find_row-put_row_same row old (first ∷ rest) h = elim (Bool-cases (first.id == row.id)) [
  | inl e ↦ ground arith
  | inr e ↦ ground (arith, find_row-put_row_same row old rest (there e))
]
  where
    there : (first.id == row.id) ≡ false → find_row row.id rest ≡ some old
    there e = ground arith

pub find_row-remove_row :
    (id gone : Uuid) (rows : List ServiceRow)
    → gone ≢ id
    → find_row id (remove_row gone rows) ≡ find_row id rows
unfolding find_row remove_row
find_row-remove_row id gone [] apart = refl
find_row-remove_row id gone (first ∷ rest) apart =
    ground (arith, find_row-remove_row id gone rest apart)

pub find_row-remove_row_same :
    (id : Uuid) (rows : List ServiceRow) → find_row id (remove_row id rows) ≡ none
unfolding find_row remove_row
find_row-remove_row_same id [] = refl
find_row-remove_row_same id (first ∷ rest) = ground (arith, find_row-remove_row_same id rest)
