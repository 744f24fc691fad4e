-- ===== src/Worker/Steps/Phases.antt =====
-- The life of one service, seen from outside, and the changes of the rows that a step can make.
pub mod Requests
pub mod Refines
use ipa_rs_hetero_cloud.Prelude.{
  ◌≡◌, ◌≢◌, refl, sym, ap, subst, ◌∙◌, Bool, true, false, Option, none, some, List, [], ◌∷◌, arith,
  ◌==◌, ==_iff, Bool-cases, inl, inr,
}
use ipa_rs_hetero_cloud.Domain.Vpc.{Uuid}
use ipa_rs_hetero_cloud.Store.Lifecycle.{ServiceRow, is_deleting, find_row, put_row, remove_row}
use ipa_rs_hetero_cloud.Store.Lifecycle.Rows.{
  find_row-put_row, find_row-put_row_same, find_row-remove_row, find_row-remove_row_same,
}

pub data Phase : Type 0 where
  absent alive going : Phase

-- A service appears, begins its deletion and is gone, once each in this order.
pub data Moves : Phase → Phase → Type 0 where
  stays : (phase : Phase) → Moves phase phase
  appears : Moves absent alive
  begins : Moves alive going
  ends : Moves going absent

abbrev pub phase_if : Bool → Phase
phase_if true = going
phase_if false = alive

abbrev pub phase_of : Option ServiceRow → Phase
phase_of none = absent
phase_of (some row) = phase_if (is_deleting row.state)

-- What a step does to the rows.
pub data Change (rows : List ServiceRow) : List ServiceRow → Type 0 where
  same_rows : Change rows rows
  put :
      (row old : ServiceRow)
      → find_row row.id rows ≡ some old
      → (is_deleting old.state ≡ true → is_deleting row.state ≡ true)
      → Change rows (put_row row rows)
  add :
      (row : ServiceRow)
      → find_row row.id rows ≡ none
      → is_deleting row.state ≡ false
      → Change rows (row ∷ rows)
  remove :
      (id : Uuid) (old : ServiceRow)
      → find_row id rows ≡ some old
      → is_deleting old.state ≡ true
      → Change rows (remove_row id rows)

differ : (a b : Uuid) → (a == b) ≡ false → a ≢ b
differ a b e path = ground (arith, ==_iff a b)

find_row-cons_same :
    (row : ServiceRow) (rows : List ServiceRow) → find_row row.id (row ∷ rows) ≡ some row
unfolding find_row
find_row-cons_same row rows = ground arith

find_row-cons :
    (k : Uuid) (row : ServiceRow) (rows : List ServiceRow)
    → row.id ≢ k
    → find_row k (row ∷ rows) ≡ find_row k rows
unfolding find_row
find_row-cons k row rows apart = ground arith

old_to_new :
    (old row : ServiceRow)
    → (is_deleting old.state ≡ true → is_deleting row.state ≡ true)
    → Moves (phase_of (some old)) (phase_of (some row))
old_to_new old row h = by_cases (is_deleting old.state) (is_deleting row.state) h
  where
    by_cases : (a b : Bool) → (a ≡ true → b ≡ true) → Moves (phase_if a) (phase_if b)
    by_cases true true h = stays going
    by_cases true false h = let t = h refl in absurd (cc)
    by_cases false true h = begins
    by_cases false false h = stays alive

-- Every change moves each service by one step of its life at most.
pub Change-Moves :
    (rows after : List ServiceRow) (k : Uuid)
    → Change rows after
    → Moves (phase_of (find_row k rows)) (phase_of (find_row k after))
Change-Moves rows _ k same_rows = stays (phase_of (find_row k rows))
Change-Moves rows _ k (put row old found kept) = elim (Bool-cases (row.id == k)) [
  | inl e ↦
      subst (λ i. Moves (phase_of (find_row i rows)) (phase_of (find_row i (put_row row rows))))
        ((==_iff row.id k).0 e) put_here
  | inr e ↦
      subst (λ slot. Moves (phase_of (find_row k rows)) (phase_of slot))
        (sym (find_row-put_row k row rows (differ row.id k e))) (stays (phase_of (find_row k rows)))
]
  where
    put_here :
        Moves (phase_of (find_row row.id rows)) (phase_of (find_row row.id (put_row row rows)))
    put_here =
        subst (λ slot. Moves (phase_of slot) (phase_of (find_row row.id (put_row row rows))))
          (sym found)
          (subst (λ slot. Moves (phase_of (some old)) (phase_of slot))
            (sym (find_row-put_row_same row old rows found)) (old_to_new old row kept))
Change-Moves rows _ k (add row new living) = elim (Bool-cases (row.id == k)) [
  | inl e ↦
      subst (λ i. Moves (phase_of (find_row i rows)) (phase_of (find_row i (row ∷ rows))))
        ((==_iff row.id k).0 e) first
  | inr e ↦
      subst (λ slot. Moves (phase_of (find_row k rows)) (phase_of slot))
        (sym (find_row-cons k row rows (differ row.id k e))) (stays (phase_of (find_row k rows)))
]
  where
    first : Moves (phase_of (find_row row.id rows)) (phase_of (find_row row.id (row ∷ rows)))
    first =
        subst (λ slot. Moves (phase_of slot) (phase_of (find_row row.id (row ∷ rows)))) (sym new)
          (subst (λ slot. Moves absent (phase_of slot)) (sym (find_row-cons_same row rows))
            (subst (λ b. Moves absent (phase_if b)) (sym living) appears))
Change-Moves rows _ k (remove id old found dying) = elim (Bool-cases (id == k)) [
  | inl e ↦
      subst (λ i. Moves (phase_of (find_row i rows)) (phase_of (find_row i (remove_row id rows))))
        ((==_iff id k).0 e) gone
  | inr e ↦
      subst (λ slot. Moves (phase_of (find_row k rows)) (phase_of slot))
        (sym (find_row-remove_row k id rows (differ id k e))) (stays (phase_of (find_row k rows)))
]
  where
    gone : Moves (phase_of (find_row id rows)) (phase_of (find_row id (remove_row id rows)))
    gone =
        subst (λ slot. Moves (phase_of slot) (phase_of (find_row id (remove_row id rows))))
          (sym found)
          (subst (λ slot. Moves (phase_of (some old)) (phase_of slot))
            (sym (find_row-remove_row_same id rows))
            (subst (λ b. Moves (phase_if b) absent) (sym dying) ends))
