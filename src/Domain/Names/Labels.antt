-- ===== src/Domain/Names/Labels.antt =====
-- The two tests of DNS labels agree, and imply the looser one.
use ipa_rs_hetero_cloud.Prelude.{
  ℕ, ◌≡◌, Bool, true, some, List, [], ◌∷◌, arith, all, get_last?, Option-cases, inl, inr,
}
use ipa_rs_hetero_cloud.Domain.Names.{label_byte, private_name, flash_port_name, flash_gpu_type}

all-last :
    (p : ℕ → Bool) (xs : List ℕ) {b : ℕ} → all p xs ≡ true → get_last? xs ≡ some b → p b ≡ true
all-last p [] h e = cc
all-last p (x ∷ []) h e = ground arith
all-last p (x ∷ y ∷ xs) {b} h e = all-last p (y ∷ xs) (ground arith) e

-- A private name and a port name are the same labels: the last byte's wider test adds nothing,
-- since every byte is lowercase, a digit or a dash.
pub private_name-eq-flash_port_name : (s : List ℕ) → private_name s ≡ flash_port_name s
unfolding private_name flash_port_name
private_name-eq-flash_port_name s = elim (Option-cases (get_last? s)) [
  | inl e ↦ rw e
  | inr (b, e) ↦
      rw (e, private_name, flash_port_name) (ground (arith, all-last label_byte s {b = b}))
]

-- A port name is always an acceptable GPU type.
pub flash_port_name-flash_gpu_type :
    (s : List ℕ) → flash_port_name s ≡ true → flash_gpu_type s ≡ true
unfolding flash_port_name flash_gpu_type
flash_port_name-flash_gpu_type [] h = cc
flash_port_name-flash_gpu_type (x ∷ xs) h = elim (Option-cases (get_last? (x ∷ xs))) [
  | inl e ↦ ground arith
  | inr (b, e) ↦ ground arith
]
