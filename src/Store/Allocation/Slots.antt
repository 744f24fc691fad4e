-- ===== src/Store/Allocation/Slots.antt =====
-- The service ports that are assigned are free, and no port is given twice.
use ipa_rs_hetero_cloud.Prelude.{
  ◌≡◌, refl, ◌∙◌, ℕ, suc, zero, ◌+◌, ◌≤◌, ◌<◌, ◌⊎◌, inl, inr, true, false, Option, none, some, List,
  [], ◌∷◌, map, arith, All, Result, ok, err, map_ok, ◌⊗◌, AllNew, Option-cases, Bool-cases, ==_iff,
  ◌==◌, ap, subst,
}
use ipa_rs_hetero_cloud.Domain.Vpc.{FlashProtocol}
use ipa_rs_hetero_cloud.Domain.Flash.{FlashPort}
use ipa_rs_hetero_cloud.Domain.Flash.Ports.{Slot, slot, holds, min_flash_service_port}
use ipa_rs_hetero_cloud.Domain.Flash.Ports.Assigned.{holds_iff}
use ipa_rs_hetero_cloud.Store.Allocation.Ports.{
  StoreError, existing_port, preserved, first_free, assigned_port, with_service_port, assign_ports,
}

-- A port of the node range that nobody holds.
abbrev pub FreePort : List Slot → FlashProtocol → ℕ → Type 0
FreePort occupied protocol n = (holds occupied (protocol, n) ≡ false) × (30000 ≤ n) × (n ≤ 32767)

module _ (occupied : List Slot) (protocol : FlashProtocol) where
  first_free_found :
      (remaining value n : ℕ)
      → first_free occupied protocol remaining value ≡ some n
      → (holds occupied (protocol, n) ≡ false) × (value ≤ n) × (n < value + remaining)
  unfolding first_free
  first_free_found zero value n h = cc
  first_free_found (suc remaining) value n h =
      elim (Bool-cases (holds occupied (protocol, value))) [
        | inl e ↦
            let (free, lower, upper) = first_free_found remaining (1 + value) n (later e) in
            (free, omega arith, omega arith)
        | inr e ↦ ground arith
      ]
    where
      later :
          holds occupied (protocol, value) ≡ true
          → first_free occupied protocol remaining (1 + value) ≡ some n
      later e = ground arith

  first_free-none :
      (remaining value n : ℕ)
      → first_free occupied protocol remaining value ≡ none
      → value ≤ n
      → n < value + remaining
      → holds occupied (protocol, n) ≡ true
  unfolding first_free
  first_free-none zero value n h lower upper = absurd (omega arith)
  first_free-none (suc remaining) value n h lower upper =
      elim (Bool-cases (holds occupied (protocol, value))) [
        | inl e ↦ elim (Bool-cases (n == value)) [
          | inl same ↦ moved same e
          | inr other ↦
              first_free-none remaining (1 + value) n (behind e) (past other)
                (omega (arith, past other))
        ]
        | inr e ↦ ground arith
      ]
    where
      moved :
          (n == value) ≡ true
          → holds occupied (protocol, value) ≡ true
          → holds occupied (protocol, n) ≡ true
      moved same e =
          let path : n ≡ value = (==_iff n value).0 same in
          ap (λ k. holds occupied (protocol, k)) path ∙ e

      behind :
          holds occupied (protocol, value) ≡ true
          → first_free occupied protocol remaining (1 + value) ≡ none
      behind e = ground arith

      past : (n == value) ≡ false → 1 + value ≤ n
      past other = ground arith

  preserved_free :
      (before : Option ℕ) (n : ℕ)
      → preserved occupied protocol before ≡ some n
      → (before ≡ some n) × FreePort occupied protocol n
  unfolding preserved
  preserved_free none n h = cc
  preserved_free (some value) n h = ground arith

or_else :
    (kept searched : Option ℕ) (n : ℕ)
    → elim kept [ some value ↦ some value | none ↦ searched ] ≡ some n
    → (kept ≡ some n) ⊎ (searched ≡ some n)
or_else none searched n h = inr h
or_else (some value) searched n h = inl h

assigned_free :
    (occupied : List Slot) (existing : List FlashPort) (port : FlashPort) (n : ℕ)
    → assigned_port occupied existing port ≡ some n
    → FreePort occupied port.protocol n
unfolding assigned_port
assigned_free occupied existing port n h =
    let before : Option ℕ = existing_port existing port in
    let searched : Option ℕ = first_free occupied port.protocol 2768 min_flash_service_port in
    elim (or_else (preserved occupied port.protocol before) searched n h) [
      | inl kept ↦ (preserved_free occupied port.protocol before n kept).1
      | inr found ↦
          let (free, lower, upper) =
            first_free_found occupied port.protocol 2768 min_flash_service_port n found in
          (free, lower, omega arith)
    ]

-- A port keeps what the user named, and gets a service port.
abbrev pub SamePort : FlashPort → FlashPort → Type 0
SamePort before after =
    (after.name ≡ before.name)
    × (after.protocol ≡ before.protocol)
    × (after.container_port ≡ before.container_port)

abbrev pub SamePorts : List FlashPort → List FlashPort → Type 0
SamePorts [] [] = Unit
SamePorts (p ∷ ps) (q ∷ qs) = SamePort p q × SamePorts ps qs
SamePorts _ _ = ⊥

abbrev pub InRange : Slot → Type 0
InRange s = (30000 ≤ s.1) × (s.1 ≤ 32767)

abbrev pub Assigned : List Slot → List FlashPort → List FlashPort → Type 0
Assigned occupied ports result =
    SamePorts ports result ⊗ AllNew occupied (map slot result) ⊗ All InRange (map slot result)

map_ok-ok :
    {A B : Type 0} (f : A → B) (m : Result StoreError A) (b : B)
    → map_ok f m ≡ ok b
    → (a : A) × (m ≡ ok a) × (f a ≡ b)
map_ok-ok f (ok a) b h = (a, refl, cc)
map_ok-ok f (err e) b h = cc

pub assign_ports-Assigned :
    (existing : List FlashPort) (occupied : List Slot) (ports result : List FlashPort)
    → assign_ports false existing occupied ports ≡ ok result
    → Assigned occupied ports result
unfolding assign_ports
assign_ports-Assigned existing occupied [] [] h = (tt, (tt, tt))
assign_ports-Assigned existing occupied [] (q ∷ qs) h = cc
assign_ports-Assigned existing occupied (port ∷ rest) result h =
    elim (Option-cases (assigned_port occupied existing port)) [
      | inl e ↦ absurd (refused e)
      | inr (n, e) ↦
          let (more, assigned, path) =
            map_ok-ok (λ ports. with_service_port port n ∷ ports)
              (assign_ports false existing ((port.protocol, n) ∷ occupied) rest) result
              (accepted n e) in
          let (free, lower, upper) = assigned_free occupied existing port n e in
          subst (λ r. Assigned occupied (port ∷ rest) r) path
            (joined n more free (lower, upper)
              (assign_ports-Assigned existing ((port.protocol, n) ∷ occupied) rest more assigned))
    ]
  where
    refused : assigned_port occupied existing port ≡ none → ⊥
    refused e = ground arith

    accepted :
        (n : ℕ)
        → assigned_port occupied existing port ≡ some n
        → map_ok
            (λ ports. with_service_port port n ∷ ports)
            (assign_ports false existing ((port.protocol, n) ∷ occupied) rest)
          ≡ ok result
    accepted n e = ground arith

    joined :
        (n : ℕ) (more : List FlashPort)
        → holds occupied (port.protocol, n) ≡ false
        → (30000 ≤ n) × (n ≤ 32767)
        → Assigned ((port.protocol, n) ∷ occupied) rest more
        → Assigned occupied (port ∷ rest) (with_service_port port n ∷ more)
    joined n more free range (same, (new, within_range)) = (
      ((refl, refl, refl), same),
      (((holds_iff occupied (port.protocol, n)).0 free, new), (range, within_range)),
    )

-- A port that is refused has no free port left: each of the range is held by its protocol.
pub assigned_port-none :
    (occupied : List Slot) (existing : List FlashPort) (port : FlashPort) (n : ℕ)
    → assigned_port occupied existing port ≡ none
    → 30000 ≤ n
    → n ≤ 32767
    → holds occupied (port.protocol, n) ≡ true
unfolding assigned_port
assigned_port-none occupied existing port n h lower upper =
    first_free-none occupied port.protocol 2768 30000 n
      (neither (preserved occupied port.protocol (existing_port existing port)) h) lower
      (omega arith)
  where
    neither :
        (kept : Option ℕ) {searched : Option ℕ}
        → elim kept [ some value ↦ some value | none ↦ searched ] ≡ none
        → searched ≡ none
    neither none e = e
    neither (some value) e = cc

-- A port that had a service port under its protocol and name keeps it, if it lies in the range
-- and no other service holds it.
pub assigned_port-preserved :
    (occupied : List Slot) (existing : List FlashPort) (port : FlashPort) (n : ℕ)
    → existing_port existing port ≡ some n
    → 30000 ≤ n
    → n ≤ 32767
    → holds occupied (port.protocol, n) ≡ false
    → assigned_port occupied existing port ≡ some n
unfolding assigned_port preserved
assigned_port-preserved occupied existing port n before lower upper free =
    kept (preserved occupied port.protocol (existing_port existing port)) _
      (ap (preserved occupied port.protocol) before ∙ passes)
  where
    passes : preserved occupied port.protocol (some n) ≡ some n
    passes = ground arith

    kept :
        (found searched : Option ℕ)
        → found ≡ some n
        → elim found [ some value ↦ some value | none ↦ searched ] ≡ some n
    kept none searched e = cc
    kept (some value) searched e = e
