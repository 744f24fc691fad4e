-- ===== src/Store/Allocation/Totals.antt =====
-- What a Flash specification is once the store has accepted it.
use ipa_rs_hetero_cloud.Prelude.{
  bind_ok, then_ok, ok_inj, ◌≡◌, refl, sym, ap, subst, ◌∙◌, false, Option, List, map, All, Result,
  ok, err, map_err, ◌⊗◌, Distinct, AllNew-iff, NotIn,
}
use ipa_rs_hetero_cloud.Domain.Flash.{FlashPort, FlashSpec, FlashError}
use ipa_rs_hetero_cloud.Domain.Flash.Networks.{Crates}
use ipa_rs_hetero_cloud.Domain.Flash.Ports.{slot, at_container_ports}
use ipa_rs_hetero_cloud.Domain.Flash.Validate.{validate}
use ipa_rs_hetero_cloud.Store.Allocation.{
  Tenant, occupied_ports, total_usage, check_one_service, check_totals, ports_of, with_ports,
  prepare_flash_spec,
}
use ipa_rs_hetero_cloud.Store.Allocation.Ports.{StoreError, assign_ports}
use ipa_rs_hetero_cloud.Store.Allocation.Slots.{SamePorts, InRange, assign_ports-Assigned}

map_err_ok : (m : Result FlashError (Unit {0})) → map_err StoreError.flash m ≡ ok tt → m ≡ ok tt
map_err_ok (ok u) h = refl
map_err_ok (err e) h = cc

module _ (crates : Crates) (tenant : Tenant) (existing_spec : Option FlashSpec) where
  -- The steps that have succeeded.
  abbrev pub Steps : FlashSpec → List FlashPort → Type 0
  Steps requested ports =
      (check_one_service tenant.quota requested ≡ ok tt)
      ⊗ (assign_ports (at_container_ports requested) (ports_of existing_spec)
            (occupied_ports tenant.excluded_service_id tenant.rows) requested.ports
          ≡ ok ports)
      ⊗ (check_totals tenant.quota (total_usage tenant requested) ≡ ok tt)
      ⊗ (validate crates (with_ports requested ports) ≡ ok tt)

  steps :
      (requested result : FlashSpec)
      → prepare_flash_spec crates tenant existing_spec requested ≡ ok result
      → (ports : List FlashPort) × Steps requested ports × (with_ports requested ports ≡ result)
  unfolding prepare_flash_spec
  steps requested result h =
      let (a, after_request) = then_ok _ _ result h in
      let (b, after_gpu) = then_ok _ _ result after_request in
      let (c, after_service) = then_ok _ _ result after_gpu in
      let (ports, d, after_ports) = bind_ok _ _ result after_service in
      let (e, after_totals) = then_ok _ _ result after_ports in
      let (f, last) = then_ok _ _ result after_totals in
      (ports, (c, (d, (e, map_err_ok _ f))), ok_inj last)

  -- An accepted specification that is not reached at its container ports is valid; its service
  -- ports lie in the node range, are pairwise different within each protocol and are held by no
  -- other service; names, protocols and container ports stay as requested.
  pub prepare_flash_spec_slots :
      (requested result : FlashSpec)
      → at_container_ports requested ≡ false
      → prepare_flash_spec crates tenant existing_spec requested ≡ ok result
      → (validate crates result ≡ ok tt)
        × SamePorts requested.ports result.ports
        × All InRange (map slot result.ports)
        × Distinct (map slot result.ports)
        × All
            (λ s. NotIn s (occupied_ports tenant.excluded_service_id tenant.rows))
            (map slot result.ports)
  prepare_flash_spec_slots requested result forwarded h =
      let (ports, (c, (d, (e, f))), path) = steps requested result h in
      let (same, (new, range)) =
        assign_ports-Assigned (ports_of existing_spec)
          (occupied_ports tenant.excluded_service_id tenant.rows) requested.ports ports
          (indirect ports d) in
      let (unheld, distinct) = (AllNew-iff _ _).0 new in
      subst
        (λ r.
          (validate crates r ≡ ok tt)
          × SamePorts requested.ports r.ports
          × All InRange (map slot r.ports)
          × Distinct (map slot r.ports)
          × All (λ s. NotIn s (occupied_ports tenant.excluded_service_id tenant.rows))
              (map slot r.ports))
        path (f, same, range, distinct, unheld)
    where
      indirect :
          (ports : List FlashPort)
          → assign_ports
              (at_container_ports requested)
              (ports_of existing_spec)
              (occupied_ports tenant.excluded_service_id tenant.rows)
              requested.ports
            ≡ ok ports
          → assign_ports false
              (ports_of existing_spec)
              (occupied_ports tenant.excluded_service_id tenant.rows)
              requested.ports
            ≡ ok ports
      indirect ports d =
          sym (
            ap
              (λ direct.
                assign_ports direct (ports_of existing_spec)
                  (occupied_ports tenant.excluded_service_id tenant.rows) requested.ports)
              forwarded)
          ∙ d
