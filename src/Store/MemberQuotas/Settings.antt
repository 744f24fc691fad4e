-- ===== src/Store/MemberQuotas/Settings.antt =====
-- `set_member_resource_quota` of crates/heterocloud-store/src/organizations.rs.
use ipa_rs_hetero_cloud.Prelude.{
  Bool, not, ◌&&◌, Option, none, some, List, ◌∷◌, ◌==◌, Result, ok, ◌>>=◌, ◌>>◌, reject_if, map_err,
}
use ipa_rs_hetero_cloud.Domain.Vpc.{Uuid}
use ipa_rs_hetero_cloud.Domain.Quota.{
  FlowQuotaLimits, FlashQuotaLimits, RegistryQuotaLimits, SyouyuQuotaLimits, ResourceQuotaLimits,
  validate,
}
use ipa_rs_hetero_cloud.Store.LoginState.{is_member, keep_rows}
use ipa_rs_hetero_cloud.Store.MemberQuotas.{
  OverrideRow, MemberStore, MemberQuotaError, no_member, unassigned_resources, shared_limits,
  above_organization, invalid_limits, capped_limits,
}

-- The derived equality of limits.
unfoldable pub same_flow : FlowQuotaLimits → FlowQuotaLimits → Bool
same_flow a b =
    a.max_services == b.max_services
    && (a.max_rooms_per_service == b.max_rooms_per_service
        && (a.max_total_rooms == b.max_total_rooms
            && (a.max_participants_per_service == b.max_participants_per_service
                && (a.max_rate_limit_requests_per_second == b.max_rate_limit_requests_per_second
                    && (a.max_rate_limit_burst == b.max_rate_limit_burst
                        && (a.max_developer_credentials_per_service
                            == b.max_developer_credentials_per_service))))))

unfoldable pub same_flash : FlashQuotaLimits → FlashQuotaLimits → Bool
same_flash a b =
    a.max_services == b.max_services
    && (a.max_replicas_per_service == b.max_replicas_per_service
        && (a.max_cpu_millis_per_vm == b.max_cpu_millis_per_vm
            && (a.max_memory_mib_per_vm == b.max_memory_mib_per_vm
                && (a.max_disk_gib_per_vm == b.max_disk_gib_per_vm
                    && (a.max_total_replicas == b.max_total_replicas
                        && (a.max_total_cpu_millis == b.max_total_cpu_millis
                            && (a.max_total_memory_mib == b.max_total_memory_mib
                                && (a.max_total_disk_gib == b.max_total_disk_gib
                                    && (a.max_weekly_cpu_millicore_seconds
                                          == b.max_weekly_cpu_millicore_seconds
                                        && (a.max_weekly_memory_mib_seconds
                                              == b.max_weekly_memory_mib_seconds
                                            && (a.max_weekly_gpu_seconds
                                                == b.max_weekly_gpu_seconds)))))))))))

unfoldable pub same_registry : RegistryQuotaLimits → RegistryQuotaLimits → Bool
same_registry a b = a.storage_gib == b.storage_gib && (a.max_credentials == b.max_credentials)

unfoldable pub same_syouyu : SyouyuQuotaLimits → SyouyuQuotaLimits → Bool
same_syouyu a b =
    a.max_buckets == b.max_buckets
    && (a.max_bytes_per_bucket == b.max_bytes_per_bucket
        && (a.max_objects_per_bucket == b.max_objects_per_bucket
            && (a.max_total_bytes == b.max_total_bytes
                && (a.max_credentials_per_bucket == b.max_credentials_per_bucket
                    && (a.max_total_credentials == b.max_total_credentials)))))

unfoldable pub same_limits : ResourceQuotaLimits → ResourceQuotaLimits → Bool
unfolding same_flow same_flash same_registry same_syouyu
same_limits a b =
    same_flow a.flow b.flow
    && (same_flash a.flash b.flash
        && (same_registry a.registry b.registry && same_syouyu a.syouyu b.syouyu))

unfoldable pub same_shared : ResourceQuotaLimits → ResourceQuotaLimits → Bool
unfolding same_registry
same_shared limits organization =
    same_registry limits.registry organization.registry
    && (limits.syouyu.max_credentials_per_bucket == organization.syouyu.max_credentials_per_bucket
        && limits.syouyu.max_total_credentials == organization.syouyu.max_total_credentials)

abbrev pub is_override : Uuid → Uuid → OverrideRow → Bool
is_override organization_id user_id row =
    row.organization_id == organization_id && row.user_id == user_id

-- `INSERT ... ON CONFLICT (organization_id, user_id) DO UPDATE`, as its effect on the table.
unfoldable pub put_override :
    Uuid → Uuid → ResourceQuotaLimits → List OverrideRow → List OverrideRow
unfolding keep_rows
put_override organization_id user_id limits rows =
    record { organization_id = organization_id; user_id = user_id; limits = limits }
    ∷ keep_rows (is_override organization_id user_id) rows

-- The tests on new personal limits.
unfoldable pub check_limits :
    ResourceQuotaLimits → Bool → ResourceQuotaLimits → Result MemberQuotaError (Unit {0})
unfolding validate same_shared capped_limits same_limits
check_limits organization_limits unassigned limits = do
  map_err invalid_limits (validate limits)
  reject_if unassigned unassigned_resources
  reject_if (not (same_shared limits organization_limits)) shared_limits
  capped ← capped_limits organization_limits limits
  reject_if (not (same_limits capped limits)) above_organization

-- The limits of the member from then on, and the store. The event that it leaves for the worker
-- changes no limits.
unfoldable pub set_member_resource_quota :
    Uuid
    → Uuid
    → ResourceQuotaLimits
    → Bool
    → Option ResourceQuotaLimits
    → MemberStore
    → Result MemberQuotaError (ResourceQuotaLimits × MemberStore)
unfolding is_member check_limits put_override keep_rows
set_member_resource_quota organization_id user_id organization_limits unassigned wanted db = do
  reject_if (not (is_member organization_id user_id db.memberships)) no_member
  elim wanted [
    | none ↦ ok (
      organization_limits,
      record db { overrides = keep_rows (is_override organization_id user_id) db.overrides },
    )
    | some limits ↦
        (check_limits organization_limits unassigned limits
          >> ok (
            limits,
            record db { overrides = put_override organization_id user_id limits db.overrides },
          ))
  ]
