-- ===== src/Lib.antt =====
-- HeteroCloud: the decisions of the control plane in crates/ (Rust), modelled and proved.
--
-- The program is a multi-tenant control plane. Users reach the API (crates/heterocloud-api),
-- which asks IAM (crates/heterocloud-iam) whether a request is allowed, validates
-- specifications with the types of crates/heterocloud-domain, and writes rows and outbox events
-- through crates/heterocloud-store. The worker (crates/heterocloud-worker) claims the events,
-- calls the provider of a service and records what it answered.
--
-- Iam: crates/heterocloud-iam/src.
--   Iam.Pattern       pattern_matches and action_pattern_matches of lib.rs; the two-index loop runs on
--                     rounds. Glob is the declarative meaning of a pattern, `Fits`.
--   Iam.Policy        PolicyDocument, its validation and condition dates, of
--                     crates/heterocloud-domain/src/lib.rs. The crate chrono is the parameter `Chrono`.
--   Iam.Authorize     authorize of lib.rs, with conditions and statements.
--   Iam.Limits        authorize_with_administrator, the permissions boundary, service control policies
--                     and the session policy of lib.rs, and evaluate_account_permissions of
--                     crates/heterocloud-api/src/routes.rs.
--   Iam.RoleTrust     role_trust.rs: trust policies, their validation and whom they permit.
-- Domain: crates/heterocloud-domain/src.
--   Domain.Names      valid_private_name, valid_flash_port_name, valid_flash_gpu_type,
--                     valid_flash_env_name.
--   Domain.Deployment deployment.rs.
--   Domain.Vpc        vpc.rs: VpcSpec::validate and FlashVpcAttachment::validate.
--   Domain.Quota      ResourceQuotaLimits of lib.rs, its defaults and validate.
--   Domain.Flash      FlashSpec of lib.rs and validate_inner, whose tests stand in order in
--                     Flash.Validate, Flash.Networks, Flash.Ports and Flash.Environment. The crates
--                     ipnet and url are the parameter `Crates`.
--   Domain.Syouyu     SyouyuSpec of lib.rs and its validate.
--   Domain.Flow       FlowSpec of lib.rs, and validate_flow_spec of crates/heterocloud-api/src/routes.rs.
-- Store: crates/heterocloud-store/src/lib.rs.
--   Store.Allocation  prepare_flash_spec: Allocation.Ports assigns node ports.
--   Store.Lifecycle   create_service_instance_with_id_for_user and update_service_instance_checked
--                     once the specification has been prepared, begin_delete_service_instance,
--                     complete_delete_service_instance and the marks.
--   Store.Reconciles  enqueue_flash_quota_reconcile_tx, enqueue_flash_gpu_reconciles, and
--                     record_flash_observation of src/flash_operations.rs.
--   Store.Outbox      claim_outbox_event, mark_outbox_delivered, retry_outbox_event.
--   Store.Rooms       prepare_flow_spec.
--   Store.Buckets     prepare_syouyu_spec; Buckets.Steps has creations, updates and deletions of buckets.
--   Store.MemberQuotas  in organizations.rs: capped_limits, member_quota_in_transaction and
--                     set_member_resource_quota (MemberQuotas.Settings).
--   Store.MemberAllocation  validate_member_allocation, with the sums of ResourceQuotaUsage.
--   Store.LoginState  the tables of the device login of the command line.
--   Store.DeviceLogin create_cli_device_authorization, approve_cli_device_authorization,
--                     exchange_cli_device_authorization, authenticate_cli_access_token and
--                     revoke_cli_access_token; DeviceLogin.Runs has them as steps, with a log.
-- Api: crates/heterocloud-api/src/routes.rs, and valid_access_token of
-- crates/heterocloud-cli/src/auth.rs.
--   Api.Tokens        parse_cli_access_token_prefix, parse_api_key_prefix, parse_iam_role_arn,
--                     parse_flow_developer_credential_prefix and what generates the last one's input.
--   Api.Codes         generate_cli_user_code, normalize_cli_user_code, valid_cli_device_code.
-- Worker: deliver and process_one of crates/heterocloud-worker/src/main.rs.
--
-- The shared text, list, result and number helpers are in Prelude. A module whose name ends in Examples holds the
-- concrete inputs.
--
-- How the code is read. Unsigned integers are natural numbers; where a sum can wrap around it is
-- written with `% 2 ^ 64`, where it saturates with `min`, and the generation of a service stops at 2 ^ 63 with an error. A native
-- string is walked as its chars, or as the bytes of its UTF-8. A `Result` is a value; the messages of
-- errors are constructors. A transaction of the store is a function from a database to a database, or
-- an error that leaves it as it was. A database is a list of rows and a list of events; a row is found
-- by its primary key. A row's specification is typed in Allocation and a text in Lifecycle.
--
-- Interleaving. The worker reads an instance, calls the provider and then writes. `deliver` takes the
-- database of both moments, with nothing assumed of what happened between them, and the provider's
-- answer as an argument, or none where the request failed. Worker.Steps has all that writes the state or
-- the generation of a service, and all that posts or changes events about services, as the steps of one
-- relation, in any order; a service is created under an id that no event of the outbox names, as the
-- ids are new UUIDs. The outbox has other topics too, which name no service's row and are left out.
-- Store.Buckets.Steps has the changes of the tenants' limits among its steps.
--
-- The device login has its clock as an argument of each operation, in microseconds. A new row's id is
-- one that the log does not name, and a digest stands for the code or token that it was made from; new
-- tokens and codes are arguments.
--
-- Rounds. The matching loop of Pattern takes |value| * (|pattern| + 1) + |pattern| + 1 rounds, which is
-- proved to be enough. Every other loop is structural. The search for a free port goes through the
-- 2768 ports from 30000 on.
--
-- Not modelled: SQL, HTTP, JSON and cryptography themselves, the reading of specifications from JSON,
-- the revocation of principal contexts and the quota policies that the worker sends, allocations of
-- cloud organizations, accounts and other credentials in the store, the routes of the API
-- other than those above, the command line but for its test of tokens, and the console.
pub mod Prelude
pub mod Iam
pub mod Domain
pub mod Store
pub mod Worker
pub mod Api
