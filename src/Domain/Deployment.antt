-- ===== src/Domain/Deployment.antt =====
-- crates/heterocloud-domain/src/deployment.rs
use ipa_rs_hetero_cloud.Prelude.{
  ℕ, String, Bool, true, false, not, ◌&&◌, ◌||◌, Option, none, ltb, ◌==◌, within, any, get_first?,
  is_some_and, Result, ◌>>◌, reject_if, chars, byte_len, is_control, str_eq,
}

pub record HealthCheck : Type 0 where
  pub port : ℕ
  pub path : Option String

pub record DeploymentPolicy : Type 0 where
  pub strategy : String
  pub stateless : Bool
  pub deadline_seconds : ℕ
  pub auto_rollback : Bool
  pub health_check : Option HealthCheck

pub data DeploymentError : Type 0 where
  strategy rolling_needs_stateless deadline health_check : DeploymentError

-- `DeploymentPolicy::default`, and the defaults of its fields.
abbrev pub default_policy : DeploymentPolicy
default_policy = record {
  strategy = "auto";
  stateless = false;
  deadline_seconds = 600;
  auto_rollback = true;
  health_check = none;
}

-- `!p.starts_with('/') || p.len() > 1024 || p.chars().any(char::is_control)`
unfoldable pub bad_path : String → Bool
unfolding is_control
bad_path p =
    not (is_some_and (λ c. c == b'/') (get_first? (chars p)))
    || ltb 1024 (byte_len p)
    || any is_control (chars p)

unfoldable pub bad_health_check : HealthCheck → Bool
unfolding bad_path
bad_health_check check = check.port == 0 || is_some_and bad_path check.path

-- `DeploymentPolicy::validate`
unfoldable pub validate : DeploymentPolicy → Result DeploymentError (Unit {0})
unfolding bad_health_check
validate policy = do
  reject_if
      (not (
        str_eq policy.strategy "auto"
        || str_eq policy.strategy "rolling"
        || str_eq policy.strategy "recreate"))
      DeploymentError.strategy
  reject_if (str_eq policy.strategy "rolling" && not policy.stateless) rolling_needs_stateless
  reject_if (not (within 60 3600 policy.deadline_seconds)) deadline
  reject_if (is_some_and bad_health_check policy.health_check) DeploymentError.health_check
