-- ===== src/Domain/Flash/Environment.antt =====
-- Environment variables, secrets and process arguments of a Flash specification.
use ipa_rs_hetero_cloud.Prelude.{
  ℕ, String, Bool, not, ◌&&◌, ◌||◌, Option, none, some, List, [], ◌∷◌, ltb, ◌==◌, length, any,
  is_empty, is_some, Result, ok, err, ◌>>◌, ◌>>=◌, reject_if, for_each, chars, bytes, byte_len,
  encode, to_ascii_uppercase, same_text, if◌then◌else◌, map,
}
use ipa_rs_hetero_cloud.Domain.Names.{flash_env_name, valid_flash_port_name, valid_flash_env_name}
use ipa_rs_hetero_cloud.Domain.Flash.{FlashSpec, FlashError, Entries}

-- The names of variables are compared as chars, so that a computed name needs no string. A
-- `BTreeMap` is walked by key and this list from its last entry: of two errors another may come
-- first.
abbrev pub Variables : Type 0
Variables = List (List ℕ × String)

unfoldable pub contains_key : Variables → List ℕ → Bool
contains_key entries key = any (λ entry. same_text entry.0 key) entries

abbrev pub keyed : Entries → Variables
keyed entries = map (λ entry. (chars entry.0, entry.1)) entries

-- `file_name.to_ascii_uppercase().replace('-', "_")`, char by char.
unfoldable pub env_char : ℕ → ℕ
unfolding to_ascii_uppercase
env_char c = if c == b'-' then b'_' else to_ascii_uppercase c

abbrev pub variable_name : String → List ℕ
variable_name file_name = map env_char (chars file_name)

-- The loop over `secret_files`.
unfoldable pub add_files : Variables → Entries → Result FlashError Variables
unfolding contains_key
add_files effective [] = ok effective
add_files effective (file ∷ rest) = do
  reject_if (contains_key effective (variable_name file.0)) FlashError.secret_twice
  add_files ((variable_name file.0, file.1) ∷ effective) rest

-- `FlashSpec::effective_secret_env`
unfoldable pub effective_secret_env : FlashSpec → Result FlashError Variables
unfolding add_files
effective_secret_env spec = add_files (keyed spec.secret_env) spec.secret_files

abbrev pub has_nul : String → Bool
has_nul value = any (λ c. c == 0) (chars value)

unfoldable pub check_env_entry : String × String → Result FlashError (Unit {0})
check_env_entry entry = do
  reject_if (not (valid_flash_env_name entry.0)) FlashError.env_name
  reject_if (ltb 16384 (byte_len entry.1) || has_nul entry.1) FlashError.env_value

unfoldable pub check_env : Entries → Result FlashError (Unit {0})
unfolding check_env_entry
check_env env = do
  reject_if (ltb 128 (length env)) FlashError.env_count
  for_each check_env_entry env

-- The names that `task_role` reserves.
abbrev pub workload_settings : List String
workload_settings =
    "HETEROCLOUD_ENDPOINT" ∷ "HETEROCLOUD_ORGANIZATION_ID" ∷ "HETEROCLOUD_WORKLOAD_TOKEN_FILE" ∷ []

unfoldable pub takes_reserved : Entries → Variables → Bool
unfolding contains_key
takes_reserved env secret_env =
    any (λ key. contains_key (keyed env) (chars key) || contains_key secret_env (chars key))
      workload_settings

-- `valid_flash_env_name`, on the chars of a name.
unfoldable pub valid_variable : List ℕ → Bool
valid_variable name = flash_env_name (encode name)

unfoldable pub check_secret : Entries → List ℕ × String → Result FlashError (Unit {0})
unfolding contains_key valid_variable
check_secret env entry = do
  reject_if (not (valid_variable entry.0) || not (valid_flash_port_name entry.1))
      FlashError.secret_name
  reject_if (contains_key (keyed env) entry.0) FlashError.env_and_secret

unfoldable pub bad_file : String × String → Bool
bad_file file = not (valid_flash_port_name file.0) || not (valid_flash_port_name file.1)

-- What is tested once the secrets are known.
unfoldable pub check_secrets : FlashSpec → Variables → Result FlashError (Unit {0})
unfolding bad_file takes_reserved check_secret
check_secrets spec secret_env = do
  reject_if (ltb 32 (length secret_env)) FlashError.secret_count
  reject_if (any bad_file spec.secret_files) FlashError.secret_file
  reject_if (is_some spec.task_role && takes_reserved spec.env secret_env) FlashError.reserved_env
  for_each (check_secret spec.env) secret_env

unfoldable pub bad_process_value : String → Bool
bad_process_value value = is_empty (bytes value) || (ltb 4096 (byte_len value) || has_nul value)

unfoldable pub validate_process_values : List String → ℕ → Result FlashError (Unit {0})
unfolding bad_process_value
validate_process_values values maximum_parts = do
  reject_if (ltb maximum_parts (length values)) FlashError.process_count
  reject_if (any bad_process_value values) FlashError.process_value

unfoldable pub check_metadata : Option ℕ → Result FlashError (Unit {0})
check_metadata none = err FlashError.metadata_json
check_metadata (some size) = reject_if (ltb 65536 size) FlashError.metadata_size

-- The environment and what follows it, in the order of `validate_inner`.
unfoldable pub validate_environment : FlashSpec → Result FlashError (Unit {0})
unfolding check_env effective_secret_env check_secrets validate_process_values check_metadata
validate_environment spec = do
  check_env spec.env
  secret_env ← effective_secret_env spec
  check_secrets spec secret_env
  validate_process_values spec.command 128
  validate_process_values spec.args 256
  check_metadata spec.metadata
