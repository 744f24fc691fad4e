-- ===== src/Domain/Names.antt =====
-- The names that crates/heterocloud-domain accepts, by their UTF-8 bytes.
pub mod Labels
use ipa_rs_hetero_cloud.Prelude.{
  ℕ, String, Bool, true, false, not, ◌&&◌, ◌||◌, List, [], ◌∷◌, leb, ◌==◌, length, is_empty, all,
  get_first?, get_last?, is_some_and, bytes, is_ascii_lowercase, is_ascii_digit,
  is_ascii_alphabetic, is_ascii_alphanumeric,
}

-- `byte.is_ascii_lowercase() || byte.is_ascii_digit() || byte == b'-'`
unfoldable pub label_byte : ℕ → Bool
label_byte byte = is_ascii_lowercase byte || is_ascii_digit byte || byte == b'-'

-- On bytes; `valid_private_name` and the functions below apply these to the UTF-8 of the name.
unfoldable pub private_name : List ℕ → Bool
unfolding label_byte
private_name value =
    not (is_empty value)
    && (leb (length value) 63
        && (is_some_and is_ascii_lowercase (get_first? value)
            && (is_some_and is_ascii_alphanumeric (get_last? value) && all label_byte value)))

unfoldable pub valid_private_name : String → Bool
unfolding private_name
valid_private_name value = private_name (bytes value)

unfoldable pub flash_port_name : List ℕ → Bool
unfolding label_byte
flash_port_name name =
    not (is_empty name)
    && (leb (length name) 63
        && (is_some_and is_ascii_lowercase (get_first? name)
            && (is_some_and (λ byte. is_ascii_lowercase byte || is_ascii_digit byte)
                  (get_last? name)
                && all label_byte name)))

unfoldable pub valid_flash_port_name : String → Bool
unfolding flash_port_name
valid_flash_port_name name = flash_port_name (bytes name)

unfoldable pub flash_gpu_type : List ℕ → Bool
unfolding label_byte
flash_gpu_type gpu_type =
    not (is_empty gpu_type)
    && (leb (length gpu_type) 63
        && (all label_byte gpu_type
            && (not (is_some_and (λ b. b == b'-') (get_first? gpu_type))
                && not (is_some_and (λ b. b == b'-') (get_last? gpu_type)))))

unfoldable pub valid_flash_gpu_type : String → Bool
unfolding flash_gpu_type
valid_flash_gpu_type gpu_type = flash_gpu_type (bytes gpu_type)

unfoldable pub flash_env_name : List ℕ → Bool
flash_env_name name =
    not (is_empty name)
    && (leb (length name) 253
        && (is_some_and (λ byte. is_ascii_alphabetic byte || byte == b'_') (get_first? name)
            && all (λ byte. is_ascii_alphanumeric byte || byte == b'_') name))

unfoldable pub valid_flash_env_name : String → Bool
unfolding flash_env_name
valid_flash_env_name name = flash_env_name (bytes name)
