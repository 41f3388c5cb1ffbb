-- ===== src/Types/Error.antt =====
-- src/types.rs, `TypesError`. A message is a constructor with the values that its text shows.
use distribution_rs.Prelude.{ℕ}
use distribution_rs.Prelude.Text.{Text}

pub data Message : Type 0 where
  -- "must not be empty", "must be at most {n} characters"
  empty : Message
  at_most : ℕ → Message
  -- "must not start or end with '/'", "must not contain consecutive '//'"
  slash_at_end double_slash : Message
  -- "first character must be …", "invalid character '{ch}'"
  first_character : Message
  invalid_character : ℕ → Message
  -- "must contain exactly one ':'", "unsupported algorithm '{alg}'"
  one_colon : Message
  unsupported_algorithm : Text → Message
  -- "{alg} hex must be {expected} characters, got {len}"
  hex_length : Text → ℕ → ℕ → Message
  -- "hex must be lowercase hexadecimal, found '{ch}'"
  hex_character : ℕ → Message
  -- the text of the error of the `uuid` crate
  uuid_error : Message

pub data TypesError : Type 0 where
  invalid_repo_name invalid_digest invalid_tag_name : Message → TypesError
  invalid_reference : TypesError → TypesError
  invalid_upload_id invalid_tenant_id : Message → TypesError
