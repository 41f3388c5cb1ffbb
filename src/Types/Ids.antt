-- ===== src/Types/Ids.antt =====
-- src/types.rs, `UploadId` and `TenantId`.
use distribution_rs.Prelude.{ℕ, Option, none, some, [], ◌∷◌, ◌≡◌, Result, ok, err}
use distribution_rs.Prelude.Text.{Text, codes}
use distribution_rs.Types.Error.{
  TypesError, invalid_upload_id, invalid_tenant_id, uuid_error, empty,
}

-- The `uuid` crate: a UUID is a 128-bit number. Its `Display` is read back by `parse_str`, which
-- the crate documents.
pub record Uuids : Type 0 where
  pub uuid_to_string : ℕ → Text
  pub parse_str : Text → Option ℕ
  pub parse_str-uuid_to_string : (u : ℕ) → parse_str (uuid_to_string u) ≡ some u

-- `UploadId` wraps a UUID.
pub record UploadId : Type 0 where
  pub as_uuid : ℕ

module _ (uuids : Uuids) where
  open uuids use {uuid_to_string, parse_str}

  -- `UploadId::try_from`, which `from_str` and `deserialize` call
  unfoldable pub upload_id : Text → Result TypesError UploadId
  upload_id s = elim (parse_str s) [
    | some uuid ↦ ok (record { as_uuid = uuid })
    | none ↦ err (invalid_upload_id uuid_error)
  ]

  -- `Display` of `UploadId`
  unfoldable pub upload_id_to_string : UploadId → Text
  upload_id_to_string id = uuid_to_string id.as_uuid

-- `TenantId` wraps its text.
pub record TenantId : Type 0 where
  pub as_str : Text

abbrev pub default_tenant : TenantId
default_tenant = record { as_str = codes "_default" }

-- `TenantId::try_from`, which `from_str` and `deserialize` call
unfoldable pub tenant_id : Text → Result TypesError TenantId
tenant_id [] = err (invalid_tenant_id empty)
tenant_id (c ∷ s) = ok (record { as_str = c ∷ s })
