-- ===== src/Error/Laws.antt =====
-- What a client can read off an error answer.
use distribution_rs.Prelude.{◌≤◌, ◌<◌, ◌≡◌, ◌⊎◌, refl, arith, inl, inr, [], ◌∷◌, map}
use distribution_rs.Error.{
  ErrorCode, ErrorEntry, RegistryError, oci, storage, database, status_code, into_response,
  oci_into_response, blob_unknown,
}

-- The status of an OCI error is one of a client error.
pub status_code_range : (c : ErrorCode) → (400 ≤ status_code c) × (status_code c < 430)
unfolding status_code
status_code_range c = ground arith

-- The storage or the database failed.
abbrev pub IsInternal : RegistryError → Type 0
IsInternal (oci _) = ⊥
IsInternal (storage _) = Unit
IsInternal (database _) = Unit

-- Where the storage or the database failed, the status of the answer is 500 and its code is
-- BLOB_UNKNOWN; where an OCI error was raised, the status is one of a client error, from 400 to 429.
pub into_response-status :
    (e : RegistryError)
    → (IsInternal e
        × ((into_response e).status ≡ 500)
        × (map (λ (x : ErrorEntry). x.code) (into_response e).errors ≡ blob_unknown ∷ []))
      ⊎ ((¬ IsInternal e) × (400 ≤ (into_response e).status) × ((into_response e).status < 430))
unfolding into_response oci_into_response
into_response-status (oci x) =
    inr ((λ bad. bad), (status_code_range x.code).0, (status_code_range x.code).1)
into_response-status (storage _) = inl (tt, refl, refl)
into_response-status (database _) = inl (tt, refl, refl)
