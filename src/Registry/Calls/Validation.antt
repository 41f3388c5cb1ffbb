-- ===== src/Registry/Calls/Validation.antt =====
-- src/registry.rs: the validation of a manifest only reads.
use distribution_rs.Prelude.{ℕ, Option, none, some, List, [], ◌∷◌}
use distribution_rs.Prelude.Text.{Text}
use distribution_rs.Error.{RegistryError}
use distribution_rs.Exec.{pure, raise}
use distribution_rs.Exec.Keeps.{Keeps, Keeps-bind, Keeps-raise, Keeps-pure, keeps_rules}
use distribution_rs.Database.{Tables, Manifest, RepoBlobLink, select}
use distribution_rs.Registry.{World, Env, on_db}
use distribution_rs.Registry.Manifests
use distribution_rs.Storage.Files.{Bytes}

-- A property of worlds that all queries keep.
module _ (env : Env) (W : World → Type 0)
    (queries : (A : Type 0) (f : Tables → A) → Keeps W (on_db (select f))) where
  Keeps-require_part : (i : ℕ) (d : Text) → Keeps W (Manifests.require_part env i d)
  unfolding Manifests.require_part
  Keeps-require_part i d = Keeps-bind _ _ (search (keeps_rules, queries)) seen
    where
      seen :
          (o : Option RepoBlobLink)
          → Keeps {E = RegistryError} {A = Unit {0}} W
              (elim o [ none ↦ raise (Manifests.unknown_part d) | some _ ↦ pure tt ])
      seen none = Keeps-raise _
      seen (some l) = Keeps-pure tt

  Keeps-require_parts : (i : ℕ) (ds : List Text) → Keeps W (Manifests.require_parts env i ds)
  unfolding Manifests.require_parts
  Keeps-require_parts i [] = search keeps_rules
  Keeps-require_parts i (d ∷ ds) =
      Keeps-bind _ _ (Keeps-require_part i d) λ _. Keeps-require_parts i ds

  Keeps-require_manifests :
      (i : ℕ) (ds : List Text) → Keeps W (Manifests.require_manifests env i ds)
  unfolding Manifests.require_manifests
  Keeps-require_manifests i [] = search keeps_rules
  Keeps-require_manifests i (d ∷ ds) =
      Keeps-bind _ _ (search (keeps_rules, queries)) (seen (Keeps-require_manifests i ds))
    where
      seen :
          Keeps W (Manifests.require_manifests env i ds)
          → (o : Option Manifest)
          → Keeps {E = RegistryError} {A = Unit {0}} W (elim o [
            | none ↦ raise (Manifests.unknown_part d)
            | some _ ↦ Manifests.require_manifests env i ds
          ])
      seen k none = Keeps-raise _
      seen k (some m) = k

  pub Keeps-validate_manifest_references :
      (i : ℕ) (b : Bytes) (m : Text) → Keeps W (Manifests.validate_manifest_references env i b m)
  unfolding Manifests.validate_manifest_references
  Keeps-validate_manifest_references i b m =
      search (keeps_rules, Keeps-require_parts, Keeps-require_manifests) depth 8
