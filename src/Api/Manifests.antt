-- ===== src/Api/Manifests.antt =====
-- src/api/manifest.rs: the handlers of manifests. Headers and bodies are the fields of the answers.
use distribution_rs.Prelude.{ℕ, ◌*◌, Option, none, some, length}
use distribution_rs.Prelude.Text.{Text, codes}
use distribution_rs.Api.Requests.{HttpRequest, Draws, Web}
use distribution_rs.Error.{RegistryError, oci, detailed, manifest_invalid, body_error}
use distribution_rs.Exec.{pure, from_option, ◌>>=◌, ◌>>◌}
use distribution_rs.Registry.{Env, Reg}
use distribution_rs.Registry.Manifests
use distribution_rs.Storage.Files.{Bytes}
use distribution_rs.Types.Digest.{Digest}
use distribution_rs.Types.Ids.{TenantId}
use distribution_rs.Types.Reference.{Reference}
use distribution_rs.Types.RepoName.{RepoName}

-- `found` has the media type, the length, the digest and the body; `head` has no body; `created` the
-- location, the digest and the subject.
pub data ManifestAnswer : Type 0 where
  found : Text → ℕ → Digest → Bytes → ManifestAnswer
  head : Text → ℕ → Digest → ManifestAnswer
  created : RepoName → Digest → Option Text → ManifestAnswer
  accepted : ManifestAnswer

-- The media type of a manifest whose request has none.
abbrev pub media_type_of : Option Text → Text
media_type_of none = codes "application/vnd.oci.image.manifest.v1+json"
media_type_of (some t) = t

-- The limit on the body, 10 MiB.
abbrev pub body_limit : ℕ
body_limit = 10 * 1024 * 1024

abbrev pub invalid_body : RegistryError
invalid_body = oci (detailed manifest_invalid body_error)

module _ (env : Env) (tenant : TenantId) (name : RepoName) where
  unfoldable pub get_manifest : Text → Reference → Reg ManifestAnswer
  get_manifest now reference = do
    read ← Manifests.get_manifest env now tenant name reference
    pure (found read.1 (length read.0) read.2 read.0)

  unfoldable pub head_manifest : Reference → Reg ManifestAnswer
  head_manifest reference = do
    read ← Manifests.head_manifest env tenant name reference
    pure (head read.0 read.2 read.1)

  unfoldable pub put_manifest : Web → Draws → Reference → HttpRequest → Reg ManifestAnswer
  put_manifest web draws reference req = do
    body_bytes ← from_option (web.to_bytes req.body body_limit) invalid_body
    put ←
        Manifests.put_manifest env draws.uuid draws.now tenant name reference
          (media_type_of req.content_type) body_bytes
    pure (created name put.0 put.1)

  unfoldable pub delete_manifest : Digest → Reg ManifestAnswer
  delete_manifest digest = do Manifests.delete_manifest env tenant name digest; pure accepted
