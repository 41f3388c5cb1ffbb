-- ===== src/Tests/Data.antt =====
-- A world, a manifest and an upload for the examples.
use distribution_rs.Prelude.{false, [], ◌∷◌}
use distribution_rs.Prelude.Text.{Text, codes}
use distribution_rs.Database.{Tables, UploadSession}
use distribution_rs.Registry.{World}
use distribution_rs.Registry.Calls.{Call, put_manifest, delete_manifest}
use distribution_rs.Storage.Files.{Bytes, Reader, Fs}
use distribution_rs.Storage.Paths.{upload_path}
use distribution_rs.Tests.ListEngine.{pad}
use distribution_rs.Types.Digest.{Digest, sha256}
use distribution_rs.Types.Ids.{UploadId, default_tenant}
use distribution_rs.Types.Reference.{Reference, tag}
use distribution_rs.Types.RepoName.{RepoName}

abbrev pub no_tables : Tables
no_tables = record {
  repositories = [];
  links = [];
  manifests = [];
  tags = [];
  uploads = [];
  referrers = [];
  gc_jobs = [];
}

abbrev pub no_files : Fs
no_files = record { files = []; faults = [] }

abbrev pub new_world : World
new_world = record { db = record { tables = no_tables; faults = [] }; fs = no_files }

abbrev pub alpine : RepoName
alpine = record { as_str = codes "library/alpine" }

abbrev pub latest : Reference
latest = tag (record { as_str = codes "latest" })

abbrev pub body : Bytes
body = codes "{}"

abbrev pub body_digest : Digest
body_digest = record { algorithm = sha256; hex = pad 64 b'a' }

abbrev pub text_plain : Text
text_plain = codes "text/plain"

abbrev pub put_body : Call
put_body = put_manifest (codes "u") (codes "now") default_tenant alpine latest text_plain body

abbrev pub delete_body : Call
delete_body = delete_manifest default_tenant alpine body_digest

-- A session of the repository with an upload's file.
abbrev pub upload : UploadId
upload = record { as_uuid = 3 }

abbrev pub session : UploadSession
session = record {
  id = pad 3 b'u';
  repo_id = 1;
  offset = 2;
  created_at = codes "t";
  updated_at = codes "t";
}

abbrev pub uploading : World
uploading = record {
  db = record {
    tables = record no_tables {
      repositories =
          record { id = 1; tenant_id = codes "_default"; name = codes "library/alpine" } ∷ [];
      uploads = session ∷ [];
    };
    faults = [];
  };
  fs = record { files = (upload_path (pad 3 b'u'), body) ∷ []; faults = [] };
}

abbrev pub more : Reader
more = record { bytes = codes "[]"; is_broken = false }
