-- ===== src/Api/Blobs.antt =====
-- src/api/blob.rs: the handlers of blobs. Headers and bodies are the fields of the answers.
pub mod Served
use distribution_rs.Prelude.{ℕ, ◌+◌, ◌-◌, Option, none, some}
use mathlib.Core.Option
use distribution_rs.Prelude.Text.{Text}
use distribution_rs.Exec.{pure, ◌>>=◌, ◌>>◌}
use distribution_rs.Api.Ranges.{parse_range_header, served_range}
use distribution_rs.Registry.{Env, Reg}
use distribution_rs.Registry.Blobs
use distribution_rs.Storage.Files.{Reader}
use distribution_rs.Types.Digest.{Digest}
use distribution_rs.Types.Ids.{TenantId}
use distribution_rs.Types.RepoName.{RepoName}

-- `range_not_satisfiable` has the total size; `partial_content` the first and the last position,
-- the total size and the length; `whole` and `head` the size.
pub data BlobAnswer : Type 0 where
  range_not_satisfiable : ℕ → BlobAnswer
  partial_content : (first last total length : ℕ) → Digest → Reader → BlobAnswer
  whole : ℕ → Digest → Reader → BlobAnswer
  head : ℕ → Digest → BlobAnswer
  accepted : BlobAnswer

module _ (env : Env) (tenant : TenantId) (name : RepoName) (digest : Digest) where
  unfoldable pub serve_range : ℕ → Option (ℕ × ℕ) → Reg BlobAnswer
  serve_range total none = pure (range_not_satisfiable total)
  serve_range total (some (first, last)) = do
    reader ← Blobs.get_blob_range env tenant name digest first (last - first + 1)
    pure (partial_content first last total (last - first + 1) digest reader)

  -- Behind the header: one that cannot be parsed is passed over.
  unfoldable pub get_parsed : Option (ℕ × Option ℕ) → Reg BlobAnswer
  unfolding served_range
  get_parsed (some (start, end_)) = do
    total_size ← Blobs.blob_head env tenant name digest
    serve_range total_size (served_range start end_ total_size)
  get_parsed none = do
    found ← Blobs.get_blob env tenant name digest
    pure (whole found.1 digest found.0)

  -- `range` is the value of the header `Range`, where it is visible ASCII.
  unfoldable pub get_blob : Option Text → Reg BlobAnswer
  unfolding parse_range_header
  get_blob range = get_parsed (Option.bind range parse_range_header)

  unfoldable pub head_blob : Reg BlobAnswer
  head_blob = do size ← Blobs.blob_head env tenant name digest; pure (head size digest)

  unfoldable pub delete_blob : Reg BlobAnswer
  delete_blob = do Blobs.delete_blob env tenant name digest; pure accepted
