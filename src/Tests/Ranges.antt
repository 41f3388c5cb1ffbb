-- ===== src/Tests/Ranges.antt =====
-- A request for a range of a blob of two bytes.
use distribution_rs.Prelude.{ℕ, false, none, some, [], ◌∷◌, ◌≡◌, refl, ok, length, In, here, there}
use distribution_rs.Prelude.Text.{codes}
use distribution_rs.Api.Blobs.{
  partial_content, range_not_satisfiable, get_blob, get_parsed, serve_range,
}
use distribution_rs.Api.Blobs.Served.{IsServed, get_blob-IsServed}
use distribution_rs.Database.{RepoBlobLink}
use distribution_rs.Registry.{World}
use distribution_rs.Registry.Blobs.{find_link, is_link}
use distribution_rs.Registry.Code.{registry_code}
use distribution_rs.Storage.Paths.{blob_path}
use distribution_rs.Tests.Data.{alpine, body, body_digest, uploading}
use distribution_rs.Tests.ListEngine.{env}
use distribution_rs.Types.Digest.{to_string}
use distribution_rs.Types.Ids.{default_tenant}

abbrev link : RepoBlobLink
link = record { repo_id = 1; digest = to_string body_digest; size = 2 }

abbrev linked : World
linked = record {
  db = record uploading.db { tables = record uploading.db.tables { links = link ∷ [] } };
  fs = record { files = (blob_path body_digest, body) ∷ []; faults = [] };
}

only_link :
    (i : ℕ) (l : RepoBlobLink)
    → find_link env i (to_string body_digest) linked.db.tables ≡ some l
    → l.size ≡ length body
unfolding find_link
only_link i l e =
    go l
      ((env.sql.table RepoBlobLink).one_sound (is_link i (to_string body_digest)) (link ∷ []) l e).0
  where
    go : (l : RepoBlobLink) → In l (link ∷ []) → l.size ≡ length body
    go _ here = refl
    go l (there at) = elim at [ ]

past_the_end :
    (get_blob env default_tenant alpine body_digest (some (codes "bytes=2-")) linked).0
    ≡ ok (range_not_satisfiable 2)
unfolding get_blob get_parsed serve_range registry_code
past_the_end = refl

get_blob-IsServed_example :
    IsServed body_digest body [] 1 none
      (partial_content 1 1 2 1 body_digest (record { bytes = codes "}"; is_broken = false }))
unfolding get_blob get_parsed serve_range registry_code
get_blob-IsServed_example =
    get_blob-IsServed env default_tenant alpine body_digest (codes "bytes=1-") 1 none body linked
      (partial_content 1 1 2 1 body_digest (record { bytes = codes "}"; is_broken = false })) refl
      refl only_link refl
