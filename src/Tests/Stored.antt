-- ===== src/Tests/Stored.antt =====
-- What was put is got, at a concrete world.
use distribution_rs.Prelude.{none, ◌≡◌, refl, ok}
use distribution_rs.Prelude.Text.{codes}
use distribution_rs.Registry.Code.{registry_code}
use distribution_rs.Registry.Manifests
use distribution_rs.Registry.Stored.Get.{put_manifest-get_manifest}
use distribution_rs.Tests.Data.{new_world, alpine, body, body_digest, text_plain}
use distribution_rs.Tests.ListEngine.{env}
use distribution_rs.Types.Ids.{default_tenant}
use distribution_rs.Types.Reference.{tag}
use distribution_rs.Types.TagName.{TagName}

abbrev newest : TagName
newest = record { as_str = codes "latest" }

put_manifest-get_manifest_example :
    let w' =
      (Manifests.put_manifest env
        (codes "u")
        (codes "t")
        default_tenant
        alpine
        (tag newest)
        text_plain
        body
        new_world).1 in
    (body_digest ≡ body_digest)
    × ((Manifests.get_manifest env (codes "s") default_tenant alpine (tag newest) w').0
        ≡ ok (body, text_plain, body_digest))
unfolding registry_code
put_manifest-get_manifest_example =
    put_manifest-get_manifest env default_tenant alpine newest (codes "u") (codes "t") (codes "s")
      text_plain body new_world (body_digest, none) (λ x bad. cc) refl refl refl
