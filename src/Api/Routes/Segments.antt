-- ===== src/Api/Routes/Segments.antt =====
-- The last segment of a path is split off where it holds no slash.
use distribution_rs.Prelude.{
  ℕ, true, false, none, some, [], ◌∷◌, ◌++◌, ◌≡◌, refl, ap, ◌∙◌, ok, arith, Option-cases, inl, inr,
}
use distribution_rs.Prelude.Text.{Text, codes, strip_prefix, contains_char}
use distribution_rs.Api.Routes.{split_last, split_last_segment, both_parts, route, manifest}
use distribution_rs.Types.Ids.{Uuids}
use distribution_rs.Types.Digest.RoundTrip.{AllHex}
use distribution_rs.Types.TagName.{AllTag, IsTagName, name}
use distribution_rs.Types.Reference
use distribution_rs.Types.Reference.{Reference, tag, digest}
use distribution_rs.Types.Reference.RoundTrip as ReferenceRoundTrip
use distribution_rs.Types.Digest
use distribution_rs.Types.RepoName
use distribution_rs.Types.RepoName.{RepoName, validate_repo_name}

-- A text without a slash has no occurrence of a needle that begins with one.
split_last-no_slash : (p s : Text) → contains_char b'/' s ≡ false → split_last (b'/' ∷ p) s ≡ none
unfolding split_last strip_prefix contains_char
split_last-no_slash p [] h = refl
split_last-no_slash p (c ∷ s) h = ground (arith, split_last-no_slash p s)

-- What a prefix holds, the text holds.
prefix_contains :
    (p s r : Text)
    → strip_prefix p s ≡ some r
    → contains_char b'/' p ≡ true
    → contains_char b'/' s ≡ true
unfolding strip_prefix contains_char
prefix_contains [] s r e h = ground arith
prefix_contains (x ∷ p) [] r e h = ground arith
prefix_contains (x ∷ p) (c ∷ s) r e h = ground (arith, prefix_contains p s r)

no_prefix :
    (p s : Text)
    → contains_char b'/' p ≡ true
    → contains_char b'/' s ≡ false
    → strip_prefix p s ≡ none
no_prefix p s h h' = elim (Option-cases (strip_prefix p s)) [
  | inl e ↦ e
  | inr (r, e) ↦ let both : contains_char b'/' s ≡ true = prefix_contains p s r e h in cc
]

-- No occurrence begins at the slash that ends the needle.
split_last-at_slash :
    (p s : Text)
    → contains_char b'/' p ≡ true
    → contains_char b'/' s ≡ false
    → split_last (b'/' ∷ p) (b'/' ∷ s) ≡ none
unfolding split_last strip_prefix
split_last-at_slash p s h h' = rw (split_last-no_slash p s h', no_prefix p s h h')

-- The needle of the manifests.
abbrev pub manifests : Text
manifests = codes "/manifests/"

split_last-behind :
    (s : Text)
    → contains_char b'/' s ≡ false
    → split_last manifests (codes "manifests/" ++ s) ≡ none
unfolding split_last strip_prefix contains_char
split_last-behind s h = rw (split_last-at_slash (codes "manifests/") s refl h)

split_last-append :
    (before s : Text)
    → contains_char b'/' s ≡ false
    → split_last manifests (before ++ manifests ++ s) ≡ some (before, s)
unfolding split_last strip_prefix
split_last-append [] s h = rw (split_last-behind s h)
split_last-append (c ∷ before) s h = rw (split_last-append before s h)

contains_char-append :
    (s t : Text)
    → contains_char b'/' s ≡ false
    → contains_char b'/' t ≡ false
    → contains_char b'/' (s ++ t) ≡ false
unfolding contains_char
contains_char-append [] t h h' = h'
contains_char-append (c ∷ s) t h h' = ground (arith, contains_char-append s t)

AllHex-no-slash : (s : Text) → AllHex s → contains_char b'/' s ≡ false
unfolding contains_char
AllHex-no-slash [] h = refl
AllHex-no-slash (c ∷ s) h = ground (arith, AllHex-no-slash s)

AllTag-no-slash : (s : Text) → AllTag s → contains_char b'/' s ≡ false
unfolding contains_char
AllTag-no-slash [] h = refl
AllTag-no-slash (c ∷ s) h = ground (arith, AllTag-no-slash s)

tag-no-slash : {s : Text} → IsTagName s → contains_char b'/' s ≡ false
unfolding contains_char
tag-no-slash (name {c} {s} f t l) = ground (arith, AllTag-no-slash s)

as_str-no-slash : (a : Digest.DigestAlgorithm) → contains_char b'/' (Digest.as_str a) ≡ false
unfolding contains_char
as_str-no-slash Digest.sha256 = refl
as_str-no-slash Digest.sha512 = refl

reference-no-slash :
    (r : Reference)
    → ReferenceRoundTrip.IsValid r
    → contains_char b'/' (Reference.to_string r) ≡ false
unfolding Reference.to_string Digest.to_string contains_char
reference-no-slash (tag t) v = tag-no-slash v
reference-no-slash (digest d) v =
    contains_char-append (Digest.as_str d.algorithm) (b':' ∷ d.hex) (as_str-no-slash d.algorithm)
      (ground (arith, AllHex-no-slash d.hex v.all_hex))

-- A text of the printed reference is not empty.
reference-starts :
    (r : Reference)
    → ReferenceRoundTrip.IsValid r
    → (c : ℕ) × (s : Text) × (Reference.to_string r ≡ c ∷ s)
unfolding Reference.to_string Digest.to_string
reference-starts (tag t) v = starts v
  where
    starts : {x : Text} → IsTagName x → (c : ℕ) × (s : Text) × (x ≡ c ∷ s)
    starts (name {c} {s} f t l) = (c, s, refl)
reference-starts (digest d) v = go d.algorithm
  where
    go :
        (a : Digest.DigestAlgorithm)
        → (c : ℕ) × (s : Text) × (Digest.as_str a ++ b':' ∷ d.hex ≡ c ∷ s)
    go Digest.sha256 = (_, _, refl)
    go Digest.sha512 = (_, _, refl)

name_starts :
    (n : RepoName) → validate_repo_name n.as_str ≡ ok tt → (c : ℕ) × (s : Text) × (n.as_str ≡ c ∷ s)
unfolding validate_repo_name
name_starts n h = go n.as_str h
  where
    go : (x : Text) → validate_repo_name x ≡ ok tt → (c : ℕ) × (s : Text) × (x ≡ c ∷ s)
    go [] h = ground arith
    go (c ∷ s) h = (c, s, refl)

both_parts-eq-some :
    (a b : Text)
    → ((c : ℕ) × (s : Text) × (a ≡ c ∷ s))
    → ((c : ℕ) × (s : Text) × (b ≡ c ∷ s))
    → both_parts (some (a, b)) ≡ some (a, b)
both_parts-eq-some [] b (c, s, e) h = cc
both_parts-eq-some (x ∷ a) [] h (c, s, e) = cc
both_parts-eq-some (x ∷ a) (y ∷ b) h h' = refl

name_parsed :
    (n : RepoName) → validate_repo_name n.as_str ≡ ok tt → RepoName.try_from n.as_str ≡ ok n
unfolding RepoName.try_from
name_parsed n h = ground (arith, h)

-- The path of a manifest, printed from a valid name and a valid reference, is routed to that
-- manifest.
pub route-manifest :
    (uuids : Uuids) (n : RepoName) (r : Reference)
    → validate_repo_name n.as_str ≡ ok tt
    → ReferenceRoundTrip.IsValid r
    → route uuids (n.as_str ++ manifests ++ Reference.to_string r) ≡ some (ok (manifest n r))
unfolding route split_last_segment
route-manifest uuids n r valid v =
    let parts : both_parts (split_last manifests (n.as_str ++ manifests ++ Reference.to_string r))
        ≡ some (n.as_str, Reference.to_string r) =
      ap both_parts (split_last-append n.as_str (Reference.to_string r) (reference-no-slash r v))
      ∙ both_parts-eq-some n.as_str (Reference.to_string r) (name_starts n valid)
          (reference-starts r v) in
    rw (parts, name_parsed n valid, ReferenceRoundTrip.try_from-to_string r v)
