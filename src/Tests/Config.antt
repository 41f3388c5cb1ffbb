-- ===== src/Tests/Config.antt =====
-- The loading of the configuration from a table as a list of keys and values.
use distribution_rs.Prelude.{
  ℕ, Bool, Option, none, some, List, [], ◌∷◌, ◌≡◌, refl, inl, inr, Result, ok, err, if◌then◌else◌,
  map, ltb, ◌^◌,
}
use distribution_rs.Prelude.Text.{Text, codes, text_eq}
use distribution_rs.Config.{
  Toml, LoadError, invalid, filesystem, load, config, config_default, section, server_config,
  storage_config, database_config, auth_config,
}
use distribution_rs.Config.Unset.{load-Unset}

data Value : Type 0 where
  text_value : Text → Value
  bool_value : Bool → Value
  integer_value : ℕ → Value
  texts_value : List Text → Value

data Entry : Type 0 where
  plain : Text → Value → Entry
  header : Text → List (Text × Value) → Entry

abbrev find_plain : Text → List Entry → Option Value
find_plain k [] = none
find_plain k (plain j v ∷ t) = let rest = find_plain k t in if text_eq j k then some v else rest
find_plain k (header j t' ∷ t) = find_plain k t

abbrev find_header : Text → List Entry → Option (List Entry)
find_header k [] = none
find_header k (plain j v ∷ t) = find_header k t
find_header k (header j t' ∷ t) =
    let rest = find_header k t in if text_eq j k then some (map (λ (n, v). plain n v) t') else rest

abbrev as_text : Option Value → Result LoadError (Option Text)
as_text none = ok none
as_text (some (text_value s)) = ok (some s)
as_text (some _) = err invalid

abbrev as_bool : Option Value → Result LoadError (Option Bool)
as_bool none = ok none
as_bool (some (bool_value b)) = ok (some b)
as_bool (some _) = err invalid

abbrev as_integer : ℕ → Option Value → Result LoadError (Option ℕ)
as_integer w none = ok none
as_integer w (some (integer_value n)) = if ltb n (2 ^ w) then ok (some n) else err invalid
as_integer w (some _) = err invalid

abbrev as_texts : Option Value → Result LoadError (Option (List Text))
as_texts none = ok none
as_texts (some (texts_value ss)) = ok (some ss)
as_texts (some _) = err invalid

-- Two files: "[auth]", and one with a storage and a port.
abbrev listed : Toml (List Entry)
listed = record {
  from_str = λ content.
      if text_eq content (codes "[auth]")
      then some (header (codes "auth") [] ∷ [])
      else if text_eq content (codes "full")
      then some (
          header (codes "storage") (
            (codes "type", text_value (codes "filesystem"))
            ∷ (codes "root_dir", text_value (codes "/srv"))
            ∷ [])
          ∷ header (codes "server") ((codes "port", integer_value 8080) ∷ [])
          ∷ [])
      else if text_eq content (codes "port = 70000")
      then some (header (codes "server") ((codes "port", integer_value 70000) ∷ []) ∷ [])
      else none;
  table_at = λ k t. ok (find_header k t);
  text_at = λ k t. as_text (find_plain k t);
  bool_at = λ k t. as_bool (find_plain k t);
  integer_at = λ w k t. as_integer w (find_plain k t);
  texts_at = λ k t. as_texts (find_plain k t);
}

-- A file system in which each path holds its own text.
abbrev itself : Text → Option Text
itself path = some path

full_file :
    load listed itself (some (codes "full"))
    ≡ ok (record config_default {
      server = record config_default.server { port = 8080 };
      storage = filesystem (codes "/srv");
    })
unfolding load config section server_config storage_config database_config auth_config text_eq
full_file = refl

port_too_large : load listed itself (some (codes "port = 70000")) ≡ err invalid
unfolding load config section server_config storage_config database_config auth_config text_eq
port_too_large = refl

load-Unset_example : load listed itself (some (codes "[auth]")) ≡ load listed itself none
unfolding load text_eq
load-Unset_example =
    load-Unset listed itself (codes "[auth]") (codes "[auth]") (header (codes "auth") [] ∷ []) refl
      refl refl (inl refl) (inl refl)
      (inr ([], refl, ((λ k. refl), (λ k. refl), (λ w k. refl), λ k. refl)))
