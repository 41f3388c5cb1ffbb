-- ===== src/Prelude/Text.antt =====
-- Rust's `&str` as the list of its characters (Unicode scalar values), and the parts of `str`
-- that the crate uses. `len` and the first byte are those of the UTF-8 encoding.
use Prim.Native.Char.{code}
use Prim.Native.Nat.{ℕ, ◌+◌, ◌/◌}
use Prim.Native.String.{String}
use mathlib.Core.Path.{◌≡◌, refl}
use mathlib.Core.Logic.{◌↔◌}
use mathlib.Core.Bool.{Bool, true, false, ◌&&◌, ◌||◌}
use mathlib.Core.Option.{Option, none, some}
use mathlib.Core.List.{List, [], ◌∷◌, ◌++◌}
use native.Mathlib.Omega.{arith}
use distribution_rs.Prelude.Tests.{ltb, leb, ◌==◌, if◌then◌else◌}

abbrev pub Text : Type 0
Text = List ℕ

-- The text of a literal.
abbrev pub codes : String → Text
codes String.[] = []
codes (String.◌∷◌ c s) = code c ∷ codes s

abbrev pub utf8_len : ℕ → ℕ
utf8_len c = if ltb c 0x80 then 1 else if ltb c 0x800 then 2 else if ltb c 0x1_0000 then 3 else 4

-- `str::len`, in bytes
unfoldable pub len : Text → ℕ
len [] = 0
len (c ∷ s) = utf8_len c + len s

-- The first byte of a character's encoding, as `as_bytes()[0]` reads it.
abbrev pub lead_byte : ℕ → ℕ
lead_byte c =
    if ltb c 0x80
    then c
    else if ltb c 0x800
    then 0xC0 + c / 0x40
    else if ltb c 0x1_0000
    then 0xE0 + c / 0x1000
    else 0xF0 + c / 0x4_0000

abbrev pub is_ascii_lowercase : ℕ → Bool
is_ascii_lowercase c = leb b'a' c && leb c b'z'

abbrev pub is_ascii_uppercase : ℕ → Bool
is_ascii_uppercase c = leb b'A' c && leb c b'Z'

abbrev pub is_ascii_digit : ℕ → Bool
is_ascii_digit c = leb b'0' c && leb c b'9'

abbrev pub is_ascii_alphanumeric : ℕ → Bool
is_ascii_alphanumeric c = is_ascii_lowercase c || is_ascii_uppercase c || is_ascii_digit c

abbrev pub is_ascii_hexdigit : ℕ → Bool
is_ascii_hexdigit c = is_ascii_digit c || (leb b'a' c && leb c b'f') || (leb b'A' c && leb c b'F')

-- `==` on texts
unfoldable pub text_eq : Text → Text → Bool
text_eq [] [] = true
text_eq (c ∷ s) (d ∷ t) = (c == d) && text_eq s t
text_eq _ _ = false

pub text_eq_iff : (s t : Text) → (text_eq s t ≡ true) ↔ (s ≡ t)
unfolding text_eq
text_eq_iff (c ∷ s) (d ∷ t) = ground (arith, text_eq_iff s t)
text_eq_iff _ _ = ground arith

-- The test that a row has a number and a text as its key.
pub key_iff : (i j : ℕ) (s t : Text) → (((i == j) && text_eq s t) ≡ true) ↔ ((i ≡ j) × (s ≡ t))
key_iff i j s t = ground (arith, text_eq_iff s t)

pub text_eq_refl : (s : Text) → text_eq s s ≡ true
text_eq_refl s = (text_eq_iff s s).1 refl

-- `str::strip_prefix`
unfoldable pub strip_prefix : Text → Text → Option Text
strip_prefix [] s = some s
strip_prefix (p ∷ ps) [] = none
strip_prefix (p ∷ ps) (c ∷ s) = let rest = strip_prefix ps s in if p == c then rest else none

unfoldable pub starts_with_char : ℕ → Text → Bool
starts_with_char d [] = false
starts_with_char d (c ∷ s) = c == d

unfoldable pub ends_with_char : ℕ → Text → Bool
ends_with_char d [] = false
ends_with_char d (c ∷ []) = c == d
ends_with_char d (c ∷ e ∷ s) = ends_with_char d (e ∷ s)

unfoldable pub contains_char : ℕ → Text → Bool
contains_char d [] = false
contains_char d (c ∷ s) = (c == d) || contains_char d s

-- `contains` of two characters in a row
unfoldable pub contains_pair : ℕ → ℕ → Text → Bool
contains_pair a b [] = false
contains_pair a b (c ∷ []) = false
contains_pair a b (c ∷ d ∷ s) = ((c == a) && (d == b)) || contains_pair a b (d ∷ s)

abbrev before_cons : ℕ → Option (Text × Text) → Option (Text × Text)
before_cons c none = none
before_cons c (some (a, b)) = some (c ∷ a, b)

-- `split_once` at a character: at its first occurrence
unfoldable pub split_once : ℕ → Text → Option (Text × Text)
split_once d [] = none
split_once d (c ∷ s) = if c == d then some ([], s) else before_cons c (split_once d s)

pub split_once-eq-some :
    (d : ℕ) (s a b : Text)
    → split_once d s ≡ some (a, b)
    → (s ≡ a ++ d ∷ b) × (contains_char d a ≡ false)
unfolding split_once contains_char
split_once-eq-some d [] a b h = cc
split_once-eq-some d (c ∷ s) [] b h = ground arith
split_once-eq-some d (c ∷ s) (x ∷ a) b h = ground (arith, split_once-eq-some d s a b)

pub split_once-append :
    (d : ℕ) (a b : Text) → contains_char d a ≡ false → split_once d (a ++ d ∷ b) ≡ some (a, b)
unfolding split_once contains_char
split_once-append d [] b h = ground arith
split_once-append d (c ∷ a) b h = ground (arith, split_once-append d a b)

pub split_once-eq-none : (d : ℕ) (s : Text) → split_once d s ≡ none → contains_char d s ≡ false
unfolding split_once contains_char
split_once-eq-none d [] h = refl
split_once-eq-none d (c ∷ s) h = ground (arith, split_once-eq-none d s)

pub split_once-none : (d : ℕ) (s : Text) → contains_char d s ≡ false → split_once d s ≡ none
unfolding split_once contains_char
split_once-none d [] h = refl
split_once-none d (c ∷ s) h = ground (arith, split_once-none d s)
