-- ===== src/Api/Ranges.antt =====
-- src/api/blob.rs and src/api/upload.rs: the numbers of the range headers.
pub mod Bounds
use distribution_rs.Prelude.{
  ℕ, zero, suc, ◌+◌, ◌-◌, ◌*◌, ◌^◌, Bool, true, false, ◌&&◌, ◌||◌, Option, none, some, [], ◌∷◌,
  if◌then◌else◌, ltb, leb, ◌==◌,
}
use mathlib.Core.Option
use distribution_rs.Prelude.Text.{Text, codes, strip_prefix, split_once, is_ascii_digit}

-- The digits of a number behind those of `acc`; `none` where one is no digit or the number leaves
-- a `u64`.
unfoldable pub parse_digits : ℕ → Text → Option ℕ
parse_digits acc [] = some acc
parse_digits acc (c ∷ s) =
    let acc' = acc * 10 + (c - 48) in
    let rest = parse_digits acc' s in if is_ascii_digit c && ltb acc' (2 ^ 64) then rest else none

-- `str::parse::<u64>`, which takes a sign `+` too
unfoldable pub parse_u64 : Text → Option ℕ
unfolding parse_digits
parse_u64 [] = none
parse_u64 (c ∷ []) = if is_ascii_digit c then some (c - 48) else none
parse_u64 (c ∷ d ∷ s) = if c == b'+' then parse_digits 0 (d ∷ s) else parse_digits 0 (c ∷ d ∷ s)

-- The last position, where the text is not empty; a text that is no number counts as empty.
unfoldable pub parse_end : Text → Option ℕ
unfolding parse_u64
parse_end [] = none
parse_end (c ∷ s) = parse_u64 (c ∷ s)

-- `parse_range_header`
unfoldable pub parse_range_header : Text → Option (ℕ × Option ℕ)
unfolding strip_prefix split_once parse_u64 parse_end
parse_range_header s = Option.bind (strip_prefix (codes "bytes=") s) λ bytes.
    Option.bind (split_once b'-' bytes)
      λ parts. Option.map (λ start. (start, parse_end parts.1)) (parse_u64 parts.0)

-- What precedes the first `-`, or the whole text: the first part of `split`.
unfoldable pub before_dash : Text → Text
before_dash [] = []
before_dash (c ∷ s) = let rest = before_dash s in if c == b'-' then [] else c ∷ rest

-- `parse_content_range_start`
unfoldable pub parse_content_range_start : Text → Option ℕ
unfolding before_dash parse_u64
parse_content_range_start s = parse_u64 (before_dash s)

-- The two numbers that `range_header` prints.
unfoldable pub range_header : ℕ → ℕ × ℕ
range_header next_offset = if next_offset == 0 then (0, 0) else (0, next_offset - 1)

-- `end.map_or(total_size - 1, |e| e.min(total_size - 1))`
abbrev pub last_byte : Option ℕ → ℕ → ℕ
last_byte none total = total - 1
last_byte (some e) total = if leb e (total - 1) then e else total - 1

-- The first and the last position that are served of a blob; `none` is the answer 416.
unfoldable pub served_range : ℕ → Option ℕ → ℕ → Option (ℕ × ℕ)
served_range start end_ total =
    if (total == 0) || leb total start
    then none
    else if ltb (last_byte end_ total) start
    then none
    else some (start, last_byte end_ total)
