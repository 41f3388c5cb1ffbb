-- ===== src/Api/Ranges/Bounds.antt =====
-- The range of a blob that is served lies within the blob and within what was asked for.
use distribution_rs.Prelude.{ℕ, ◌-◌, ◌≤◌, ◌<◌, Option, none, some, ◌≡◌, ◌↔◌, ◌⊎◌, arith}
use distribution_rs.Api.Ranges.{served_range}

-- The positions that a request asks for.
abbrev pub Asked : ℕ → Option ℕ → ℕ → Type 0
Asked start none i = start ≤ i
Asked start (some e) i = (start ≤ i) × (i ≤ e)

-- A range that is served is not empty, lies within the blob, and has just the positions that the
-- request asks for and the blob has.
pub served_range-Asked :
    (start : ℕ) (end_ : Option ℕ) (total first last : ℕ)
    → served_range start end_ total ≡ some (first, last)
    → (first ≤ last)
      × (last < total)
      × ((i : ℕ) → ((first ≤ i) × (i ≤ last)) ↔ (Asked start end_ i × (i < total)))
unfolding served_range
served_range-Asked start none total first last h =
    let f : (first ≡ start) × (last ≡ total - 1) × (start < total) = ground arith in
    (omega arith, omega arith, λ i. ground arith)
served_range-Asked start (some e) total first last h =
    let f : (first ≡ start)
        × (start < total)
        × (last < total)
        × (last ≤ e)
        × (start ≤ last)
        × ((last ≡ e) ⊎ (last ≡ total - 1)) =
      ground arith in
    (omega arith, omega arith, λ i. within i f)
  where
    within :
        (i : ℕ)
        → (first ≡ start)
          × (start < total)
          × (last < total)
          × (last ≤ e)
          × (start ≤ last)
          × ((last ≡ e) ⊎ (last ≡ total - 1))
        → ((first ≤ i) × (i ≤ last)) ↔ (((start ≤ i) × (i ≤ e)) × (i < total))
    within i f = ground arith

-- Where the answer is 416, each position that the request asks for lies behind the blob.
pub served_range-eq-none :
    (start : ℕ) (end_ : Option ℕ) (total i : ℕ)
    → served_range start end_ total ≡ none
    → Asked start end_ i
    → total ≤ i
unfolding served_range
served_range-eq-none start none total i h a = ground arith
served_range-eq-none start (some e) total i h a = ground arith
