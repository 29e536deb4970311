-- ===== src/Tmdb/Ranges.antt =====
-- The ranges of internal/tmdb/resolver.go, by which the episodes of a title are numbered at TMDB. A map of
-- ranges is the list of its entries, in the order of Go's iteration. An episode number that is not positive
-- is 0.
pub mod Parsing
pub mod Aligned
use aniraku_backend.Base.{
  ltb, leb, ◌==◌, if◌then◌else◌, any, Text, text_eq, trim_space, cut, split, digits, atoi, ℕ, zero,
  suc, ◌+◌, ◌-◌, ◌^◌, Bool, true, false, not, ◌&&◌, ◌||◌, Option, none, some, List, [], ◌∷◌,
}

-- `none` is an open end.
pub record Rng : Type 0 where
  pub start : ℕ
  pub end : Option ℕ

abbrev pub max_int : ℕ
max_int = 2 ^ 63 - 1

-- `strconv.Atoi` of digits, whose error is ignored: past the word it gives the largest integer.
unfoldable pub clamped : ℕ → ℕ
clamped n = if ltb max_int n then max_int else n

-- A number of one digit or more.
unfoldable pub number : Text → Option ℕ
unfolding digits text_eq clamped
number s =
    if text_eq s [] then none else elim (digits 0 s) [ none ↦ none | some n ↦ some (clamped n) ]

unfoldable pub closed_rng : ℕ → ℕ → Option Rng
closed_rng start end =
    if start == 0 || ltb end start then none else some (record { start = start; end = some end })

unfoldable pub open_rng : ℕ → Option Rng
open_rng start = if start == 0 then none else some (record { start = start; end = none })

-- `parseRange`: the match of `^(\d+)(?:-(\d*)?)?$`, and a number alone stands for itself.
unfoldable pub parse_trimmed : Text → Option Rng
unfolding cut number closed_rng open_rng text_eq
parse_trimmed s = elim (cut b'-' s) [
  | none ↦ elim (number s) [ none ↦ none | some n ↦ closed_rng n n ]
  | some (front, back) ↦ elim (number front) [
    | none ↦ none
    | some n ↦
        if text_eq back []
        then open_rng n
        else elim (number back) [ none ↦ none | some m ↦ closed_rng n m ]
  ]
]

unfoldable pub parse_range : Text → Option Rng
unfolding parse_trimmed trim_space
parse_range s = parse_trimmed (trim_space s)

-- Whether the range has the episode.
unfoldable pub has_episode : Rng → ℕ → Bool
has_episode r n = leb r.start n && elim r.end [ none ↦ true | some end ↦ leb n end ]

unfoldable pub rng_length : Rng → ℕ
rng_length r = elim r.end [ none ↦ 2 ^ 30 | some end ↦ end - r.start + 1 ]

-- The loop over the target's ranges. The sum is not wrapped, which matters only at an open range that
-- starts within 2^30 of the largest integer.
unfoldable pub walk_targets : ℕ → List Text → Option ℕ
unfolding parse_range rng_length trim_space
walk_targets offset [] = none
walk_targets offset (t ∷ ts) = elim (parse_range (trim_space t)) [
  | none ↦ walk_targets offset ts
  | some r ↦
      if ltb offset (rng_length r)
      then some (r.start + offset)
      else walk_targets (offset - rng_length r) ts
]

-- The flag behind a bar is a number other than 1.
unfoldable pub is_scaled : Text → Bool
unfolding atoi trim_space
is_scaled flag = elim (atoi (trim_space flag)) [
  | none ↦ false
  | some (negative, n) ↦ negative || not (n == 1)
]

-- The target of an episode in an entry that has it.
unfoldable pub target_of : Rng → Text → ℕ → Option ℕ
unfolding cut is_scaled walk_targets split trim_space
target_of src target n = elim (cut b'|' (trim_space target)) [
  | none ↦ walk_targets (n - src.start) (split b',' (trim_space (trim_space target)))
  | some (front, flag) ↦
      if is_scaled flag then none else walk_targets (n - src.start) (split b',' (trim_space front))
]

-- The source range of an entry, if it has the episode.
unfoldable pub matching : Text → ℕ → Option Rng
unfolding parse_range has_episode
matching src n = elim (parse_range src) [
  | none ↦ none
  | some r ↦ if has_episode r n then some r else none
]

-- `mapEpisodeNumber`: the first entry that has the episode decides.
unfoldable pub map_episode_number : List (Text × Text) → ℕ → Option ℕ
unfolding matching target_of
map_episode_number ranges zero = none
map_episode_number [] (suc n) = none
map_episode_number ((src, target) ∷ ranges) (suc n) = elim (matching src (suc n)) [
  | none ↦ map_episode_number ranges (suc n)
  | some r ↦ target_of r target (suc n)
]

-- The offset and the last source episode, where both ranges are closed, the source starts at 1, and the ends
-- are as far apart as the starts.
unfoldable pub aligned_rngs : Rng → Rng → Option (ℕ × ℕ)
aligned_rngs s t = if not (s.start == 1) then none else elim s.end [
  | none ↦ none
  | some s_end ↦ elim t.end [
    | none ↦ none
    | some t_end ↦ if t_end == s_end + (t.start - 1) then some (t.start - 1, s_end) else none
  ]
]

unfoldable pub without_flag : Text → Text
unfolding cut
without_flag target = elim (cut b'|' target) [ none ↦ target | some (front, flag) ↦ front ]

unfoldable pub aligned_entry : Text → Text → Option (ℕ × ℕ)
unfolding parse_range without_flag trim_space aligned_rngs
aligned_entry src target = elim (parse_range src) [
  | none ↦ none
  | some s ↦ elim (parse_range (trim_space (without_flag target))) [
    | none ↦ none
    | some t ↦ aligned_rngs s t
  ]
]

-- The loop, by the offset so far and the largest source episode.
unfoldable pub identity_aligned_from : Option ℕ → ℕ → List (Text × Text) → Option (ℕ × ℕ)
unfolding aligned_entry
identity_aligned_from offset max_end [] = elim offset [ none ↦ none | some o ↦ some (o, max_end) ]
identity_aligned_from offset max_end ((src, target) ∷ ranges) = elim (aligned_entry src target) [
  | none ↦ none
  | some (off, end) ↦
      if elim offset [ none ↦ true | some o ↦ off == o ]
      then identity_aligned_from (some off) (if ltb max_end end then end else max_end) ranges
      else none
]

unfoldable pub identity_aligned_continuation : List (Text × Text) → Option (ℕ × ℕ)
unfolding identity_aligned_from
identity_aligned_continuation ranges = identity_aligned_from none 0 ranges

unfoldable pub is_open_source : Text → ℕ → Bool
unfolding parse_range
is_open_source src n = elim (parse_range src) [
  | none ↦ false
  | some r ↦ elim r.end [ none ↦ leb r.start n | some end ↦ false ]
]

unfoldable pub has_open_ended_source_range : List (Text × Text) → ℕ → Bool
unfolding is_open_source
has_open_ended_source_range ranges n =
    not (n == 0) && any (λ (e : Text × Text). is_open_source e.0 n) ranges

unfoldable pub looks_like_ranges : List (Text × Text) → Bool
unfolding parse_range
looks_like_ranges ranges =
    any (λ (e : Text × Text). elim (parse_range e.0) [ none ↦ false | some r ↦ true ]) ranges

-- The inner loop of `openEndedTargetStart`.
unfoldable pub lower_start : ℕ → List Text → ℕ
unfolding parse_range trim_space
lower_start start [] = start
lower_start start (t ∷ ts) =
    lower_start
      (elim (parse_range (trim_space t)) [
        | none ↦ start
        | some r ↦ elim r.end [
          | none ↦ if leb 1 r.start && (start == 1 || ltb r.start start) then r.start else start
          | some end ↦ start
        ]
      ])
      ts

unfoldable pub open_ended_from : ℕ → List (Text × Text) → ℕ
unfolding lower_start is_open_source without_flag split trim_space parse_range
open_ended_from start [] = start
open_ended_from start ((src, target) ∷ ranges) =
    open_ended_from
      (elim (parse_range src) [
        | none ↦ start
        | some r ↦ elim r.end [
          | none ↦ lower_start start (split b',' (trim_space (without_flag (trim_space target))))
          | some end ↦ start
        ]
      ])
      ranges

unfoldable pub open_ended_target_start : List (Text × Text) → ℕ
unfolding open_ended_from
open_ended_target_start ranges =
    let start = open_ended_from 1 ranges in if ltb start 1 then 1 else start
