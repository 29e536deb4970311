-- ===== src/Tmdb/Mappings.antt =====
-- The mappings of internal/tmdb/resolver.go from a title to shows and movies at TMDB.
use aniraku_backend.Base.{
  ltb, ◌==◌, if◌then◌else◌, Text, codes, decimal, ℕ, ◌+◌, Bool, true, Option, none, some, List, [],
  ◌∷◌, ◌++◌,
}
use aniraku_backend.Tmdb.Ranges.{parse_range, map_episode_number}

pub data MappingType : Type 0 where
  tv movie : MappingType

pub record TmdbMapping : Type 0 where
  pub type : MappingType
  pub show_id : ℕ
  pub season_number : ℕ
  pub movie_id : ℕ
  pub ranges : List (Text × Text)
  pub tmdb_number : Option ℕ

-- The mappings that number the episode, with their numbers.
unfoldable pub candidates : List TmdbMapping → ℕ → List TmdbMapping
unfolding map_episode_number
candidates [] n = []
candidates (m ∷ mappings) n =
    let rest = candidates mappings n in
    elim (map_episode_number m.ranges n) [
      | none ↦ rest
      | some k ↦ record m { tmdb_number = some k } ∷ rest
    ]

unfoldable pub only_one : List TmdbMapping → Option TmdbMapping
only_one (m ∷ []) = some m
only_one ms = none

unfoldable pub select_tmdb_mapping_for_episode : List TmdbMapping → ℕ → Option TmdbMapping
unfolding candidates only_one
select_tmdb_mapping_for_episode mappings n = only_one (candidates mappings n)

-- The largest end of the closed source ranges, and whether one is open.
unfoldable pub source_ends : ℕ → Bool → List (Text × Text) → ℕ × Bool
unfolding parse_range
source_ends max_end endless [] = (max_end, endless)
source_ends max_end endless ((src, target) ∷ ranges) = elim (parse_range src) [
  | none ↦ source_ends max_end endless ranges
  | some r ↦ elim r.end [
    | none ↦ source_ends max_end true ranges
    | some end ↦ source_ends (if ltb max_end end then end else max_end) endless ranges
  ]
]

unfoldable pub mapping_ends : ℕ → Bool → List TmdbMapping → ℕ × Bool
unfolding source_ends
mapping_ends max_end endless [] = (max_end, endless)
mapping_ends max_end endless (m ∷ mappings) = elim m.type [
  | movie ↦ mapping_ends (if ltb max_end 1 then 1 else max_end) endless mappings
  | tv ↦ let ends = source_ends max_end endless m.ranges in mapping_ends ends.0 ends.1 mappings
]

unfoldable pub fribb_movies : List ℕ → List TmdbMapping
fribb_movies [] = []
fribb_movies (id ∷ ids) =
    let rest = fribb_movies ids in
    if ltb 0 id
    then record {
      type = movie;
      show_id = 0;
      season_number = 0;
      movie_id = id;
      ranges = (codes "1", codes "1") ∷ [];
      tmdb_number = none;
    }
      ∷ rest
    else rest

-- An entry of Fribb's list, by its TMDB id, its season and offset, and its movies; an id that is not
-- positive is 0.
unfoldable pub fribb_to_mappings : ℕ → ℕ → ℕ → List ℕ → List TmdbMapping
unfolding decimal fribb_movies
fribb_to_mappings tv_id season offset movies =
    (if ltb 0 tv_id
      then record {
        type = tv;
        show_id = tv_id;
        season_number = if season == 0 then 1 else season;
        movie_id = 0;
        ranges =
            (codes "1-", if ltb 0 offset then decimal (offset + 1) ++ b'-' ∷ [] else codes "1-")
            ∷ [];
        tmdb_number = none;
      }
        ∷ []
      else [])
    ++ fribb_movies movies
