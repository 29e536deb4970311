-- ===== src/Tmdb/Tests.antt =====
-- Runs of the mapping of episode numbers.
use aniraku_backend.Tmdb.Ranges.Aligned.Numbers.{Unflagged, identity_aligned-map_episode_number}
use aniraku_backend.Tmdb.Ranges.{
  clamped, number, closed_rng, parse_trimmed, parse_range, map_episode_number, aligned_rngs,
  without_flag, aligned_entry, identity_aligned_from, identity_aligned_continuation,
}
use aniraku_backend.Base.{
  Text, codes, text_eq, is_space, trim_left, trim_right, trim_space, cut, digits, ◌≡◌, refl, some,
  List, [], ◌∷◌, arith,
}

abbrev continued : List (Text × Text)
continued = (codes "1-12", codes "13-24") ∷ []

identity_aligned-map_episode_number_example : map_episode_number continued 4 ≡ some 16
unfolding identity_aligned_continuation identity_aligned_from aligned_entry aligned_rngs
    without_flag parse_range parse_trimmed closed_rng number clamped cut digits text_eq trim_space
    trim_left trim_right is_space Unflagged
identity_aligned-map_episode_number_example =
    identity_aligned-map_episode_number continued 12 12 4 refl refl (omega arith) (omega arith)
