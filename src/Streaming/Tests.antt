-- ===== src/Streaming/Tests.antt =====
-- Runs of the outage breaker and the playlist cache.
use aniraku_backend.Base.{
  leb, if◌then◌else◌, length, Text, codes, text_eq, starts_with, contains, ℕ, ◌+◌, ◌-◌, ◌*◌, ◌<◌,
  ◌≡◌, refl, ◌↔◌, true, none, some, List, [], ◌∷◌, ◌++◌, arith,
}
use aniraku_backend.Streaming.Outage.{
  new_outage_breaker, paused, strike_all, doubled, strike_all-doubled,
}
use aniraku_backend.Streaming.VodCache.{
  vod_cache_ttl, is_cacheable_playlist, vod_cache_get, rejects, vod_cache_set, IsValid,
  vod_cache_get-vod_cache_set, Op, store, read,
}

abbrev minute : ℕ
minute = 60_000_000_000

abbrev struck : List ℕ
struck = 1 ∷ 2 ∷ []

strike_all-doubled_example :
    (paused (strike_all (struck ++ 3 ∷ []) (new_outage_breaker 8_000_000_000)) (39 * minute) ≡ true)
    ↔ (39 * minute < 3 + doubled (length struck))
strike_all-doubled_example = strike_all-doubled 8_000_000_000 3 (39 * minute) struck (omega arith)

-- A strike, a resolve of a minute, and two of a second.
abbrev earlier : List (ℕ × ℕ)
earlier = (1, 1) ∷ []

abbrev quick : List (ℕ × ℕ)
quick = (1_000_000_000, 3) ∷ []

abbrev url : Text
url = codes "https://cdn/a.m3u8?t=1"

abbrev playlist : Text
playlist = codes "#EXTM3U #EXT-X-ENDLIST"

abbrev live : Text
live = codes "#EXTM3U #EXTINF:4"

live_rejected : rejects url live ≡ true
unfolding rejects is_cacheable_playlist contains starts_with text_eq
live_rejected = refl

empty-IsValid : IsValid []
empty-IsValid = record { distinct = tt; keyed = tt; bounded = omega arith; static = tt }

vod_cache_get-vod_cache_set_example :
    (vod_cache_get url 50 (vod_cache_set url playlist 9 [])).1
    ≡ (if leb (50 - 9) vod_cache_ttl then some playlist else none)
unfolding rejects is_cacheable_playlist contains starts_with text_eq
vod_cache_get-vod_cache_set_example = vod_cache_get-vod_cache_set url playlist 9 50 [] refl

abbrev calls : List Op
calls = read url 20 ∷ store url live 15 ∷ store url playlist 9 ∷ []
