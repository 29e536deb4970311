-- ===== src/Proxy/Handler/Again.antt =====
-- A playlist that the proxy has served, when it is asked for again.
use aniraku_backend.Base.{Text, codes, text_eq, ℕ, ◌-◌, ◌≤◌, ◌≡◌, false, some, arith}
use aniraku_backend.Streaming.VodCache.{
  vod_cache_ttl, vod_cache_get, rejects, vod_cache_get-vod_cache_set,
}
use aniraku_backend.Proxy.Answer.{Answer}
use aniraku_backend.Proxy.Serve.{Shared, Url, Request, Course}
use aniraku_backend.Proxy.Handler.{
  Library, serve_rewritten_playlist, keep_and_serve, through_playlists,
}

module _ (lib : Library) (c : Course) (r : Request) where
  serve_from :
      (raw url : Text) (a : Answer) (s : Shared) (u : Url) (path : Text)
      → (vod_cache_get url c.now s.playlists).1 ≡ some raw
      → text_eq r.method (codes "HEAD") ≡ false
      → ((through_playlists lib c r url u path a s).1
          ≡ (serve_rewritten_playlist lib c r raw url 200 a s).1)
        × ((through_playlists lib c r url u path a s).0.memo ≡ s.memo)
  unfolding through_playlists serve_rewritten_playlist
  serve_from raw url a s u path hit get =
      (rw (hit, get, through_playlists), rw (hit, get, through_playlists))

-- A playlist that the cache does not reject is served again from the bytes that were kept, while
-- its entry lives, to a request for it that is no HEAD: the answer is the rewriting of those bytes
-- for that request, and no transport is remembered or forgotten.
pub keep_and_serve_again :
    (lib : Library) (c c' : Course) (r r' : Request) (raw url : Text) (status : ℕ) (a a' : Answer)
    (s : Shared) (u : Url) (path : Text)
    → rejects url raw ≡ false
    → c'.now - c.done ≤ vod_cache_ttl
    → text_eq r'.method (codes "HEAD") ≡ false
    → ((through_playlists lib c' r' url u path a' (keep_and_serve lib c r raw url status a s).0).1
        ≡ (serve_rewritten_playlist lib c' r' raw url 200 a'
            (keep_and_serve lib c r raw url status a s).0).1)
      × ((through_playlists lib c' r' url u path a'
            (keep_and_serve lib c r raw url status a s).0).0.memo
          ≡ s.memo)
unfolding keep_and_serve serve_rewritten_playlist
keep_and_serve_again lib c c' r r' raw url status a a' s u path fits soon get =
    let hit = vod_cache_get-vod_cache_set url raw c.done c'.now s.playlists fits in
    let (same, untouched) =
      serve_from lib c' r' raw url a' (keep_and_serve lib c r raw url status a s).0 u path
        (ground (arith, hit, soon)) get in
    (same, untouched)
