-- ===== src/Proxy/Serve.antt =====
-- `Proxy` of internal/api/v1/proxy.go. Parameters: the readers of URLs and of the query, lower case
-- outside ASCII, `net.ParseIP`, the environment's lists, the network, and the rewriting of a playlist. The state
-- is what requests share: the learned hosts, the memo of transports, and the caches of playlists and keys.
use Prim.Native.String.{String}
use aniraku_backend.Base.{
  ◌==◌, if◌then◌else◌, length, any, Text, codes, text_eq, has_suffix, contains, decimal, Dict, ℕ,
  Bool, not, ◌&&◌, ◌||◌, Option, none, some, List, [], ◌∷◌, ◌++◌,
}
use aniraku_backend.Streaming.VodCache.{VodCacheEntry}
use aniraku_backend.Proxy.Allowlist.{Learned}
use aniraku_backend.Proxy.Transport.{
  Upstream, failed, responded, TransportEntry, Wire, Fetched, do_request,
}
use aniraku_backend.Proxy.Answer.{
  relayed, Answer, respond_error, cacheable_media_headers, proxy_redirect_blocked,
}

pub record KeyEntry : Type 0 where
  pub key : Text
  pub fetched_at : ℕ

pub record Shared : Type 0 where
  pub learned : Learned
  pub memo : Dict TransportEntry
  pub playlists : Dict VodCacheEntry
  pub keys : Dict KeyEntry

-- What `url.Parse` gives; the fields are the parts that the proxy reads.
pub record Url : Type 0 where
  pub scheme : Text
  pub hostname : Text
  pub host : Text
  pub port : Text
  pub path : Text
  pub raw_query : Text

pub record Request : Type 0 where
  pub method : Text
  pub origin : Text
  -- The query's parameters `url`, `headers` and `al`.
  pub target : Text
  pub headers : Text
  pub al : Text

-- What happens during the request: the clock at its start and when a response is stored, whether a slot is free before the hold ends,
-- whether the client stays through the pause before the second fetch, and the network.
pub record Course : Type 0 where
  pub now : ℕ
  pub done : ℕ
  pub admitted : Bool
  pub stays : Bool
  pub wire : Wire

abbrev pub blocked_proxy_ports : List String
blocked_proxy_ports =
    "21" ∷ "22" ∷ "23" ∷ "25" ∷ "53" ∷ "110" ∷ "143" ∷ "389" ∷ "445" ∷ "465" ∷ "587" ∷ "993" ∷ "995"
    ∷ "1433" ∷ "1521" ∷ "2049" ∷ "2375" ∷ "3306" ∷ "3389" ∷ "5432" ∷ "5900" ∷ "6379" ∷ "9200"
    ∷ "11211" ∷ "27017" ∷ []

unfoldable pub is_blocked_port : Text → Bool
unfolding text_eq
is_blocked_port port =
    not (text_eq port []) && any (λ p. text_eq port (codes p)) blocked_proxy_ports

unfoldable pub is_subtitle_url : Text → Bool
unfolding contains
is_subtitle_url path =
    any (λ m. contains path (codes m)) (".vtt" ∷ ".srt" ∷ "/captions" ∷ "/subtitle" ∷ "/subs/" ∷ [])

abbrev pub key_ttl : ℕ
key_ttl = 300_000_000_000

unfoldable pub playlist_path : Text → Bool
unfolding has_suffix
playlist_path path = has_suffix path (codes ".m3u8") || has_suffix path (codes ".m3u")

unfoldable pub key_path : Text → Bool
unfolding has_suffix
key_path path = has_suffix path (codes ".key")

-- `isHLS`: what hints at a playlist; the arguments are the lower-case path and query.
unfoldable pub hints_playlist : Text → Text → Upstream → Bool
unfolding playlist_path contains
hints_playlist path query u =
    contains u.content_type (codes "mpegurl")
    || contains u.content_type (codes "m3u8")
    || playlist_path path
    || contains query (codes "m3u8")

unfoldable pub or_else : Text → Text → Text
unfolding text_eq
or_else s other = if text_eq s [] then other else s

-- The content type of a body that is relayed.
unfoldable pub media_type : Text → Text → Text
unfolding or_else has_suffix key_path is_subtitle_url text_eq
media_type path upstream =
    let ct = or_else upstream (codes "application/octet-stream") in
    let ct =
      if (has_suffix path (codes ".jpg") || has_suffix path (codes ".ts"))
      then codes "video/mp2t"
      else ct in
    let ct = if key_path path then codes "application/octet-stream" else ct in
    if is_subtitle_url path
      && (text_eq ct []
          || text_eq ct (codes "application/octet-stream")
          || text_eq ct (codes "application/binary"))
    then codes "text/vtt; charset=utf-8"
    else ct

unfoldable pub given : Text → Option Text
unfolding text_eq
given s = if text_eq s [] then none else some s

-- The end of `Proxy`: a body that is no playlist goes to the client as it comes.
unfoldable pub relay : Text → Upstream → Text → Answer → Answer
unfolding media_type given cacheable_media_headers text_eq
relay path u bytes a =
    let part = u.status == 206 in
    let whole = u.status == 200 in
    let a =
      if whole
      then cacheable_media_headers (codes "public, max-age=31536000, immutable") a
      else if part
      then cacheable_media_headers (codes "public, max-age=31536000") a
      else a in
    record a {
      status = u.status;
      content_type = some (media_type path u.content_type);
      content_range = given u.content_range;
      accept_ranges =
          if text_eq u.accept_ranges []
          then (if part then some (codes "bytes") else none)
          else some u.accept_ranges;
      content_length = if whole || part then given u.content_length else none;
      body = relayed bytes;
    }

-- The answer to a transport error.
unfoldable pub unreachable : Text → Answer → Answer
unfolding contains respond_error
unreachable e a =
    if contains e (codes "connection refused")
      || contains e (codes "no route to host")
      || contains e (codes "i/o timeout")
    then respond_error 502
        (codes "CDN_BLOCKED: upstream refused connection - CDN blocks datacenter IPs") a
    else respond_error 502 (codes "upstream request failed") a

-- The responses that are not passed on, with the answer in their place.
unfoldable pub refuses : ℕ → Answer → Option Answer
unfolding proxy_redirect_blocked respond_error
refuses status a =
    if proxy_redirect_blocked status
    then some (respond_error 502 (codes "upstream media redirect blocked") a)
    else if status == 429
    then some (respond_error 502 (codes "CDN_BLOCKED: upstream rate limited (HTTP 429)") a)
    else if status == 502 || status == 403
    then some (
        respond_error 502
          (codes "CDN_BLOCKED: upstream rejected (HTTP " ++ decimal status ++ codes ")") a)
    else if status == 503
    then some (respond_error 502 (codes "upstream returned " ++ decimal status) a)
    else none

-- The first fetch, and the second after a 403, or a 429 for a playlist: the memo and the outcome.
unfoldable pub fetch : Course → Request → Url → Text → Dict TransportEntry → Fetched
unfolding do_request playlist_path text_eq
fetch c r u path memo =
    let https = text_eq u.scheme (codes "https") in
    let first = do_request c.wire u.host https 0 memo in
    let second = do_request c.wire u.host https (length first.tried) first.memo in
    elim first.outcome [
      | failed e ↦ first
      | responded up ↦
          if text_eq r.method (codes "GET")
            && (up.status == 403 || (up.status == 429 && playlist_path path))
          then (if c.stays
              then record second { tried = first.tried ++ second.tried }
              else record first { outcome = failed (codes "context canceled") })
          else first
    ]

-- The answer where no slot of the fill limiter came free.
unfoldable pub shed : Answer → Answer
unfolding respond_error
shed a = record (respond_error 503 (codes "proxy busy, retry shortly") a) {
  retry_after = some (codes "3");
}
