-- ===== src/Proxy/Handler.antt =====
-- The handlers `Proxy` and `serveRewrittenPlaylist` of internal/api/v1/proxy.go, over the parts in Serve.
-- Parameters: `url.QueryUnescape`, `url.Parse`, the re-encoding of a key's query, lower case outside ASCII,
-- the folding of `strings.EqualFold`, `net.ParseIP`, the two lists of the environment, and the rewriting
-- of a playlist, which may teach the proxy hosts.
pub mod Gates
pub mod Bodies
pub mod Again
mod Tests
use aniraku_backend.Base.{
  ltb, leb, ◌==◌, if◌then◌else◌, length, take, drop, Text, codes, text_eq, lower, cut, decimal,
  lookup, insert, delete, ℕ, ◌-◌, ◌^◌, Bool, false, not, ◌&&◌, ◌||◌, Option, none, some, [], ◌∷◌,
  ◌++◌, map,
}
use aniraku_backend.Net.Ip.{Ip}
use aniraku_backend.Middleware.Cors.{is_allowed_origin}
use aniraku_backend.Streaming.VodCache.{vod_cache_get, vod_cache_set}
use aniraku_backend.Proxy.Allowlist.{Learned, clean, is_nuisance_proxy_host, host_gate}
use aniraku_backend.Proxy.Transport.{Upstream, failed, responded}
use aniraku_backend.Proxy.Answer.{
  key_bytes, playlist, Answer, fresh_answer, respond_error, cacheable_media_headers, hls_max_read,
  key_cache_max_read, is_playlist_body, serve, media, reject, classify_playlist_response,
  read_limited,
}
use aniraku_backend.Proxy.Nonce.{strip_proxy_nonce}
use aniraku_backend.Proxy.Serve.{
  Shared, Url, Request, Course, is_blocked_port, key_ttl, key_path, hints_playlist, relay,
  unreachable, refuses, fetch, shed,
}

pub record Library : Type 0 where
  pub lower_other : ℕ → ℕ
  pub fold : Text → Text
  pub parse_ip : Text → Option Ip
  pub cdn_env : Text
  pub cors_env : Text
  pub query_unescape : Text → Option Text
  pub parse_url : Text → Option Url
  -- `baseQ.Encode()` without `sn`, `iv` and `t`.
  pub key_query : Text → Text
  -- The raw body, its URL, the `headers` and `al` parameters.
  pub rewrite : Text → Text → Text → Text → Learned → Learned × Text

unfoldable pub is_web : Url → Bool
unfolding text_eq
is_web u = text_eq u.scheme (codes "http") || text_eq u.scheme (codes "https")

-- Why the target is refused, if it is.
unfoldable pub gate_verdict : Bool → Bool → Bool → Option Text
gate_verdict blocked_port decent passes =
    if blocked_port
    then some (codes "proxy target port not allowed")
    else if not decent
    then some (codes "proxy target blocked")
    else if not passes
    then some (codes "proxy target not allowed")
    else none

module _ (lib : Library) where
  unfoldable pub lower_text : Text → Text
  unfolding lower
  lower_text s = map (lower lib.lower_other) s

  -- `cacheKeyURL`.
  unfoldable pub cache_key_url : Text → Text
  unfolding cut text_eq
  cache_key_url url = elim (cut b'?' url) [
    | none ↦ url
    | some (front, raw) ↦
        let clean = lib.key_query raw in if text_eq clean [] then front else front ++ b'?' ∷ clean
  ]

  unfoldable pub target_url : Request → Text
  unfolding strip_proxy_nonce
  target_url r =
      strip_proxy_nonce lib.query_unescape lib.fold
        (elim (lib.query_unescape r.target) [ none ↦ r.target | some decoded ↦ decoded ])

module _ (lib : Library) (c : Course) (r : Request) where
  -- Anything but the two languages disables the strip of renditions.
  unfoldable pub audio_language : Text
  unfolding text_eq
  audio_language = if text_eq r.al (codes "sub") || text_eq r.al (codes "dub") then r.al else []

  unfoldable pub serve_rewritten_playlist : Text → Text → ℕ → Answer → Shared → Shared × Answer
  unfolding cacheable_media_headers audio_language decimal
  serve_rewritten_playlist raw url status a s =
      let (learned, text) = lib.rewrite raw url r.headers audio_language s.learned in
      (
        record s { learned = learned },
        record (cacheable_media_headers (codes "public, max-age=300") a) {
          status = status;
          content_type = some (codes "application/vnd.apple.mpegurl");
          content_length = some (decimal (length text));
          body = playlist text;
        },
      )

  -- A playlist is kept raw and served rewritten.
  unfoldable pub keep_and_serve : Text → Text → ℕ → Answer → Shared → Shared × Answer
  unfolding serve_rewritten_playlist vod_cache_set
  keep_and_serve raw url status a s =
      serve_rewritten_playlist raw url status a
        (record s { playlists = vod_cache_set url raw c.done s.playlists })

  -- The bytes behind no hint: the first ones are looked at.
  unfoldable pub sniff : Text → Text → Upstream → Answer → Shared → Shared × Answer
  unfolding keep_and_serve read_limited is_playlist_body relay
  sniff url path up a s =
      let (peek, peeked) = read_limited 1024 up in
      let (rest, arrived) = read_limited (2 ^ 20) (record up { body = drop 1024 up.body }) in
      let served = keep_and_serve (peek ++ rest) url up.status a s in
      if not (up.status == 200)
      then (s, relay path up up.body a)
      else if not peeked
      then (s, relay path up [] a)
      else if is_playlist_body peek
      then (if arrived then served else (s, relay path up peek a))
      else (s, relay path up up.body a)

  -- The branch for a response that is hinted to be a playlist.
  unfoldable pub hinted : Text → Text → Upstream → Answer → Shared → Shared × Answer
  unfolding keep_and_serve read_limited classify_playlist_response respond_error relay
  hinted url path up a s =
      let (body, arrived) = read_limited hls_max_read up in
      let served = keep_and_serve body url 200 a s in
      if not arrived
      then (s, respond_error 502 (codes "failed to read HLS playlist") a)
      else elim (classify_playlist_response up.status up.content_range body) [
        | reject ↦ (s, respond_error 502 (codes "upstream returned " ++ decimal up.status) a)
        | media ↦ (s, relay path up up.body a)
        | serve ↦
            if leb hls_max_read (length body)
            then (s, respond_error 502 (codes "upstream playlist too large") a)
            else served
      ]

  -- A response that is not refused; `cache_key` is the key cache's name for the URL.
  unfoldable pub deliver : Text → Text → Text → Text → Upstream → Answer → Shared → Shared × Answer
  unfolding sniff hinted read_limited cacheable_media_headers key_path hints_playlist
  deliver url path query cache_key up a s =
      let body = take key_cache_max_read up.body in
      let playlist = hinted url path up a s in
      let other = sniff url path up a s in
      if key_path path && up.status == 200 && ltb (length body) key_cache_max_read
      then (
        record s { keys = insert cache_key (record { key = body; fetched_at = c.done }) s.keys },
        record (cacheable_media_headers (codes "public, max-age=300") a) {
          content_type = some (codes "application/octet-stream");
          body = key_bytes body;
        },
      )
      else if hints_playlist path query up
      then playlist
      else other

  -- With a slot of the fill limiter.
  unfoldable pub fill_held : Text → Url → Text → Text → Answer → Shared → Shared × Answer
  unfolding fetch refuses deliver unreachable lower_text
  fill_held url u path cache_key a s =
      let got = fetch c r u path s.memo in
      let s' = record s { memo = got.memo } in
      elim got.outcome [
        | failed e ↦ (s', unreachable e a)
        | responded up ↦ elim (refuses up.status a) [
          | some refusal ↦ (s', refusal)
          | none ↦ deliver url path (lower_text lib u.raw_query) cache_key up a s'
        ]
      ]

  unfoldable pub fill : Text → Url → Text → Text → Answer → Shared → Shared × Answer
  unfolding fill_held shed
  fill url u path cache_key a s =
      let filled = fill_held url u path cache_key a s in if c.admitted then filled else (s, shed a)

  -- The cache of keys, for the path of a key; an entry that is too old goes.
  unfoldable pub through_keys : Text → Url → Text → Answer → Shared → Shared × Answer
  unfolding fill cache_key_url key_path lookup cacheable_media_headers
  through_keys url u path a s =
      let cache_key = cache_key_url lib url in
      let filled = fill url u path cache_key a s in
      let refilled = fill url u path cache_key a (record s { keys = delete cache_key s.keys }) in
      if not (key_path path) then filled else elim (lookup cache_key s.keys) [
        | none ↦ filled
        | some e ↦
            if ltb (c.now - e.fetched_at) key_ttl
            then (
              s,
              record (cacheable_media_headers (codes "public, max-age=300") a) {
                content_type = some (codes "application/octet-stream");
                body = key_bytes e.key;
              },
            )
            else refilled
      ]

  -- The cache of playlists.
  unfoldable pub through_playlists : Text → Url → Text → Answer → Shared → Shared × Answer
  unfolding through_keys serve_rewritten_playlist vod_cache_get text_eq
  through_playlists url u path a s =
      let (playlists, hit) = vod_cache_get url c.now s.playlists in
      let s' = record s { playlists = playlists } in
      elim hit [
        | none ↦ through_keys url u path a s'
        | some raw ↦
            if text_eq r.method (codes "HEAD")
            then (s', record a { content_type = some (codes "application/vnd.apple.mpegurl") })
            else serve_rewritten_playlist raw url 200 a s'
      ]

  -- The gates, once the URL is parsed; a blocked port ends the request before the host is looked at.
  unfoldable pub gate_learned : Url → Shared → Learned × Bool
  unfolding host_gate is_blocked_port
  gate_learned u s =
      if is_blocked_port u.port
      then (s.learned, false)
      else host_gate lib.lower_other lib.parse_ip lib.cdn_env u.hostname c.now s.learned

  unfoldable pub gated : Text → Url → Answer → Shared → Shared × Answer
  unfolding through_playlists respond_error gate_verdict gate_learned is_nuisance_proxy_host
      lower_text
  gated url u a s =
      let decent = not (is_nuisance_proxy_host lib.lower_other (lower_text lib u.hostname)) in
      let s' = record s { learned = (gate_learned u s).0 } in
      elim (gate_verdict (is_blocked_port u.port) decent (gate_learned u s).1) [
        | some text ↦ (s', respond_error 403 text a)
        | none ↦ through_playlists url u (lower_text lib u.path) a s'
      ]

  unfoldable pub proxy : Shared → Shared × Answer
  unfolding gated fresh_answer is_allowed_origin respond_error target_url is_web text_eq
  proxy s =
      let a = fresh_answer (is_allowed_origin lib.cors_env r.origin) r.origin in
      let invalid : Shared × Answer = (s, respond_error 400 (codes "invalid URL scheme") a) in
      if text_eq r.target []
      then (s, respond_error 400 (codes "url parameter required") a)
      else elim (lib.parse_url (target_url lib r)) [
        | none ↦ invalid
        | some u ↦ if is_web u then gated (target_url lib r) u a s else invalid
      ]
