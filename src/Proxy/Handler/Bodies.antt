-- ===== src/Proxy/Handler/Bodies.antt =====
-- The bodies of `Proxy`'s answers.
pub mod Sources
use aniraku_backend.Proxy.Upstreams.{
  Prefix, take-Prefix, two_reads-Prefix, Admissible, do_request-reply, outcome_cases,
  classify-serve, action_cases,
}
use aniraku_backend.Base.{
  ltb, leb, ◌==◌, ==→eq, Bool-cases, length, take, drop, Text, codes, text_eq, Dict, lookup, ℕ, ◌+◌,
  ◌^◌, ◌<◌, ◌≡◌, refl, sym, ◌∙◌, ◌≢◌, ◌⊎◌, inl, inr, ◌&&◌, ◌||◌, some, [], ◌++◌, arith,
}
use aniraku_backend.Proxy.Transport.{Transport, Upstream, responded, TransportEntry, do_request}
use aniraku_backend.Proxy.Answer.{
  nothing, message, key_bytes, playlist, relayed, Answer, respond_error, hls_max_read,
  key_cache_max_read, is_playlist_body, classify_playlist_response, read_limited,
}
use aniraku_backend.Proxy.Serve.{
  KeyEntry, Shared, Url, Request, Course, key_ttl, playlist_path, key_path, hints_playlist, relay,
  fetch,
}
use aniraku_backend.Streaming.VodCache.{vod_cache_get}
use aniraku_backend.Proxy.Allowlist.{Learned}
use aniraku_backend.Proxy.Handler.{
  Library, cache_key_url, audio_language, serve_rewritten_playlist, keep_and_serve, sniff, hinted,
  deliver,
}
use mathlib.Core.List.{append_assoc, append-nil}

module _ (lib : Library) (c : Course) (r : Request) where
  -- A fetched body goes out whole or in part, as it is, as a key, or as a playlist that is rewritten.
  pub data Made (url : Text) (up : Upstream) (a : Answer) : Type 0 where
    as_media :
        (front : Text)
        → Prefix front up.body
        → a.status ≡ up.status
        → a.body ≡ relayed front
        → Made url up a
    as_key :
        (front : Text)
        → Prefix front up.body
        → up.status ≡ 200
        → a.body ≡ key_bytes front
        → Made url up a
    as_playlist :
        (front : Text) (learned : Learned)
        → Prefix front up.body
        → (up.status ≡ 200) ⊎ (up.status ≡ 206)
        → a.body ≡ playlist (lib.rewrite front url r.headers (audio_language lib c r) learned).1
        → Made url up a

  -- What the body of an answer is, for a request that finds the caches of `s`.
  pub data Source (url : Text) (s : Shared) (a : Answer) : Type 0 where
    told : (text : Text) → a.body ≡ message text → Source url s a
    headed :
        (raw : Text)
        → r.method ≡ codes "HEAD"
        → (vod_cache_get url c.now s.playlists).1 ≡ some raw
        → a.body ≡ nothing
        → Source url s a
    kept_playlist :
        (raw : Text) (learned : Learned)
        → r.method ≢ codes "HEAD"
        → (vod_cache_get url c.now s.playlists).1 ≡ some raw
        → a.body ≡ playlist (lib.rewrite raw url r.headers (audio_language lib c r) learned).1
        → Source url s a
    kept_key :
        (e : KeyEntry)
        → lookup (cache_key_url lib url) s.keys ≡ some e
        → c.now < e.fetched_at + key_ttl
        → a.body ≡ key_bytes e.key
        → Source url s a
    fetched :
        (k : ℕ) (t : Transport) (up : Upstream)
        → c.wire.reply k t ≡ responded up
        → Admissible up.status
        → Made url up a
        → Source url s a

  pub fetch-reply :
      (u : Url) (path : Text) (memo : Dict TransportEntry) (up : Upstream)
      → (fetch c r u path memo).outcome ≡ responded up
      → (k : ℕ) × (t : Transport) × (c.wire.reply k t ≡ responded up)
  unfolding fetch
  fetch-reply u path memo up h =
      let https = text_eq u.scheme (codes "https") in
      let first = do_request c.wire u.host https 0 memo in
      let second = do_request c.wire u.host https (length first.tried) first.memo in
      let (k, t, same) = do_request-reply c.wire u.host https 0 memo in
      let (k', t', same') = do_request-reply c.wire u.host https (length first.tried) first.memo in
      elim (outcome_cases first.outcome) [
        | inl (e, broken) ↦ (k, t, ground (arith, h, broken, same))
        | inr (up1, came) ↦ elim (Bool-cases c.stays) [
          | inl stays ↦
              elim (Bool-cases (
                text_eq r.method (codes "GET")
                && (up1.status == 403 || (up1.status == 429 && playlist_path path)))) [
                  | inl again ↦ (k', t', sym same' ∙ (rw (came, fetch, again, stays) at h))
                  | inr once ↦ (k, t, sym same ∙ (rw (came, fetch, once) at h))
                ]
          | inr gone ↦ (k, t, ground (arith, h, came, same, gone))
        ]
      ]

  sniff-Made :
      (url path : Text) (up : Upstream) (a : Answer) (s : Shared)
      → Made url up (sniff lib c r url path up a s).1
  unfolding sniff keep_and_serve serve_rewritten_playlist read_limited relay
  sniff-Made url path up a s = elim (Bool-cases (up.status == 200)) [
    | inr other ↦ rw other (as_media up.body ([], append-nil up.body) refl refl)
    | inl full ↦ elim (Bool-cases (leb 1024 (length up.body) || up.complete)) [
      | inr broken ↦ rw (full, broken) (as_media [] (up.body, refl) refl refl)
      | inl peeked ↦ elim (Bool-cases (is_playlist_body (take 1024 up.body))) [
        | inr other ↦ rw (full, peeked, other) (as_media up.body ([], append-nil up.body) refl refl)
        | inl signed ↦
            elim (Bool-cases (leb (2 ^ 20) (length (drop 1024 up.body)) || up.complete)) [
              | inr broken ↦
                  rw (full, peeked, signed, broken)
                    (as_media (take 1024 up.body) (take-Prefix 1024 up.body) refl refl)
              | inl whole ↦
                  rw (full, peeked, signed, whole)
                    (as_playlist (take 1024 up.body ++ take (2 ^ 20) (drop 1024 up.body)) s.learned
                      (two_reads-Prefix 1024 (2 ^ 20) up.body) (inl (==→eq up.status 200 full))
                      refl)
            ]
      ]
    ]
  ]

  -- An error, or a body made from the response.
  abbrev Delivered : Text → Upstream → Answer → Type 0
  Delivered url up a = ((text : Text) × (a.body ≡ message text)) ⊎ Made url up a

  hinted-Made :
      (url path : Text) (up : Upstream) (a : Answer) (s : Shared)
      → Delivered url up (hinted lib c r url path up a s).1
  unfolding hinted keep_and_serve serve_rewritten_playlist read_limited relay respond_error
  hinted-Made url path up a s =
      elim (Bool-cases (leb hls_max_read (length up.body) || up.complete)) [
        | inr broken ↦ rw broken (inl (_, refl))
        | inl arrived ↦
            elim (action_cases
              (classify_playlist_response up.status up.content_range (take hls_max_read up.body))) [
                | inr (inl other) ↦
                    rw (arrived, other, hinted)
                      (inr (as_media up.body ([], append-nil up.body) refl refl))
                | inr (inr bad) ↦ rw (arrived, bad, hinted) (inl (_, refl))
                | inl good ↦
                    elim (Bool-cases (leb hls_max_read (length (take hls_max_read up.body)))) [
                      | inl large ↦ rw (arrived, good, large, hinted) (inl (_, refl))
                      | inr fits ↦
                          rw (arrived, good, fits, hinted)
                            (inr (
                              as_playlist (take hls_max_read up.body) s.learned
                                (take-Prefix hls_max_read up.body)
                                (classify-serve up.status up.content_range
                                  (take hls_max_read up.body) good)
                                refl))
                    ]
              ]
      ]

  pub deliver-Made :
      (url path query key : Text) (up : Upstream) (a : Answer) (s : Shared)
      → Delivered url up (deliver lib c r url path query key up a s).1
  unfolding deliver
  deliver-Made url path query key up a s =
      elim (Bool-cases (
        key_path path
        && up.status == 200
        && ltb (length (take key_cache_max_read up.body)) key_cache_max_read)) [
          | inl small ↦ rw small (
              inr (
                as_key (take key_cache_max_read up.body) (take-Prefix key_cache_max_read up.body)
                  (==→eq up.status 200 (ground (arith, small))) refl))
          | inr other ↦ elim (Bool-cases (hints_playlist path query up)) [
            | inl hint ↦ rw (other, hint) (hinted-Made url path up a s)
            | inr bare ↦ rw (other, bare) (inr (sniff-Made url path up a s))
          ]
        ]
