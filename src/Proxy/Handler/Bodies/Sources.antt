-- ===== src/Proxy/Handler/Bodies/Sources.antt =====
-- Where the body of an answer of `Proxy` comes from.
use aniraku_backend.Proxy.Handler.Gates.{proxy-Passes}
use aniraku_backend.Proxy.Upstreams.{
  refuses-Admissible, outcome_cases, unreachable-Told, refuses-Told,
}
use aniraku_backend.Base.{
  ltb, Bool-cases, Option-cases, branch, Text, codes, text_eq, text_eq_iff, Dict, lookup, delete,
  ◌-◌, ◌≡◌, refl, sym, ap, ◌∙◌, inl, inr, arith,
}
use aniraku_backend.Proxy.Answer.{nothing, Answer, fresh_answer, respond_error}
use aniraku_backend.Proxy.Serve.{
  Shared, Url, Request, Course, key_ttl, key_path, refuses, fetch, shed,
}
use aniraku_backend.Streaming.VodCache.{VodCacheEntry, vod_cache_get}
use aniraku_backend.Proxy.Allowlist.{host_gate}
use aniraku_backend.Proxy.Handler.{
  Library, lower_text, cache_key_url, target_url, serve_rewritten_playlist, fill_held, fill,
  through_keys, through_playlists, proxy,
}
use aniraku_backend.Proxy.Handler.Bodies.{
  Source, told, headed, kept_playlist, kept_key, fetched, fetch-reply, deliver-Made,
}

module _ (lib : Library) (c : Course) (r : Request) where
  fill_held-Source :
      (url : Text) (u : Url) (path key : Text) (a : Answer) (s known : Shared)
      → Source lib c r url known (fill_held lib c r url u path key a s).1
  unfolding fill_held
  fill_held-Source url u path key a s known =
      elim (outcome_cases (fetch c r u path s.memo).outcome) [
        | inl (e, broken) ↦
            let (text, same) = unreachable-Told e a in rw (broken, fill_held) (told text same)
        | inr (up, came) ↦ elim (Option-cases (refuses up.status a)) [
          | inr (b, refused) ↦
              let (text, same) = refuses-Told up.status a b refused in
              rw (came, refused, fill_held) (told text same)
          | inl fine ↦
              let (k, t, sent) = fetch-reply lib c r u path s.memo up came in
              rw (came, fine, fill_held)
                (elim (deliver-Made lib c r url path (lower_text lib u.raw_query) key up a
                  (record s { memo = (fetch c r u path s.memo).memo })) [
                    | inl (text, same) ↦ told text same
                    | inr made ↦ fetched k t up sent (refuses-Admissible up.status a fine) made
                  ])
        ]
      ]

  fill-Source :
      (url : Text) (u : Url) (path key : Text) (a : Answer) (s known : Shared)
      → Source lib c r url known (fill lib c r url u path key a s).1
  unfolding fill shed respond_error
  fill-Source url u path key a s known =
      branch (λ (out : Shared × Answer). Source lib c r url known out.1) c.admitted _ _
        (fill_held-Source url u path key a s known) (told _ refl)

  through_keys-Source :
      (url : Text) (u : Url) (path : Text) (a : Answer) (s known : Shared)
      → s.keys ≡ known.keys
      → Source lib c r url known (through_keys lib c r url u path a s).1
  unfolding through_keys
  through_keys-Source url u path a s known same = elim (Bool-cases (key_path path)) [
    | inr other ↦ rw other (fill-Source url u path (cache_key_url lib url) a s known)
    | inl key ↦ elim (Option-cases (lookup (cache_key_url lib url) s.keys)) [
      | inl missing ↦
          rw (key, missing, through_keys) (fill-Source url u path (cache_key_url lib url) a s known)
      | inr (e, found) ↦ elim (Bool-cases (ltb (c.now - e.fetched_at) key_ttl)) [
        | inl fresh ↦
            rw (key, found, fresh, through_keys)
              (kept_key e (ap (lookup (cache_key_url lib url)) (sym same) ∙ found)
                (ground (arith, fresh)) refl)
        | inr old ↦
            rw (key, found, old, through_keys)
              (fill-Source url u path (cache_key_url lib url) a
                (record s { keys = delete (cache_key_url lib url) s.keys }) known)
      ]
    ]
  ]

  through_playlists-Source :
      (url : Text) (u : Url) (path : Text) (a : Answer) (s known : Shared)
      → s.keys ≡ known.keys
      → s.playlists ≡ known.playlists
      → a.body ≡ nothing
      → Source lib c r url known (through_playlists lib c r url u path a s).1
  unfolding through_playlists serve_rewritten_playlist
  through_playlists-Source url u path a s known keys lists bare =
      elim (Option-cases (vod_cache_get url c.now s.playlists).1) [
        | inl missed ↦
            rw (missed, through_playlists)
              (through_keys-Source url u path a
                (record s { playlists = (vod_cache_get url c.now s.playlists).0 }) known keys)
        | inr (raw, hit) ↦
            let known_hit =
              ap (λ (m : Dict VodCacheEntry). (vod_cache_get url c.now m).1) (sym lists) ∙ hit in
            let is_head = text_eq_iff r.method (codes "HEAD") in
            elim (Bool-cases (text_eq r.method (codes "HEAD"))) [
              | inl head ↦
                  rw (hit, head, through_playlists)
                    (headed raw (ground (arith, is_head, head)) known_hit bare)
              | inr get ↦
                  rw (hit, get, through_playlists)
                    (kept_playlist raw s.learned (ground (arith, is_head, get)) known_hit refl)
            ]
      ]

  -- The body of every answer of the media proxy is an error text; nothing, where the request is a
  -- HEAD and a playlist is kept for exactly this address; that playlist, rewritten, where the
  -- request is no HEAD; the key kept for the address less than five minutes; or it is made from the
  -- front of what a transport got for this request with a status that is no redirect and none of
  -- 403, 429, 502 and 503: relayed, as a key where the status is 200, or as a playlist, rewritten,
  -- where it is 200 or 206.
  pub proxy-Source : (s : Shared) → Source lib c r (target_url lib r) s (proxy lib c r s).1
  unfolding fresh_answer
  proxy-Source s = elim (proxy-Passes lib c r s) [
    | inl refused ↦ told refused.said.0 refused.said.1
    | inr (u, ok, same) ↦ rw same (
        through_playlists-Source (target_url lib r) u (lower_text lib u.path) _
          (record s {
            learned =
                (host_gate lib.lower_other lib.parse_ip lib.cdn_env u.hostname c.now s.learned).0;
          })
          s refl refl refl)
  ]
