-- ===== src/Proxy/Download.antt =====
-- `Download` of internal/api/v1/proxy.go. What `downloadClient` gets is a parameter, next to those of `Proxy`. The
-- header `Content-Disposition`, which every download has, is left out.
mod Tests
use aniraku_backend.Base.{
  ltb, leb, if◌then◌else◌, Bool-cases, Option-cases, take, Text, codes, text_eq, decimal, ℕ, ◌*◌,
  ◌^◌, ◌≤◌, ◌<◌, ◌≡◌, refl, ap, ◌∙◌, ◌⊎◌, inl, inr, Bool, true, false, not, ◌||◌, none, some, [],
  ◌++◌, arith,
}
use aniraku_backend.Proxy.Allowlist.{Learned, host_gate}
use aniraku_backend.Proxy.Transport.{Upstream, Outcome, failed, responded}
use aniraku_backend.Proxy.Answer.{nothing, message, relayed, Answer, respond_error}
use aniraku_backend.Proxy.Serve.{Url, is_blocked_port, or_else, given, shed}
use aniraku_backend.Proxy.Handler.{Library, is_web}

abbrev pub download_max_bytes : ℕ
download_max_bytes = 200 * 2 ^ 20

-- The answer before the handler, with the origin that the middleware allows.
unfoldable pub private_answer : Text → Answer
private_answer origin = record {
  status = 200;
  cache_control = codes "no-store, private";
  allow_origin = origin;
  origin_bound = true;
  content_type = none;
  content_length = none;
  content_range = none;
  accept_ranges = none;
  retry_after = none;
  body = nothing;
}

-- The end of the handler: the file, or what is left of it under the cap.
unfoldable pub send_file : Upstream → Answer → Answer
unfolding given or_else
send_file up a = record a {
  status = up.status;
  content_type = some (or_else up.content_type (codes "video/mp4"));
  content_length = given up.content_length;
  content_range = given up.content_range;
  body = relayed (take download_max_bytes up.body);
}

unfoldable pub pass_on : Outcome → Answer → Answer
unfolding send_file respond_error
pass_on (failed e) a = respond_error 502 (codes "download source unreachable") a
pass_on (responded up) a =
    if ltb up.status 200 || leb 400 up.status
    then respond_error up.status (codes "download source returned " ++ decimal up.status) a
    else send_file up a

module _ (lib : Library) (now : ℕ) (admitted : Bool) (source : Outcome) where
  -- `url.QueryUnescape`, or the text as it is.
  unfoldable pub download_url : Text → Text
  download_url target = elim (lib.query_unescape target) [ none ↦ target | some decoded ↦ decoded ]

  -- The gates behind the port's; the answers of `shed` are those of `Proxy`.
  unfoldable pub fetch_file : Url → Answer → Learned → Learned × Answer
  unfolding pass_on shed respond_error host_gate
  fetch_file u a s =
      let (learned, ok) = host_gate lib.lower_other lib.parse_ip lib.cdn_env u.hostname now s in
      let sent = pass_on source a in
      if not ok
      then (learned, respond_error 403 (codes "download target not allowed") a)
      else if admitted
      then (learned, sent)
      else (learned, shed a)

  unfoldable pub download : Text → Text → Learned → Learned × Answer
  unfolding private_answer respond_error download_url is_web is_blocked_port fetch_file text_eq
  download origin target s =
      let a = private_answer origin in
      let invalid : Learned × Answer = (s, respond_error 400 (codes "invalid URL scheme") a) in
      if text_eq target []
      then (s, respond_error 400 (codes "url parameter required") a)
      else elim (lib.parse_url (download_url target)) [
        | none ↦ invalid
        | some u ↦
            if not (is_web u)
            then invalid
            else if is_blocked_port u.port
            then (s, respond_error 403 (codes "download target port not allowed") a)
            else fetch_file u a s
      ]

  -- What a download that is no error shows.
  pub record Loaded (target : Text) (s : Learned) (u : Url) (up : Upstream) (a : Answer)
      : Type 0 where
    pub parsed : lib.parse_url (download_url target) ≡ some u
    pub web : is_web u ≡ true
    pub open_port : is_blocked_port u.port ≡ false
    pub passed : (host_gate lib.lower_other lib.parse_ip lib.cdn_env u.hostname now s).1 ≡ true
    pub slot : admitted ≡ true
    pub sent : source ≡ responded up
    pub least : 200 ≤ up.status
    pub most : up.status < 400
    pub whole : a.body ≡ relayed (take download_max_bytes up.body)
    pub kept_private : a.cache_control ≡ codes "no-store, private"

  abbrev pub Ends : Text → Learned → Answer → Type 0
  Ends target s a =
      ((text : Text) × (a.body ≡ message text))
      ⊎ ((u : Url) × (up : Upstream) × Loaded target s u up a)

  outcome_sent :
      (o : Outcome) (a : Answer)
      → ((text : Text) × ((pass_on o a).body ≡ message text))
        ⊎ ((up : Upstream) × (o ≡ responded up)
            × (200 ≤ up.status)
            × (up.status < 400)
            × (pass_on o a ≡ send_file up a))
  unfolding pass_on respond_error
  outcome_sent (failed e) a = inl (_, refl)
  outcome_sent (responded up) a = elim (Bool-cases (ltb up.status 200 || leb 400 up.status)) [
    | inl bad ↦ rw bad (inl (_, refl))
    | inr good ↦ rw good (inr (up, refl, ground (arith, good), ground (arith, good), refl))
  ]

  fetch_file_cases :
      (u : Url) (a : Answer) (s : Learned)
      → ((text : Text) × ((fetch_file u a s).1.body ≡ message text))
        ⊎ ((host_gate lib.lower_other lib.parse_ip lib.cdn_env u.hostname now s).1 ≡ true)
          × (admitted ≡ true)
          × ((fetch_file u a s).1 ≡ pass_on source a)
  unfolding fetch_file shed respond_error
  fetch_file_cases u a s =
      elim (Bool-cases (host_gate lib.lower_other lib.parse_ip lib.cdn_env u.hostname now s).1) [
        | inr refused ↦ rw refused (inl (_, refl))
        | inl ok ↦ elim (Bool-cases admitted) [
          | inr busy ↦ rw (ok, busy) (inl (_, refl))
          | inl slot ↦ rw (ok, slot) (inr (refl, refl, refl))
        ]
      ]

  -- Whatever the source answers, a download ends in an error text, or its URL parses, is of the
  -- web, has a port that is not blocked and a host that passes the gate, a slot was free, the
  -- source answered with a status from 200 to 399, and the body is its first 200 MiB, not to be
  -- stored.
  pub download-Ends :
      (origin target : Text) (s : Learned) → Ends target s (download origin target s).1
  unfolding download respond_error private_answer send_file
  download-Ends origin target s = elim (Bool-cases (text_eq target [])) [
    | inl empty ↦ rw empty (inl (_, refl))
    | inr named ↦ elim (Option-cases (lib.parse_url (download_url target))) [
      | inl broken ↦ rw (named, broken, download) (inl (_, refl))
      | inr (u, read) ↦ elim (Bool-cases (is_web u)) [
        | inr other ↦ rw (named, read, other, download) (inl (_, refl))
        | inl web ↦ elim (Bool-cases (is_blocked_port u.port)) [
          | inl blocked ↦ rw (named, read, web, blocked, download) (inl (_, refl))
          | inr free ↦
              rw (named, read, web, free, download)
                (elim (fetch_file_cases u (private_answer origin) s) [
                  | inl told ↦ inl told
                  | inr (ok, slot, same) ↦ elim (outcome_sent source (private_answer origin)) [
                    | inl (text, told) ↦ inl (text, ap (λ (a : Answer). a.body) same ∙ told)
                    | inr (up, sent, least, most, file) ↦ inr (
                      u,
                      up,
                      record {
                        parsed = read;
                        web = web;
                        open_port = free;
                        passed = ok;
                        slot = slot;
                        sent = sent;
                        least = least;
                        most = most;
                        whole = ap (λ (a : Answer). a.body) (same ∙ file);
                        kept_private = ap (λ (a : Answer). a.cache_control) (same ∙ file);
                      },
                    )
                  ]
                ])
        ]
      ]
    ]
  ]
