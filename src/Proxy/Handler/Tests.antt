-- ===== src/Proxy/Handler/Tests.antt =====
-- Runs of the proxy's handler, of its chain of transports, and of the nonce that it strips.
use aniraku_backend.Proxy.Allowlist.{host_gate}
use aniraku_backend.Middleware.Cors.{is_allowed_origin}
use aniraku_backend.Proxy.Transport.{
  h2, h1, go_tls4, Upstream, failed, responded, Wire, is_clean, Fetched, after_refusal, walk,
  do_request,
}
use aniraku_backend.Proxy.Transport.Again.{Unhelped, do_request_again}
use aniraku_backend.Proxy.Handler.Again.{keep_and_serve_again}
use aniraku_backend.Proxy.Nonce.{
  param_name, join_params, is_nonce, kept_params, has_nonce, strip_proxy_nonce,
}
use aniraku_backend.Proxy.Answer.{Answer, fresh_answer}
use aniraku_backend.Proxy.Handler.Gates.{Refused, Passes, proxy-Passes}
use aniraku_backend.Proxy.Handler.{
  Library, lower_text, target_url, serve_rewritten_playlist, keep_and_serve, through_playlists,
  proxy,
}
use aniraku_backend.Proxy.Handler.Bodies.Sources.{proxy-Source}
use aniraku_backend.Proxy.Handler.Bodies.{Source}
use aniraku_backend.Streaming.VodCache.{is_cacheable_playlist, rejects}
use aniraku_backend.Proxy.Serve.{Shared, Url, Request, Course}
use aniraku_backend.Base.{
  if◌then◌else◌, Text, codes, text_eq, starts_with, contains, cut, split_from, split, lookup,
  insert, ◌≡◌, refl, ◌≢◌, ◌⊎◌, inl, true, false, Option, none, some, [], ◌∷◌, arith,
}

abbrev page : Text
page = codes "https://p1.edge/a.m3u8?rn=7&x=1"

abbrev stripped : Text
stripped = codes "https://p1.edge/a.m3u8?x=1"

abbrev edge_url : Url
edge_url = record {
  scheme = codes "https";
  hostname = codes "p1.edge";
  host = codes "p1.edge";
  port = [];
  path = codes "/a.m3u8";
  raw_query = codes "x=1";
}

abbrev decoded : Text → Option Text
decoded s = some s

abbrev same_text : Text → Text
same_text s = s

-- A library that reads one address, and rewrites a playlist to itself.
abbrev lib : Library
lib = record {
  lower_other = λ c. c;
  fold = same_text;
  parse_ip = λ s. none;
  cdn_env = [];
  cors_env = [];
  query_unescape = decoded;
  parse_url = λ s. if text_eq s stripped then some edge_url else none;
  key_query = same_text;
  rewrite = λ raw url headers al learned. (learned, raw);
}

abbrev list_text : Text
list_text = codes "#EXTM3U #EXT-X-ENDLIST"

abbrev listed_up : Upstream
listed_up = record {
  status = 200;
  content_type = codes "application/vnd.apple.mpegurl";
  content_range = [];
  accept_ranges = [];
  content_length = [];
  body = list_text;
  complete = true;
}

-- HTTP/2 fails; every other transport is answered.
abbrev wire : Wire
wire = record {
  reply = λ n t. elim t [ h2 ↦ failed (codes "reset") | other ↦ responded listed_up ];
  clock = λ n. n;
}

abbrev course : Course
course = record { now = 5; done = 6; admitted = true; stays = true; wire = wire }

abbrev request : Request
request = record { method = codes "GET"; origin = []; target = page; headers = []; al = [] }

abbrev shared : Shared
shared = record {
  learned = record { loaded = true; dynamic = (codes "p1.edge", 5) ∷ []; file = none };
  memo = [];
  playlists = [];
  keys = [];
}

abbrev public_answer : Answer
public_answer = fresh_answer false []

proxy-Source_example :
    Source lib course request (target_url lib request) shared (proxy lib course request shared).1
proxy-Source_example = proxy-Source lib course request shared

proxy-Passes_example :
    Refused lib course request shared (proxy lib course request shared)
    ⊎ ((u : Url) × Passes lib course request shared u
        × (proxy lib course request shared
            ≡ through_playlists lib course request
                (target_url lib request)
                u
                (lower_text lib u.path)
                (fresh_answer (is_allowed_origin lib.cors_env request.origin) request.origin)
                (record shared {
                  learned =
                      (host_gate lib.lower_other lib.parse_ip lib.cdn_env u.hostname course.now
                        shared.learned).0;
                })))
proxy-Passes_example = proxy-Passes lib course request shared

keep_and_serve_again_example :
    ((through_playlists lib course request stripped edge_url
        (codes "/a.m3u8")
        public_answer
        (keep_and_serve lib course request list_text stripped 200 public_answer shared).0).1
      ≡ (serve_rewritten_playlist lib course request list_text stripped 200 public_answer
          (keep_and_serve lib course request list_text stripped 200 public_answer shared).0).1)
    × ((through_playlists lib course request stripped edge_url
          (codes "/a.m3u8")
          public_answer
          (keep_and_serve lib course request list_text stripped 200 public_answer shared).0).0.memo
        ≡ shared.memo)
unfolding rejects text_eq contains is_cacheable_playlist starts_with
keep_and_serve_again_example =
    keep_and_serve_again lib course course request request list_text stripped 200 public_answer
      public_answer shared edge_url (codes "/a.m3u8") refl (omega arith) refl

abbrev won : Fetched
won = do_request wire (codes "p1.edge") true 0 []

h1_wins : won.tried ≡ h2 ∷ h1 ∷ []
unfolding do_request walk is_clean after_refusal insert lookup text_eq
h1_wins = refl

unhelped : Unhelped wire (codes "p1.edge") 0 []
unfolding lookup
unhelped = inl refl

before_last : h1 ≢ go_tls4
before_last = ground arith

do_request_again_example :
    do_request wire (codes "p1.edge") true 3 (do_request wire (codes "p1.edge") true 0 []).memo
    ≡ record {
      memo = (do_request wire (codes "p1.edge") true 0 []).memo;
      tried = h1 ∷ [];
      outcome = responded listed_up;
    }
unfolding is_clean
do_request_again_example =
    do_request_again wire wire (codes "p1.edge") 0 3 [] (h2 ∷ []) h1 unhelped h1_wins before_last
      (omega arith) refl

nonce_goes : strip_proxy_nonce decoded same_text page ≡ stripped
unfolding strip_proxy_nonce kept_params has_nonce is_nonce param_name join_params cut split
    split_from text_eq
nonce_goes = refl
