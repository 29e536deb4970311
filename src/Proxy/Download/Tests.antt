-- ===== src/Proxy/Download/Tests.antt =====
-- Runs of the download handler.
use aniraku_backend.Proxy.Answer.{relayed}
use aniraku_backend.Proxy.Handler.{Library, is_web}
use aniraku_backend.Proxy.Allowlist.{
  Learned, under, ensure_dynamic_cdn_loaded, trim_lower, clean, is_nuisance_proxy_host, add_all,
  proxy_cdn_suffixes, listed, allowed, is_allowed_proxy_host, is_private_literal,
  validate_proxy_target, gate, host_gate,
}
use aniraku_backend.Proxy.Download.{
  private_answer, send_file, pass_on, download_url, fetch_file, download, Ends, download-Ends,
}
use aniraku_backend.Base.{
  if◌then◌else◌, Text, codes, text_eq, is_space, trim_left, trim_right, trim_space, lower,
  starts_with, has_suffix, split_from, split, ◌≡◌, refl, true, none, some, [],
}
use aniraku_backend.Proxy.Transport.{Outcome, responded}
use aniraku_backend.Proxy.Serve.{Url, is_blocked_port, or_else, given}

abbrev film_url : Url
film_url = record {
  scheme = codes "https";
  hostname = codes "a.kwik.cx";
  host = codes "a.kwik.cx";
  port = [];
  path = codes "/film.mp4";
  raw_query = [];
}

abbrev film : Text
film = codes "https://a.kwik.cx/film.mp4"

abbrev lib : Library
lib = record {
  lower_other = λ c. c;
  fold = λ s. s;
  parse_ip = λ s. none;
  cdn_env = [];
  cors_env = [];
  query_unescape = λ s. some s;
  parse_url = λ s. if text_eq s film then some film_url else none;
  key_query = λ s. s;
  rewrite = λ raw url headers al learned. (learned, raw);
}

abbrev source : Outcome
source = responded (record {
  status = 200;
  content_type = codes "video/mp4";
  content_range = [];
  accept_ranges = [];
  content_length = codes "3";
  body = codes "abc";
  complete = true;
})

abbrev learned : Learned
learned = record { loaded = true; dynamic = []; file = none }

download-Ends_example :
    Ends lib 5 true source film learned (download lib 5 true source [] film learned).1
download-Ends_example = download-Ends lib 5 true source [] film learned

film_comes : (download lib 5 true source [] film learned).1.body ≡ relayed (codes "abc")
unfolding download fetch_file pass_on send_file is_web is_blocked_port download_url private_answer
    host_gate gate is_nuisance_proxy_host clean trim_lower under validate_proxy_target
    is_allowed_proxy_host is_private_literal ensure_dynamic_cdn_loaded allowed listed add_all
    proxy_cdn_suffixes lower trim_left trim_right trim_space text_eq has_suffix starts_with is_space
    split split_from given or_else
film_comes = refl
