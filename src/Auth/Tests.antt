-- ===== src/Auth/Tests.antt =====
-- Runs of the token verifier, the gates and the key cache of internal/auth.
use aniraku_backend.Base.{
  ◌==◌, if◌then◌else◌, Text, codes, text_eq, trim_space, lookup, ℕ, ◌+◌, ◌≡◌, refl, ◌≢◌, true,
  false, Option, none, some, List, [], ◌∷◌, map,
}
use aniraku_backend.Auth.Verifier.{Claims, expired, Outcome, ok, err, Verifier, Jwt, verify}
use aniraku_backend.Auth.Verifier.Accept.{Accepted, verify-Accepted, Accepted-verify}
use aniraku_backend.Auth.Gate.{Context, Rpc, body, admin_route, Bearer, admin_route-next}
use aniraku_backend.Auth.Jwks.{Jwks, one_hour, served_stale, refresh_failed, Call}
use aniraku_backend.Auth.Jwks.Laws.{given_in_outage}

abbrev user_1 : Text
user_1 = codes "user-1"

abbrev project : Verifier
project = record { aud = codes "authenticated"; issuer = codes "https://project/auth/v1" }

abbrev claims_1 : Claims
claims_1 = record {
  sub = user_1;
  audience = codes "authenticated" ∷ [];
  issuer = codes "https://project/auth/v1";
  expires_at = some 2_000_000_000_000;
  not_before = some 1_010_000_000_000;
}

abbrev library : Jwt ℕ
library = record {
  header = λ raw. some (record { kid = some (codes "k1"); alg = some (codes "RS256") });
  claims = λ raw key. some (claims_1, key == 7);
}

abbrev key_set : Text → Option ℕ
key_set kid = if text_eq kid (codes "k1") then some 7 else none

abbrev check_token : Text → Outcome Text
check_token raw = verify library key_set project raw 1_000_000_000_000

late_refused : verify library key_set project (codes "t") 2_000_000_000_001 ≡ err expired
unfolding verify text_eq trim_space
late_refused = refl

verify-Accepted_example : Accepted library key_set project (codes "t") 1_000_000_000_000 user_1
unfolding verify text_eq trim_space
verify-Accepted_example =
    verify-Accepted library key_set project (codes "t") 1_000_000_000_000 user_1 refl

Accepted-verify_example : verify library key_set project (codes "t") 1_000_000_000_000 ≡ ok user_1
unfolding verify text_eq trim_space
Accepted-verify_example =
    Accepted-verify library key_set project (codes "t") 1_000_000_000_000 user_1
      (verify-Accepted library key_set project (codes "t") 1_000_000_000_000 user_1 refl)

abbrev database : Text → Text → Rpc
database anon token = body (some (text_eq token (codes "t")))

abbrev seen : Context
seen = record { user_id = some user_1; raw_token = some (codes "t") }

admin_route-next_example :
    (scheme : Text) × (user : Text) × (token : Text) × Bearer check_token
      (codes "bearer t")
      seen
      scheme
      user
      token
    × (user ≢ [])
    × (database (codes "anon") token ≡ body (some true))
unfolding admin_route verify text_eq trim_space
admin_route-next_example =
    admin_route-next check_token database (codes "anon") (codes "bearer t") seen refl

abbrev stale_keys : Jwks ℕ
stale_keys = record {
  keys = (codes "k1", 7) ∷ [];
  expires = 100;
  ttl = one_hour;
  refreshing = false;
  last_attempt = 0;
}

abbrev fresh_keys : Jwks ℕ
fresh_keys = record {
  keys = (codes "k1", 7) ∷ [];
  expires = one_hour;
  ttl = one_hour;
  refreshing = false;
  last_attempt = 0;
}

-- A known id and an unknown one, a year after the keys expired, then the known one again; the network is
-- down, and later up with a key that does not parse.
abbrev year : ℕ
year = 31_536_000_000_000_000

abbrev outage : List (Call ℕ)
outage =
    record { kid = codes "k1"; answer = none; start = year; later = year + 1 }
    ∷ record {
      kid = codes "k2";
      answer = some (record { kid = codes "k2"; parsed = none } ∷ []);
      start = year + 2;
      later = year + 3;
    }
    ∷ record { kid = codes "k1"; answer = some []; start = year + 4; later = year + 5 }
    ∷ []

still_served :
    map (given_in_outage stale_keys.keys stale_keys.expires) outage
    ≡ served_stale 7 ∷ refresh_failed ∷ served_stale 7 ∷ []
unfolding lookup text_eq
still_served = refl
