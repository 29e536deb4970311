-- ===== src/Middleware/RateLimit/Tests.antt =====
-- Runs of the rate limiter.
use aniraku_backend.Base.{
  Text, text_eq, lookup, insert, delete, evict_oldest, ◌+◌, ◌-◌, ◌*◌, ◌/◌, ◌≤◌, ◌≡◌, refl, ◌≢◌,
  false, none, [], ◌∷◌, arith,
}
use aniraku_backend.Middleware.RateLimit.{
  RateLimiter, refill, take_token, make_room, allow, cleanup_collect, cleanup_delete,
}
use aniraku_backend.Middleware.RateLimit.Flow.{granted, granted-le_fresh}
use aniraku_backend.Middleware.RateLimit.Sweep.{cleanup_forgets}
use aniraku_backend.Middleware.RateLimit.Valid.{IsValid, allow-IsValid}

abbrev ip_a : Text
ip_a = b'a' ∷ []

abbrev ip_b : Text
ip_b = b'b' ∷ []

abbrev ip_c : Text
ip_c = b'c' ∷ []

-- Room for two, and two seen: one at 5 and one at 3.
abbrev full : RateLimiter
full = record {
  visitors =
      (ip_a, record { tokens = 1; last_seen = 5 })
      ∷ (ip_b, record { tokens = 0; last_seen = 3 })
      ∷ [];
  rate = 1;
  burst = 2;
  interval = 1_000_000_000;
  max_visitors = 2;
  stopped = false;
}

unlike : ip_b ≢ ip_a
unlike e = ground (arith, e)

blank_a : ip_a ≢ []
blank_a e = cc

blank_b : ip_b ≢ []
blank_b e = cc

full-IsValid : IsValid full
full-IsValid = record {
  distinct = ((unlike, tt), (tt, tt));
  named = (blank_a, (blank_b, tt));
  bounded = omega arith;
  filled = (omega arith, (omega arith, tt));
}

blank_c : ip_c ≢ []
blank_c e = cc

abbrev empty : RateLimiter
empty = record full { visitors = []; max_visitors = 10 }

-- The oldest of the two makes room.
evicts : lookup ip_b (allow full ip_c 9).0.visitors ≡ none
unfolding allow make_room evict_oldest lookup insert delete text_eq
evicts = refl

allow-IsValid_example : IsValid (allow full ip_c 9).0
allow-IsValid_example = allow-IsValid full ip_c 9 full-IsValid blank_c (omega arith)

granted-le_fresh_example :
    granted ip_a empty ((ip_a, 1) ∷ (ip_a, 2) ∷ (ip_a, 3) ∷ [])
    ≤ 2 + 1 * ((1_500_000_000 - 1) / 1_000_000_000)
unfolding lookup
granted-le_fresh_example =
    granted-le_fresh empty ip_a 1 1_500_000_000 ((ip_a, 1) ∷ (ip_a, 2) ∷ (ip_a, 3) ∷ [])
      (omega arith) (omega arith) (omega arith)
      (omega arith, (omega arith, (omega arith, omega arith))) refl

three_in_a_row : granted ip_a empty ((ip_a, 1) ∷ (ip_a, 2) ∷ (ip_a, 3) ∷ []) ≡ 2
unfolding granted allow lookup insert text_eq make_room refill take_token
three_in_a_row = refl

cleanup_forgets_example :
    lookup ip_b
      (cleanup_delete
        (allow full ip_b 600_000_000_004).0
        (cleanup_collect full 600_000_000_004)).visitors
    ≡ none
unfolding lookup text_eq
cleanup_forgets_example =
    cleanup_forgets full (allow full ip_b 600_000_000_004).0 600_000_000_004 ip_b
      (record { tokens = 0; last_seen = 3 }) full-IsValid refl (omega arith)
