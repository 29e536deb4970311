-- ===== src/Anilist/Tests.antt =====
-- Runs of the AniList client, its breaker and its bucket.
use aniraku_backend.Base.{
  ◌==◌, if◌then◌else◌, codes, text_eq, trim_space, digits, atoi, lookup, ◌+◌, ◌*◌, ◌≡◌, refl, true,
  false, some, [], ◌∷◌, arith,
}
use aniraku_backend.Anilist.Breaker.{
  closed, half_open, CircuitBreaker, allow, succeeds, fails, run, half_open_stays,
}
use aniraku_backend.Anilist.Bucket.{TokenBucket, token}
use aniraku_backend.Anilist.Client.{
  Client, unreachable, answered, idle, Env, ok, second, succeed, attempts, do_request,
}
use aniraku_backend.Anilist.Client.Reuse.{Origin, do_request-Origin}
use aniraku_backend.Anilist.Client.Again.{do_request_twice}

abbrev breaker : CircuitBreaker
breaker = record {
  failures = 0;
  successes = 0;
  last_failure = 0;
  state = closed;
  failure_threshold = 5;
  success_threshold = 2;
  timeout = 30 * second;
}

half_open_stays_example :
    ((run (record breaker { state = half_open }) (succeeds ∷ fails 7 ∷ [])).state ≡ half_open)
    × ((allow (run (record breaker { state = half_open }) (succeeds ∷ fails 7 ∷ [])) 8).1 ≡ true)
half_open_stays_example =
    half_open_stays (record breaker { state = half_open }) 7 8 refl (omega arith) (omega arith)

abbrev bucket : TokenBucket
bucket = record { capacity = 8 * token; tokens = token; refill_rate = 4; last = 0 }

abbrev drained : TokenBucket
drained = record bucket { tokens = 0 }

abbrev client : Client
client = record {
  cache = [];
  circuit = breaker;
  now = 100;
  requests = 0;
  hits = 0;
  stales = 0;
  upstream_ok = 0;
  upstream_err = 0;
}

-- A limit at first, and an answer on the second attempt.
abbrev network : Env
network = record {
  reply = λ a. if a == 0 then answered 429 [] (codes "2") else answered 200 (codes "body") [];
  took = λ a. 7;
  cancelled = λ a. false;
  in_flight = idle;
  paced = some 0;
  builds = true;
}

-- Nothing answers.
abbrev outage : Env
outage = record network { reply = λ a. unreachable }

answered_second : (do_request false network (codes "q") client).1 ≡ ok (codes "body")
unfolding do_request allow attempts succeed text_eq trim_space lookup atoi digits
answered_second = refl

do_request-Origin_example : Origin false network (codes "q") [] (codes "body")
unfolding do_request allow attempts succeed text_eq trim_space lookup atoi digits
do_request-Origin_example =
    do_request-Origin false network (codes "q") client (codes "body") refl refl

abbrev after : Client
after = (do_request false network (codes "q") client).0

do_request_twice_example :
    ((do_request false outage (codes "q") (record after { now = after.now + 9 })).1
      ≡ ok (codes "body"))
    × ((do_request false outage (codes "q") (record after { now = after.now + 9 })).0.requests
        ≡ after.requests)
unfolding do_request allow attempts succeed text_eq trim_space lookup atoi digits
do_request_twice_example =
    do_request_twice false false network outage (codes "q") (codes "body") client 9 refl refl refl
      refl (omega arith)
