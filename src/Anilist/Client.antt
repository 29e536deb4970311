-- ===== src/Anilist/Client.antt =====
-- `anilistClient.do` of internal/api/v1/anilist_client.go: one caller's run through breaker, in-flight
-- wait, cache, pacing and retries. The state holds what the run reads and writes; the environment says
-- how the network, the context and other callers behave during it. The breaker is always present, as
-- `NewHandlers` makes it.
pub mod Retry
pub mod Reuse
pub mod Again
use aniraku_backend.Base.{
  ltb, leb, ◌==◌, if◌then◌else◌, Text, text_eq, trim_space, atoi, Dict, lookup, insert, ℕ, zero,
  suc, ◌+◌, ◌-◌, ◌*◌, ◌%◌, ◌^◌, Bool, true, false, not, ◌&&◌, ◌||◌, Option, none, some, [],
}
use aniraku_backend.Anilist.Breaker.{CircuitBreaker, allow, record_success, record_failure}

pub record CacheEntry : Type 0 where
  pub payload : Text
  pub fetched_at : ℕ

pub record Client : Type 0 where
  pub cache : Dict CacheEntry
  pub circuit : CircuitBreaker
  pub now : ℕ
  -- Requests sent to the endpoint, and the counters of the metrics.
  pub requests : ℕ
  pub hits : ℕ
  pub stales : ℕ
  pub upstream_ok : ℕ
  pub upstream_err : ℕ

pub data Reply : Type 0 where
  unreachable : Reply
  answered : (status : ℕ) (body retry_after : Text) → Reply

-- Another caller's request for the same key: none under way, or one that ended after it had changed the
-- state, or the context ended first.
pub data InFlight : Type 0 where
  idle gone : InFlight
  woken : (Client → Client) → InFlight

pub record Env : Type 0 where
  pub reply : ℕ → Reply
  pub took : ℕ → ℕ
  -- The context ends in the pause after this attempt.
  pub cancelled : ℕ → Bool
  pub in_flight : InFlight
  -- The wait for the token bucket; `none` where the context ends in it.
  pub paced : Option ℕ
  -- `http.NewRequestWithContext` succeeds.
  pub builds : Bool

pub data Failure : Type 0 where
  circuit_open context_ended build_failed host_unreachable rate_limited bad_status : Failure

pub data Result : Type 0 where
  ok : Text → Result
  err : Failure → Result

abbrev pub second : ℕ
second = 1_000_000_000

abbrev pub cache_ttl : ℕ
cache_ttl = 300_000_000_000

abbrev pub max_retries : ℕ
max_retries = 3

-- The duration is an `int64`, kept as its residue below 2^64.
unfoldable pub parse_retry_after : Text → ℕ
unfolding trim_space atoi
parse_retry_after v = elim (atoi (trim_space v)) [
  | none ↦ 0
  | some (negative, secs) ↦ if negative then 0 else (secs * second) % 2 ^ 64
]

unfoldable pub stale_cache : Dict CacheEntry → Text → Option Text
stale_cache cache key = elim (lookup key cache) [
  | none ↦ none
  | some e ↦ if text_eq e.payload [] then none else some e.payload
]

-- An upstream failure: it is counted, and a stale entry serves in place of the error.
unfoldable pub fail_with : Text → Failure → Client → Client × Result
unfolding stale_cache
fail_with key f c =
    let c' = record c {
      circuit = record_failure c.circuit c.now;
      upstream_err = c.upstream_err + 1;
    } in
    elim (stale_cache c.cache key) [
      | none ↦ (c', err f)
      | some body ↦ (record c' { stales = c.stales + 1 }, ok body)
    ]

unfoldable pub succeed : Text → Text → Client → Client × Result
succeed key body c = (
  record c {
    circuit = record_success c.circuit;
    upstream_ok = c.upstream_ok + 1;
    cache = insert key (record { payload = body; fetched_at = c.now }) c.cache;
  },
  ok body,
)

-- The pause that a 429 asks for: Retry-After, or a minute; three seconds at most on the mirror.
unfoldable pub retry_wait : Bool → ℕ → ℕ
retry_wait local_mirror asked =
    let wait = if asked == 0 || leb (2 ^ 63) asked then 60 * second else asked in
    if local_mirror && ltb (3 * second) wait then 3 * second else wait

module _ (local_mirror : Bool) (env : Env) (key : Text) where
  unfoldable pub sent : ℕ → Client → Client
  sent a c = record c { requests = c.requests + 1; now = c.now + env.took a }

  -- The loop, by the retries that are left; `a` is `attempt`. The last round returns on every branch.
  unfoldable pub attempts : ℕ → ℕ → Client → Client × Result
  unfolding fail_with succeed retry_wait parse_retry_after sent
  attempts zero a c = if not env.builds then (c, err build_failed) else elim (env.reply a) [
    | unreachable ↦ fail_with key host_unreachable (sent a c)
    | answered status body retry_after ↦
        if status == 429
        then fail_with key rate_limited (sent a c)
        else if not (status == 200)
        then fail_with key bad_status (sent a c)
        else succeed key body (sent a c)
  ]
  attempts (suc left) a c =
      let after = sent a c in
      if not env.builds then (c, err build_failed) else elim (env.reply a) [
        | unreachable ↦
            if env.cancelled a
            then (after, err context_ended)
            else attempts left (a + 1) (record after { now = after.now + second * (a + 1) })
        | answered status body retry_after ↦
            if status == 429
            then elim (env.cancelled a) [
              | true ↦ (after, err context_ended)
              | false ↦ attempts left (a + 1) (record after {
                now = after.now + retry_wait local_mirror (parse_retry_after retry_after);
              })
            ]
            else if not (status == 200)
            then fail_with key bad_status after
            else succeed key body after
      ]

  -- Behind the cache: the pacing, which the mirror does without, and the loop.
  pub fetch : Client → Client × Result
  unfolding attempts
  fetch c = if local_mirror then attempts max_retries 0 c else elim env.paced [
    | none ↦ (c, err context_ended)
    | some d ↦ attempts max_retries 0 (record c { now = c.now + d })
  ]

  pub cached_or_fetch : Client → Client × Result
  unfolding fetch
  cached_or_fetch c = elim (lookup key c.cache) [
    | none ↦ fetch c
    | some e ↦
        if ltb (c.now - e.fetched_at) cache_ttl
        then (record c { hits = c.hits + 1 }, ok e.payload)
        else fetch c
  ]

  pub deduplicated : Client → Client × Result
  unfolding cached_or_fetch
  deduplicated c = elim env.in_flight [
    | idle ↦ cached_or_fetch c
    | gone ↦ (c, err context_ended)
    | woken others ↦ cached_or_fetch (others c)
  ]

  pub refused : Client → Client × Result
  unfolding stale_cache
  refused c = elim (stale_cache c.cache key) [
    | none ↦ (c, err circuit_open)
    | some body ↦ (record c { stales = c.stales + 1 }, ok body)
  ]

  unfoldable pub do_request : Client → Client × Result
  unfolding deduplicated refused
  do_request c =
      let (circuit, allowed) = allow c.circuit c.now in
      let c' = record c { circuit = circuit } in if allowed then deduplicated c' else refused c'
