-- ===== src/Middleware/RateLimit.antt =====
-- internal/api/middleware/ratelimit.go. A time is a number of nanoseconds, handed to each call by
-- the clock. Rate, burst and interval are natural numbers (the router's are 30, 60 and a second), and
-- `int` does not overflow. Where the clock goes back, Go's negative quotient and the truncated
-- difference here both give no refill.
pub mod Valid
pub mod Credit
pub mod Flow
pub mod Sweep
pub mod Tests
use aniraku_backend.Base.{
  ltb, leb, if◌then◌else◌, length, Text, Dict, lookup, insert, delete, evict_oldest, ℕ, ◌+◌, ◌-◌,
  ◌*◌, ◌/◌, Bool, true, false, none, some, List, [], ◌∷◌,
}
use aniraku_backend.Net.HostPort.{split_host_port}

pub record Visitor : Type 0 where
  pub tokens : ℕ
  pub last_seen : ℕ

pub record RateLimiter : Type 0 where
  pub visitors : Dict Visitor
  pub rate : ℕ
  pub burst : ℕ
  pub interval : ℕ
  pub max_visitors : ℕ
  pub stopped : Bool

pub new_rate_limiter : ℕ → ℕ → ℕ → RateLimiter
new_rate_limiter rate burst interval = record {
  visitors = [];
  rate = rate;
  burst = burst;
  interval = interval;
  max_visitors = 10000;
  stopped = false;
}

abbrev pub seen_at : Visitor → ℕ
seen_at v = v.last_seen

-- The refill of a known visitor.
pub refill : RateLimiter → Visitor → ℕ → Visitor
refill rl v now =
    let n = (now - v.last_seen) / rl.interval in
    let tokens = v.tokens + n * rl.rate in
    if ltb 0 n
    then record { tokens = if ltb rl.burst tokens then rl.burst else tokens; last_seen = now }
    else v

-- `if v.tokens > 0 { v.tokens--; return true }; return false`
pub take_token : Visitor → Visitor × Bool
take_token v = if ltb 0 v.tokens then (record v { tokens = v.tokens - 1 }, true) else (v, false)

abbrev pub first_visit : RateLimiter → ℕ → Visitor
first_visit rl now = record { tokens = rl.burst - 1; last_seen = now }

-- The map after the search for room.
pub make_room : RateLimiter → Dict Visitor
make_room rl =
    if leb rl.max_visitors (length rl.visitors)
    then evict_oldest seen_at rl.visitors
    else rl.visitors

unfoldable pub allow : RateLimiter → Text → ℕ → RateLimiter × Bool
unfolding refill take_token make_room
allow rl ip now = elim (lookup ip rl.visitors) [
  | none ↦ (record rl { visitors = insert ip (first_visit rl now) (make_room rl) }, true)
  | some v ↦
      let spent = take_token (refill rl v now) in
      (record rl { visitors = insert ip spent.0 rl.visitors }, spent.1)
]

-- `Middleware`: a request is let through, or answered with 429.
pub limit_request : RateLimiter → Text → ℕ → RateLimiter × Bool
unfolding allow
limit_request rl remote now =
    let host : Text = elim (split_host_port remote) [ none ↦ remote | some (host, port) ↦ host ] in
    allow rl host now

abbrev pub ten_minutes : ℕ
ten_minutes = 600_000_000_000

-- One round of `cleanup`: the addresses are collected under the lock, and deleted under it later.
pub stale : ℕ → Dict Visitor → List Text
stale now [] = []
stale now ((ip, v) ∷ m) =
    let rest = stale now m in if ltb ten_minutes (now - v.last_seen) then ip ∷ rest else rest

pub delete_all : List Text → Dict Visitor → Dict Visitor
delete_all [] m = m
delete_all (ip ∷ ips) m = delete_all ips (delete ip m)

pub cleanup_collect : RateLimiter → ℕ → List Text
unfolding stale
cleanup_collect rl now = stale now rl.visitors

pub cleanup_delete : RateLimiter → List Text → RateLimiter
unfolding delete_all
cleanup_delete rl ips = record rl { visitors = delete_all ips rl.visitors }

-- `Stop` closes the channel once; the flag is its whole effect on the state.
pub stop : RateLimiter → RateLimiter
stop rl = if rl.stopped then rl else record rl { stopped = true }
