-- ===== src/Anilist/Bucket.antt =====
-- The token bucket of internal/api/v1/anilist_client.go. The source's floats are read as exact numbers:
-- tokens are counted in units of which `token` make one, and the refill is the units of a nanosecond.
use aniraku_backend.Base.{
  leb, if◌then◌else◌, ℕ, ◌+◌, ◌-◌, ◌*◌, ◌/◌, ◌≤◌, ◌<◌, ◌≡◌, ap, Bool, true, false, List, [], ◌∷◌,
  arith,
}
use native.Mathlib.Nat.{lt-mul-div-succ, mul-le-mul_left, mul_comm}
use Prim.Native.Nat.{min}

pub record TokenBucket : Type 0 where
  pub capacity : ℕ
  pub tokens : ℕ
  pub refill_rate : ℕ
  pub last : ℕ

-- 10^-10 of a token is the unit, so that 0.4 tokens a second are 4 units a nanosecond.
abbrev pub token : ℕ
token = 10_000_000_000

pub new_token_bucket : ℕ → ℕ → ℕ → TokenBucket
new_token_bucket capacity refill_rate now = record {
  capacity = capacity;
  tokens = capacity;
  refill_rate = refill_rate;
  last = now;
}

-- The bucket of `newAnilistClient`: capacity 8, 0.4 tokens a second.
pub anilist_bucket : ℕ → TokenBucket
unfolding new_token_bucket
anilist_bucket now = new_token_bucket (8 * token) 4 now

-- One critical section of `wait`: the bucket, and whether a token was taken.
unfoldable pub attempt : TokenBucket → ℕ → TokenBucket × Bool
attempt tb now =
    let tokens = min tb.capacity (tb.tokens + (now - tb.last) * tb.refill_rate) in
    if leb token tokens
    then (record tb { tokens = tokens - token; last = now }, true)
    else (record tb { tokens = tokens; last = now }, false)

-- The timer between two attempts: the missing part of a token, and ten milliseconds.
unfoldable pub pause : TokenBucket → ℕ
pause tb = (token - tb.tokens) / tb.refill_rate + 10_000_000

-- The tokens that a run of attempts, at these times, takes.
unfoldable pub taken : TokenBucket → List ℕ → ℕ
unfolding attempt
taken tb [] = 0
taken tb (now ∷ times) =
    let after = attempt tb now in (if after.1 then 1 else 0) + taken after.0 times

abbrev pub Ordered : ℕ → ℕ → List ℕ → Type 0
Ordered s e [] = s ≤ e
Ordered s e (now ∷ times) = (s ≤ now) × Ordered now e times

Ordered-le : (s e : ℕ) (times : List ℕ) → Ordered s e times → s ≤ e
Ordered-le s e [] h = h
Ordered-le s e (now ∷ times) h = omega (arith, Ordered-le now e times h.1)

attempt_keeps :
    (tb : TokenBucket) (now : ℕ)
    → ((attempt tb now).0.last ≡ now) × ((attempt tb now).0.refill_rate ≡ tb.refill_rate)
unfolding attempt
attempt_keeps tb now = (ground arith, ground arith)

attempt_pays :
    (tb : TokenBucket) (now : ℕ)
    → (if (attempt tb now).1 then 1 else 0) * token + (attempt tb now).0.tokens
      ≤ tb.tokens + (now - tb.last) * tb.refill_rate
unfolding attempt
attempt_pays tb now = ground arith

-- Where the times do not fall, the tokens that attempts take over a span of time are paid for by
-- what the bucket held at its start and what has flowed in since.
pub taken-le :
    (tb : TokenBucket) (e : ℕ) (times : List ℕ)
    → Ordered tb.last e times
    → taken tb times * token ≤ tb.tokens + (e - tb.last) * tb.refill_rate
unfolding taken
taken-le tb e [] h = omega arith
taken-le tb e (now ∷ times) h =
    let later = Ordered-le now e times h.1 in
    let whole : (now - tb.last) + (e - now) ≡ e - tb.last = omega (arith, h.0, later) in
    let rest = taken-le (attempt tb now).0 e times (rw (attempt_keeps tb now).0 h.1) in
    let (seen, flow) = attempt_keeps tb now in
    let rest' : taken (attempt tb now).0 times * token
        ≤ (attempt tb now).0.tokens + (e - now) * tb.refill_rate =
      ground (arith, rest, seen, flow) in
    omega (arith, attempt_pays tb now, rest', ap (λ (t : ℕ). t * tb.refill_rate) whole)

flow_covers : (x r d : ℕ) → 0 < r → x / r + 10_000_000 ≤ d → x ≤ d * r
flow_covers x r d pos h =
    omega (arith, lt-mul-div-succ x pos, mul-le-mul_left r (enough (x / r) d h), mul_comm d r)
  where
    enough : (q d : ℕ) → q + 10_000_000 ≤ d → q + 1 ≤ d
    enough q d h = omega arith

attempt_capacity : (tb : TokenBucket) (now : ℕ) → (attempt tb now).0.capacity ≡ tb.capacity
unfolding attempt
attempt_capacity tb now = ground arith

refill_enough :
    (tb : TokenBucket) (later : ℕ)
    → token ≤ tb.capacity
    → token - tb.tokens ≤ (later - tb.last) * tb.refill_rate
    → (attempt tb later).1 ≡ true
unfolding attempt
refill_enough tb later cap h = ground arith

-- Where the bucket can hold a token and fills, a caller that was refused and sleeps out its pause
-- takes a token at its next attempt, if no other caller has come between.
pub wait_ends :
    (tb : TokenBucket) (now later : ℕ)
    → token ≤ tb.capacity
    → 0 < tb.refill_rate
    → (attempt tb now).1 ≡ false
    → now + pause (attempt tb now).0 ≤ later
    → (attempt (attempt tb now).0 later).1 ≡ true
unfolding pause
wait_ends tb now later cap pos refused slept =
    let (seen, flow) = attempt_keeps tb now in
    refill_enough (attempt tb now).0 later (rw (attempt_capacity tb now) cap) (
      flow_covers (token - (attempt tb now).0.tokens) (attempt tb now).0.refill_rate
        (later - (attempt tb now).0.last) (rw flow pos) (rw seen (omega (arith, slept))))
