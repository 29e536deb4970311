-- ===== src/Middleware/RateLimit/Credit.antt =====
-- What a bucket can give over a span of time: its tokens, and the rate for each whole interval.
use native.Mathlib.Nat.{le-div_iff_mul-le, div-mul-le_self, mul-le-mul_left}
use aniraku_backend.Base.{
  ltb, if◌then◌else◌, Bool-cases, ℕ, ◌+◌, ◌-◌, ◌*◌, ◌/◌, ◌≤◌, ◌<◌, ◌≡◌, inl, inr, Option, none,
  some, arith,
}
use aniraku_backend.Middleware.RateLimit.{Visitor, RateLimiter, refill, take_token}

-- Two spans hold no more whole intervals than their sum.
div-add-le : (a b n : ℕ) → 0 < n → a / n + b / n ≤ (a + b) / n
div-add-le a b n pos =
    (le-div_iff_mul-le pos).1 (grind (arith, div-mul-le_self a n, div-mul-le_self b n))

pub span_credit : (r a b c n : ℕ) → 0 < n → a + b ≡ c → r * (a / n) + r * (b / n) ≤ r * (c / n)
span_credit r a b c n pos e = rw (← e) (omega (arith, mul-le-mul_left r (div-add-le a b n pos)))

-- What a bucket can still give by the time `e`.
unfoldable pub credit : RateLimiter → Visitor → ℕ → ℕ
credit rl v e = v.tokens + rl.rate * ((e - v.last_seen) / rl.interval)

pub refill-credit :
    (rl : RateLimiter) (v : Visitor) (now e : ℕ)
    → 0 < rl.interval
    → v.last_seen ≤ now
    → now ≤ e
    → credit rl (refill rl v now) e ≤ credit rl v e
unfolding credit refill
refill-credit rl v now e pos seen later =
    let whole : (now - v.last_seen) + (e - now) ≡ e - v.last_seen = omega arith in
    let spans =
      span_credit rl.rate (now - v.last_seen) (e - now) (e - v.last_seen) rl.interval pos whole in
    elim (Bool-cases (ltb 0 ((now - v.last_seen) / rl.interval))) [
      | inl some_refill ↦ rw some_refill (ground (arith, spans))
      | inr no_refill ↦ rw no_refill (omega arith)
    ]

-- A call that spends a token takes one from the credit.
pub take_token-credit :
    (rl : RateLimiter) (v : Visitor) (e : ℕ)
    → (if (take_token v).1 then 1 else 0) + credit rl (take_token v).0 e ≤ credit rl v e
unfolding credit take_token
take_token-credit rl v e = ground arith

pub take_token-last_seen : (v : Visitor) → (take_token v).0.last_seen ≡ v.last_seen
unfolding take_token
take_token-last_seen v = ground arith

pub refill-last_seen :
    (rl : RateLimiter) (v : Visitor) (now : ℕ)
    → v.last_seen ≤ now
    → (refill rl v now).last_seen ≤ now
unfolding refill
refill-last_seen rl v now h = ground arith

-- What one address can still be granted by the time `e`, from the time `s` on.
abbrev pub allowance : RateLimiter → Option Visitor → ℕ → ℕ → ℕ
allowance rl none s e = rl.burst + rl.rate * ((e - s) / rl.interval)
allowance rl (some v) s e = credit rl v e

abbrev pub SeenBy : ℕ → Option Visitor → Type 0
SeenBy s none = Unit {0}
SeenBy s (some v) = v.last_seen ≤ s

pub allowance_mono :
    (rl : RateLimiter) (o : Option Visitor) (s now e : ℕ)
    → 0 < rl.interval
    → s ≤ now
    → now ≤ e
    → allowance rl o now e ≤ allowance rl o s e
allowance_mono rl (some v) s now e pos h k = omega arith
allowance_mono rl none s now e pos h k =
    omega (arith, span_credit rl.rate (now - s) (e - now) (e - s) rl.interval pos (omega arith))

pub SeenBy-mono : (o : Option Visitor) (s now : ℕ) → s ≤ now → SeenBy s o → SeenBy now o
SeenBy-mono none s now h k = tt
SeenBy-mono (some v) s now h k = omega arith
