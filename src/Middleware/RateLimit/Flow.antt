-- ===== src/Middleware/RateLimit/Flow.antt =====
-- How many requests the rate limiter lets through over a span of time.
use aniraku_backend.Base.{
  leb, if◌then◌else◌, Bool-cases, Option-cases, length, Text, text_eq, text_eq_iff, lookup, insert,
  lookup-insert, length-insert-le, length-insert_known, ℕ, ◌+◌, ◌-◌, ◌*◌, ◌/◌, ◌≤◌, ◌<◌, ◌≡◌, inl,
  inr, Bool, true, false, ◌&&◌, none, some, List, [], ◌∷◌, arith,
}
use aniraku_backend.Middleware.RateLimit.{
  Visitor, RateLimiter, refill, take_token, first_visit, make_room, allow,
}
use aniraku_backend.Middleware.RateLimit.Credit.{
  span_credit, credit, refill-credit, take_token-credit, take_token-last_seen, refill-last_seen,
  allowance, SeenBy, allowance_mono, SeenBy-mono,
}

-- Requests in the order of their arrival, each an address and a time.
abbrev pub Trace : Type 0
Trace = List (Text × ℕ)

-- The requests of one address that a trace of calls lets through.
unfoldable pub granted : Text → RateLimiter → Trace → ℕ
granted ip rl [] = 0
granted ip rl ((j, now) ∷ rest) =
    let after = allow rl j now in
    (if after.1 && text_eq j ip then 1 else 0) + granted ip after.0 rest

-- The times do not fall, start at `s` or later, and end at `e` or earlier.
abbrev pub Ordered : ℕ → ℕ → Trace → Type 0
Ordered s e [] = s ≤ e
Ordered s e ((j, now) ∷ rest) = (s ≤ now) × Ordered now e rest

Ordered-le : (s e : ℕ) (t : Trace) → Ordered s e t → s ≤ e
Ordered-le s e [] h = h
Ordered-le s e ((j, now) ∷ rest) h = omega (arith, Ordered-le now e rest h.1)

abbrev one_if : Bool → ℕ
one_if b = if b then 1 else 0

-- The three cases of a call, where the table has room.
allow_known :
    (rl : RateLimiter) (ip : Text) (now : ℕ) (v : Visitor)
    → lookup ip rl.visitors ≡ some v
    → allow rl ip now ≡ (
      record rl { visitors = insert ip (take_token (refill rl v now)).0 rl.visitors },
      (take_token (refill rl v now)).1,
    )
unfolding allow
allow_known rl ip now v found = rw (found, allow)

allow_new :
    (rl : RateLimiter) (ip : Text) (now : ℕ)
    → lookup ip rl.visitors ≡ none
    → length rl.visitors < rl.max_visitors
    → allow rl ip now ≡ (record rl { visitors = insert ip (first_visit rl now) rl.visitors }, true)
unfolding allow make_room
allow_new rl ip now absent room =
    let small : leb rl.max_visitors (length rl.visitors) ≡ false = ground arith in
    rw (absent, allow) (rw small)

-- The first call, by a visitor whom the table does not know.
new_case :
    (rl : RateLimiter) (ip j : Text) (s now e g : ℕ)
    → 0 < rl.interval
    → 0 < rl.burst
    → s ≤ now
    → now ≤ e
    → lookup j rl.visitors ≡ none
    → g
      ≤ allowance rl
          (if text_eq j ip then some (first_visit rl now) else lookup ip rl.visitors)
          now
          e
    → one_if (true && text_eq j ip) + g ≤ allowance rl (lookup ip rl.visitors) s e
unfolding credit
new_case rl ip j s now e g pos pos' h k absent bound = elim (Bool-cases (text_eq j ip)) [
  | inl same ↦
      let absent' : lookup ip rl.visitors ≡ none = rw (← (text_eq_iff j ip).0 same) absent in
      let bound' = rw same at bound in
      rw (same, absent')
        (omega (
          arith,
          bound',
          span_credit rl.rate (now - s) (e - now) (e - s) rl.interval pos (omega arith),
        ))
  | inr other ↦
      let bound' = rw other at bound in
      rw other (omega (arith, bound', allowance_mono rl (lookup ip rl.visitors) s now e pos h k))
]

spend-credit :
    (rl : RateLimiter) (v : Visitor) (now e : ℕ)
    → 0 < rl.interval
    → v.last_seen ≤ now
    → now ≤ e
    → one_if (take_token (refill rl v now)).1 + credit rl (take_token (refill rl v now)).0 e
      ≤ credit rl v e
spend-credit rl v now e pos h k =
    omega (arith, take_token-credit rl (refill rl v now) e, refill-credit rl v now e pos h k)

-- The first call, by a known visitor.
known_case :
    (rl : RateLimiter) (ip j : Text) (v : Visitor) (s now e g : ℕ)
    → 0 < rl.interval
    → s ≤ now
    → now ≤ e
    → SeenBy s (lookup ip rl.visitors)
    → lookup j rl.visitors ≡ some v
    → g
      ≤ allowance rl
          (if text_eq j ip then some (take_token (refill rl v now)).0 else lookup ip rl.visitors)
          now
          e
    → one_if ((take_token (refill rl v now)).1 && text_eq j ip) + g
      ≤ allowance rl (lookup ip rl.visitors) s e
known_case rl ip j v s now e g pos h k seen found bound = elim (Bool-cases (text_eq j ip)) [
  | inl same ↦
      let found' : lookup ip rl.visitors ≡ some v = rw (← (text_eq_iff j ip).0 same) found in
      let bound' = rw same at bound in
      let early : v.last_seen ≤ s = rw found' at seen in
      let spent = spend-credit rl v now e pos (omega arith) k in
      rw (same, found') (ground (arith, bound', spent))
  | inr other ↦
      let bound' = rw other at bound in
      rw other (ground (arith, bound', allowance_mono rl (lookup ip rl.visitors) s now e pos h k))
]

-- The bucket that a call leaves is not ahead of the clock.
SeenBy-insert :
    (rl : RateLimiter) (ip j : Text) (v : Visitor) (s now : ℕ)
    → s ≤ now
    → v.last_seen ≤ now
    → SeenBy s (lookup ip rl.visitors)
    → SeenBy now (lookup ip (insert j v rl.visitors))
SeenBy-insert rl ip j v s now h k seen = rw lookup-insert (elim (Bool-cases (text_eq j ip)) [
  | inl same ↦ rw same k
  | inr other ↦ rw other (SeenBy-mono (lookup ip rl.visitors) s now h seen)
])

known_seen :
    (rl : RateLimiter) (ip j : Text) (v : Visitor) (s now : ℕ)
    → s ≤ now
    → lookup j rl.visitors ≡ some v
    → SeenBy s (lookup ip rl.visitors)
    → SeenBy now (lookup ip (insert j (take_token (refill rl v now)).0 rl.visitors))
known_seen rl ip j v s now h found seen = rw lookup-insert (elim (Bool-cases (text_eq j ip)) [
  | inl same ↦
      let found' : lookup ip rl.visitors ≡ some v = rw (← (text_eq_iff j ip).0 same) found in
      let early : v.last_seen ≤ s = rw found' at seen in
      rw same (
        omega
          (arith, take_token-last_seen (refill rl v now), refill-last_seen rl v now (omega arith)))
  | inr other ↦ rw other (SeenBy-mono (lookup ip rl.visitors) s now h seen)
])

granted-le :
    (rl : RateLimiter) (ip : Text) (s e : ℕ) (t : Trace)
    → 0 < rl.interval
    → 0 < rl.burst
    → length rl.visitors + length t ≤ rl.max_visitors
    → Ordered s e t
    → SeenBy s (lookup ip rl.visitors)
    → granted ip rl t ≤ allowance rl (lookup ip rl.visitors) s e
unfolding granted credit
granted-le rl ip s e [] pos pos' room order seen = omega arith
granted-le rl ip s e ((j, now) ∷ rest) pos pos' room order seen =
    elim (Option-cases (lookup j rl.visitors)) [
      | inl absent ↦
          let after = record rl { visitors = insert j (first_visit rl now) rl.visitors } in
          let ih =
            granted-le after ip now e rest pos pos'
              (omega (arith, length-insert-le j (first_visit rl now) rl.visitors)) order.1
              (SeenBy-insert rl ip j (first_visit rl now) s now order.0 (omega arith) seen) in
          rw (allow_new rl j now absent (omega arith)) (
            new_case rl ip j s now e (granted ip after rest) pos pos' order.0
              (Ordered-le now e rest order.1) absent (rw lookup-insert at ih))
      | inr (v, found) ↦
          let v' = (take_token (refill rl v now)).0 in
          let after = record rl { visitors = insert j v' rl.visitors } in
          let ih =
            granted-le after ip now e rest pos pos'
              (omega (arith, length-insert_known j v v' rl.visitors found)) order.1
              (known_seen rl ip j v s now order.0 found seen) in
          rw (allow_known rl j now v found) (
            known_case rl ip j v s now e (granted ip after rest) pos order.0
              (Ordered-le now e rest order.1) seen found (rw lookup-insert at ih))
    ]

-- Where interval and burst are positive, the table has room for every request of the trace, and
-- times do not fall, an address that is new is granted at most a burst and the rate for each whole
-- interval of the span.
pub granted-le_fresh :
    (rl : RateLimiter) (ip : Text) (s e : ℕ) (t : Trace)
    → 0 < rl.interval
    → 0 < rl.burst
    → length rl.visitors + length t ≤ rl.max_visitors
    → Ordered s e t
    → lookup ip rl.visitors ≡ none
    → granted ip rl t ≤ rl.burst + rl.rate * ((e - s) / rl.interval)
granted-le_fresh rl ip s e t pos pos' room order absent =
    rw absent at (granted-le rl ip s e t pos pos' room order (rw absent tt))
