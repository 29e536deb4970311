-- ===== src/Anilist/Breaker.antt =====
-- The circuit breaker of internal/api/v1/anilist_client.go. Each method
-- is one critical section, with the clock's reading as an argument.
use aniraku_backend.Base.{
  ltb, leb, if◌then◌else◌, Bool-cases, length, ℕ, zero, suc, ◌+◌, ◌-◌, ◌≤◌, ◌<◌, ◌≡◌, refl, ap, ◌∙◌,
  inl, inr, Bool, true, false, ◌&&◌, List, [], ◌∷◌, ◌++◌, arith,
}

-- 0, 1 and 2 in the source.
pub data Circuit : Type 0 where
  closed opened half_open : Circuit

pub record CircuitBreaker : Type 0 where
  pub failures : ℕ
  pub successes : ℕ
  pub last_failure : ℕ
  pub state : Circuit
  pub failure_threshold : ℕ
  pub success_threshold : ℕ
  pub timeout : ℕ

pub new_circuit_breaker : CircuitBreaker
new_circuit_breaker = record {
  failures = 0;
  successes = 0;
  last_failure = 0;
  state = closed;
  failure_threshold = 5;
  success_threshold = 2;
  timeout = 30_000_000_000;
}

unfoldable pub allow_in : Circuit → CircuitBreaker → ℕ → CircuitBreaker × Bool
allow_in closed cb now = (cb, true)
allow_in opened cb now =
    if ltb cb.timeout (now - cb.last_failure)
    then (record cb { state = half_open }, true)
    else (cb, false)
allow_in half_open cb now = (cb, true)

unfoldable pub allow : CircuitBreaker → ℕ → CircuitBreaker × Bool
unfolding allow_in
allow cb now = allow_in cb.state cb now

is_half_open : Circuit → Bool
is_half_open half_open = true
is_half_open _ = false

unfoldable pub record_success : CircuitBreaker → CircuitBreaker
unfolding is_half_open
record_success cb =
    let cb' = record cb { successes = cb.successes + 1; failures = 0 } in
    if is_half_open cb'.state && leb cb'.success_threshold cb'.successes
    then record cb' { state = closed; successes = 0 }
    else cb'

unfoldable pub record_failure : CircuitBreaker → ℕ → CircuitBreaker
record_failure cb now =
    let cb' = record cb { failures = cb.failures + 1; last_failure = now; successes = 0 } in
    if leb cb'.failure_threshold cb'.failures then record cb' { state = opened } else cb'

-- The calls that the client makes, in the order in which they take the lock.
pub data Call : Type 0 where
  asks : ℕ → Call
  succeeds : Call
  fails : ℕ → Call

unfoldable pub step : CircuitBreaker → Call → CircuitBreaker
unfolding allow record_success record_failure
step cb (asks now) = (allow cb now).0
step cb succeeds = record_success cb
step cb (fails now) = record_failure cb now

unfoldable pub run : CircuitBreaker → List Call → CircuitBreaker
unfolding step
run cb [] = cb
run cb (c ∷ cs) = run (step cb c) cs

-- A closed breaker has seen fewer failures in a row than open it.
pub record IsValid (cb : CircuitBreaker) : Type 0 where
  pub below : cb.state ≡ closed → cb.failures < cb.failure_threshold
  pub positive : 0 < cb.failure_threshold

allow_in-IsValid :
    (s : Circuit) (cb : CircuitBreaker) (now : ℕ)
    → cb.state ≡ s
    → IsValid cb
    → IsValid (allow_in s cb now).0
unfolding allow_in
allow_in-IsValid closed cb now e v = v
allow_in-IsValid half_open cb now e v = v
allow_in-IsValid opened cb now e v = elim (Bool-cases (ltb cb.timeout (now - cb.last_failure))) [
  | inl over ↦ rw over (record { below = λ e'. cc; positive = v.positive })
  | inr during ↦ rw during v
]

step-IsValid : (cb : CircuitBreaker) (c : Call) → IsValid cb → IsValid (step cb c)
unfolding step
step-IsValid cb (asks now) v = allow_in-IsValid cb.state cb now refl v
step-IsValid cb succeeds v = record { below = λ e. ground arith; positive = ground arith }
step-IsValid cb (fails now) v = record { below = λ e. ground arith; positive = ground arith }

-- From the start, whatever is called, a closed breaker is below its threshold.
pub run-IsValid : (cb : CircuitBreaker) (cs : List Call) → IsValid cb → IsValid (run cb cs)
unfolding run
run-IsValid cb [] v = v
run-IsValid cb (c ∷ cs) v = run-IsValid (step cb c) cs (step-IsValid cb c v)

run-append : (cb : CircuitBreaker) (cs ds : List Call) → run cb (cs ++ ds) ≡ run (run cb cs) ds
unfolding run
run-append cb [] ds = refl
run-append cb (c ∷ cs) ds = run-append (step cb c) cs ds

-- Failures in a row, at these times.
abbrev pub fail_times : List ℕ → List Call
fail_times [] = []
fail_times (t ∷ ts) = fails t ∷ fail_times ts

fails_count :
    (cb : CircuitBreaker) (ts : List ℕ)
    → ((run cb (fail_times ts)).failures ≡ cb.failures + length ts)
      × ((run cb (fail_times ts)).failure_threshold ≡ cb.failure_threshold)
      × ((run cb (fail_times ts)).timeout ≡ cb.timeout)
unfolding run
fails_count cb [] = (omega arith, refl, refl)
fails_count cb (t ∷ ts) =
    let (n, threshold, timeout) = fails_count (step cb (fails t)) ts in
    unfold step in (ground (arith, n), ground (arith, threshold), ground (arith, timeout))

failure_trips :
    (cb : CircuitBreaker) (t now : ℕ)
    → cb.failure_threshold ≤ cb.failures + 1
    → (allow (record_failure cb t) now).1 ≡ ltb cb.timeout (now - t)
unfolding allow record_failure
failure_trips cb t now h =
    let trips : leb cb.failure_threshold (cb.failures + 1) ≡ true = ground arith in
    rw trips (ground arith)

-- As many failures in a row as the threshold trip the breaker: from then on a call is let through
-- exactly when the timeout has passed since the last of them.
pub fails_trip :
    (cb : CircuitBreaker) (ts : List ℕ) (t now : ℕ)
    → cb.failure_threshold ≤ cb.failures + length ts + 1
    → (allow (run cb (fail_times ts ++ fails t ∷ [])) now).1 ≡ ltb cb.timeout (now - t)
fails_trip cb ts t now h =
    let (n, threshold, timeout) = fails_count cb ts in
    ap (λ (c : CircuitBreaker). (allow c now).1) (run-append cb (fail_times ts) (fails t ∷ []))
    ∙ one_more (run cb (fail_times ts)) (omega (arith, n, threshold))
    ∙ ap (λ (d : ℕ). ltb d (now - t)) timeout
  where
    one_more :
        (c : CircuitBreaker)
        → c.failure_threshold ≤ c.failures + 1
        → (allow (run c (fails t ∷ [])) now).1 ≡ ltb c.timeout (now - t)
    one_more c full = unfold run step in failure_trips c t now full

-- Successes in a row.
abbrev pub success_times : ℕ → List Call
success_times zero = []
success_times (suc n) = succeeds ∷ success_times n

one_success :
    (cb : CircuitBreaker)
    → cb.state ≡ half_open
    → cb.successes + 1 < cb.success_threshold
    → ((record_success cb).state ≡ half_open)
      × ((record_success cb).successes ≡ cb.successes + 1)
      × ((record_success cb).success_threshold ≡ cb.success_threshold)
unfolding record_success
one_success cb e few = (ground arith, ground arith, ground arith)

-- A half-open breaker closes once it has seen the successes that it wants in a row.
pub successes_close :
    (cb : CircuitBreaker) (n : ℕ)
    → cb.state ≡ half_open
    → 0 < cb.success_threshold
    → cb.successes < cb.success_threshold
    → cb.success_threshold ≡ cb.successes + n
    → (run cb (success_times n)).state ≡ closed
unfolding run step
successes_close cb zero e pos below h = absurd (omega arith)
successes_close cb (suc zero) e pos below h = ground arith
successes_close cb (suc (suc n)) e pos below h =
    let (state, successes, threshold) = one_success cb e (omega arith) in
    successes_close (record_success cb) (suc n) state (omega (arith, threshold))
      (omega (arith, threshold, successes)) (omega (arith, threshold, successes))

-- A single success takes the count of failures back: for a half-open breaker that wants more
-- successes than that, and whose failure threshold is above one, the failure that follows leaves it
-- half open, and it goes on letting every call through.
pub half_open_stays :
    (cb : CircuitBreaker) (t now : ℕ)
    → cb.state ≡ half_open
    → cb.successes + 1 < cb.success_threshold
    → 1 < cb.failure_threshold
    → ((run cb (succeeds ∷ fails t ∷ [])).state ≡ half_open)
      × ((allow (run cb (succeeds ∷ fails t ∷ [])) now).1 ≡ true)
unfolding run step allow
half_open_stays cb t now e few many = ground arith
