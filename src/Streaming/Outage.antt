-- ===== src/Streaming/Outage.antt =====
-- internal/streaming/outage.go. A time is a number of nanoseconds after the zero time; a duration is an
-- `int64`, kept as its residue below 2^64, whose upper half are the negative numbers.
use Prim.Native.Nat.{min}
pub mod Resolves
use aniraku_backend.Base.{
  ltb, leb, ◌==◌, if◌then◌else◌, leb→le, Bool-cases, length, ℕ, zero, suc, ◌+◌, ◌-◌, ◌*◌, ◌%◌, ◌^◌,
  ◌≤◌, ◌<◌, ◌≡◌, refl, sym, ap, subst, ◌∙◌, ◌↔◌, inl, inr, Bool, true, false, not, ◌&&◌, ◌||◌, List,
  [], ◌∷◌, ◌++◌, arith,
}

pub record OutageBreaker : Type 0 where
  pub paused_until : ℕ
  pub strikes : ℕ
  pub probe_min : ℕ
  pub base : ℕ
  pub longest : ℕ

pub new_outage_breaker : ℕ → OutageBreaker
new_outage_breaker probe_min = record {
  paused_until = 0;
  strikes = 0;
  probe_min = probe_min;
  base = 600_000_000_000;
  longest = 3_600_000_000_000;
}

unfoldable pub paused : OutageBreaker → ℕ → Bool
paused b now = ltb now b.paused_until

-- `d << n` on `int64`.
unfoldable pub shift_left : ℕ → ℕ → ℕ
shift_left d zero = d
shift_left d (suc n) = (shift_left d n * 2) % 2 ^ 64

abbrev is_negative : ℕ → Bool
is_negative d = leb (2 ^ 63) d

-- `if d > b.max || d <= 0 { d = b.max }`
unfoldable pub capped : OutageBreaker → ℕ → ℕ
capped b d =
    if (not (is_negative d) && ltb b.longest d) || (is_negative d || d == 0) then b.longest else d

-- The pause of a strike.
unfoldable pub pause_for : OutageBreaker → ℕ → ℕ
unfolding shift_left capped
pause_for b strikes = capped b (shift_left b.base (strikes - 1))

unfoldable pub note : Bool → ℕ → OutageBreaker → OutageBreaker
unfolding pause_for
note true now b = record b { strikes = 0; paused_until = 0 }
note false now b = record b {
  strikes = b.strikes + 1;
  paused_until = now + pause_for b (b.strikes + 1);
}

-- `b.note(d >= b.probeMin)`
unfoldable pub note_resolve : ℕ → ℕ → OutageBreaker → OutageBreaker
unfolding note
note_resolve d now b = note (leb b.probe_min d) now b

-- Unhealthy notes, one at each time.
unfoldable pub strike_all : List ℕ → OutageBreaker → OutageBreaker
unfolding note
strike_all [] b = b
strike_all (now ∷ times) b = strike_all times (note false now b)

-- Resolves, each with the time that it ran and the time when it ended.
unfoldable pub note_resolves : List (ℕ × ℕ) → OutageBreaker → OutageBreaker
unfolding note_resolve
note_resolves [] b = b
note_resolves ((d, now) ∷ resolves) b = note_resolves resolves (note_resolve d now b)

-- The pause that the comments of the source promise for the strike after `n` others.
unfoldable pub doubled : ℕ → ℕ
doubled n = min 3_600_000_000_000 (600_000_000_000 * 2 ^ n)

agrees : ℕ → Bool
unfolding pause_for new_outage_breaker doubled
agrees n = pause_for (new_outage_breaker 0) (suc n) == doubled n

all_below : ℕ → Bool
unfolding agrees
all_below zero = true
all_below (suc n) = agrees n && all_below n

table : all_below 53 ≡ true
unfolding all_below
table = refl

all_below-lt : (m n : ℕ) → all_below m ≡ true → n < m → agrees n ≡ true
unfolding all_below
all_below-lt zero n e h = ground arith
all_below-lt (suc m) n e h = ground (arith, all_below-lt m n)

last : (b n : ℕ) → leb b n ≡ false → b ≤ suc n → b ≡ suc n
last b n near h = ground arith

shift_left_out : (n : ℕ) → 52 ≤ n → shift_left 600_000_000_000 n ≡ 0
unfolding shift_left
shift_left_out zero h = ground arith
shift_left_out (suc n) h = elim (Bool-cases (leb 52 n)) [
  | inl far ↦ rw (shift_left_out n (leb→le 52 n far)) refl
  | inr near ↦ subst (λ (k : ℕ). shift_left 600_000_000_000 k ≡ 0) (last 52 n near h) refl
]

pow-le : (n : ℕ) → 4 ≤ n → 16 ≤ 2 ^ n
pow-le zero h = ground arith
pow-le (suc n) h = elim (Bool-cases (leb 4 n)) [
  | inl far ↦ omega (arith, pow-le n (leb→le 4 n far))
  | inr near ↦ subst (λ (k : ℕ). 16 ≤ 2 ^ k) (last 4 n near h) (omega arith)
]

doubled_far : (n : ℕ) → 52 ≤ n → doubled n ≡ 3_600_000_000_000
unfolding doubled
doubled_far n h = ground (arith, pow-le n (omega arith))

equal : (a b : ℕ) → (a == b) ≡ true → a ≡ b
equal a b h = ground arith

pred : (n : ℕ) → suc n - 1 ≡ n
pred n = omega arith

-- For the constants of `newOutageBreaker`, the pause of a strike is ten minutes doubled by each strike
-- before it, up to an hour: the shift runs out of the word, and is caught, without a short pause.
pub pause_for-doubled :
    (probe_min n : ℕ) → pause_for (new_outage_breaker probe_min) (suc n) ≡ doubled n
unfolding pause_for new_outage_breaker doubled agrees
pause_for-doubled probe_min n = elim (Bool-cases (leb 52 n)) [
  | inl far ↦
      ap (λ (k : ℕ). capped (new_outage_breaker probe_min) (shift_left 600_000_000_000 k)) (pred n)
      ∙ ap (capped (new_outage_breaker probe_min)) (shift_left_out n (leb→le 52 n far))
      ∙ sym (doubled_far n (leb→le 52 n far))
  | inr near ↦ equal _ _ (all_below-lt 53 n table (ground (arith, near)))
]

none_before : (s : ℕ) → s + 1 ≡ s + 0 + 1
none_before s = omega arith

one_before : (s n : ℕ) → s + 1 + n + 1 ≡ s + suc n + 1
one_before s n = omega arith

strike_all_until :
    (times : List ℕ) (now : ℕ) (b : OutageBreaker)
    → (strike_all (times ++ now ∷ []) b).paused_until
      ≡ now + pause_for b (b.strikes + length times + 1)
unfolding strike_all note pause_for
strike_all_until [] now b = ap (λ (s : ℕ). now + pause_for b s) (none_before b.strikes)
strike_all_until (t ∷ times) now b =
    strike_all_until times now (note false t b)
    ∙ ap (λ (s : ℕ). now + pause_for b s) (one_before b.strikes (length times))

succ : (n : ℕ) → 0 + n + 1 ≡ suc n
succ n = omega arith

-- Strikes from the start with no healthy note between them: from the last of them on the provider
-- is paused exactly for ten minutes, doubled by each strike before it, up to an hour; the shift
-- runs out of the word without a shorter pause.
pub strike_all-doubled :
    (probe_min now t : ℕ) (times : List ℕ)
    → now ≤ t
    → (paused (strike_all (times ++ now ∷ []) (new_outage_breaker probe_min)) t ≡ true)
      ↔ (t < now + doubled (length times))
unfolding paused pause_for doubled new_outage_breaker
strike_all-doubled probe_min now t times h =
    rw
      (
        strike_all_until times now (new_outage_breaker probe_min),
        ap (pause_for (new_outage_breaker probe_min)) (succ (length times)),
        pause_for-doubled probe_min (length times),
      )
      (ground arith)

-- A healthy note ends the pause at once, whatever went before, and the next strike is a first one.
pub note-lifts :
    (b : OutageBreaker) (now t later : ℕ)
    → (paused (note true now b) t ≡ false)
      × ((note false later (note true now b)).paused_until ≡ later + pause_for b 1)
unfolding note paused pause_for
note-lifts b now t later = (ground arith, refl)
