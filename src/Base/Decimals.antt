-- ===== src/Base/Decimals.antt =====
-- `strconv.Atoi` and `strconv.Itoa`.
use Prim.Native.Nat.{ℕ, zero, suc, ◌+◌, ◌-◌, ◌*◌, ◌/◌, ◌%◌, ◌^◌}
use mathlib.Core.Bool.{Bool, ◌&&◌, ◌||◌}
use mathlib.Core.List.{[], ◌∷◌}
use mathlib.Core.Option.{Option, none, some}
use aniraku_backend.Base.Tests.{leb, ◌==◌, if◌then◌else◌}
use aniraku_backend.Base.Texts.{Text, text_eq}

-- The decimal digits that `strconv.Atoi` reads after a sign.
unfoldable pub digits : ℕ → Text → Option ℕ
digits n [] = some n
digits n (c ∷ s) =
    let rest = digits (n * 10 + (c - b'0')) s in if leb b'0' c && leb c b'9' then rest else none

-- The sign and size of what `strconv.Atoi` returns; `none` is its error, of form or of range.
unfoldable pub atoi : Text → Option (Bool × ℕ)
unfolding digits
atoi [] = none
atoi (c ∷ s) =
    let signed = c == b'-' || c == b'+' in
    let body = if signed then s else c ∷ s in
    let limit = if c == b'-' then 2 ^ 63 else 2 ^ 63 - 1 in
    if text_eq body [] then none else elim (digits 0 body) [
      | none ↦ none
      | some n ↦ if leb n limit then some (c == b'-', n) else none
    ]

-- The digits of a number that has at most `fuel` of them.
unfoldable pub decimal_from : ℕ → ℕ → Text → Text
decimal_from zero n s = s
decimal_from (suc fuel) n s =
    let rest = decimal_from fuel (n / 10) ((b'0' + n % 10) ∷ s) in if n == 0 then s else rest

-- `strconv.Itoa` of a number that is not negative.
unfoldable pub decimal : ℕ → Text
unfolding decimal_from
decimal n = if n == 0 then b'0' ∷ [] else decimal_from n n []
