-- ===== src/Net/HostPort.antt =====
-- `net.SplitHostPort` and `net.JoinHostPort`, over code points.
use mathlib.Core.List.{append_assoc}
use aniraku_backend.Base.{
  ◌==◌, if◌then◌else◌, Bool-cases, length, drop, any, length-append, any-append, Text, ℕ, ◌+◌, ◌≡◌,
  refl, inl, inr, Bool, true, false, not, ◌&&◌, ◌||◌, Option, none, some, [], ◌∷◌, ◌++◌, arith,
}

-- The text before and after the last, or the first, place of a code point.
unfoldable pub split_last : ℕ → Text → Option (Text × Text)
split_last c [] = none
split_last c (x ∷ s) = elim (split_last c s) [
  | none ↦ if x == c then some ([], s) else none
  | some (before, after) ↦ some (x ∷ before, after)
]

unfoldable pub split_first : ℕ → Text → Option (Text × Text)
split_first c [] = none
split_first c (x ∷ s) =
    let rest : Option (Text × Text) = elim (split_first c s) [
      | none ↦ none
      | some (before, after) ↦ some (x ∷ before, after)
    ] in
    if x == c then some ([], s) else rest

unfoldable pub has : ℕ → Text → Bool
has c s = any (λ x. x == c) s

-- `[host]:port`: the bracket must close right before the last colon.
bracketed : Text → Text → Text → Option (Text × Text)
unfolding split_first has
bracketed hostport front port = elim (split_first b']' hostport) [
  | none ↦ none
  | some (opened, after) ↦
      if length front == length opened + 1
        && not (has b'[' (drop 1 hostport))
        && not (has b']' after)
      then some (drop 1 opened, port)
      else none
]

bare : Text → Text → Text → Option (Text × Text)
unfolding has
bare hostport front port =
    if has b':' front || has b'[' hostport || has b']' hostport then none else some (front, port)

opens : Text → Bool
opens [] = false
opens (c ∷ s) = c == b'['

-- `none` is an error, of which the callers read nothing.
unfoldable pub split_host_port : Text → Option (Text × Text)
unfolding split_last bracketed bare opens
split_host_port hostport = elim (split_last b':' hostport) [
  | none ↦ none
  | some (front, port) ↦
      if opens hostport then bracketed hostport front port else bare hostport front port
]

unfoldable pub join_host_port : Text → Text → Text
unfolding has
join_host_port host port =
    if has b':' host then b'[' ∷ (host ++ b']' ∷ b':' ∷ port) else host ++ b':' ∷ port

split_last-append : (c : ℕ) (s t : Text) → has c t ≡ false → split_last c (s ++ c ∷ t) ≡ some (s, t)
unfolding split_last has
split_last-append c [] [] h = ground arith
split_last-append c [] (x ∷ t) h = ground (arith, split_last_none c (x ∷ t))
  where
    split_last_none : (c : ℕ) (t : Text) → has c t ≡ false → split_last c t ≡ none
    split_last_none c [] h = refl
    split_last_none c (x ∷ t) h = ground (arith, split_last_none c t)
split_last-append c (x ∷ s) t h = ground (arith, split_last-append c s t)

split_first-append :
    (c : ℕ) (s t : Text) → has c s ≡ false → split_first c (s ++ c ∷ t) ≡ some (s, t)
unfolding split_first has
split_first-append c [] t h = ground arith
split_first-append c (x ∷ s) t h = ground (arith, split_first-append c s t)

has-append : (c : ℕ) (s t : Text) → has c (s ++ t) ≡ (has c s || has c t)
unfolding has
has-append c s t = any-append (λ x. x == c) s t

not_opening : (host port : Text) → has b'[' host ≡ false → opens (host ++ b':' ∷ port) ≡ false
unfolding has opens
not_opening [] port h = ground arith
not_opening (c ∷ s) port h = ground arith

last_colon :
    (host port : Text)
    → has b':' port ≡ false
    → split_last b':' (b'[' ∷ (host ++ b']' ∷ b':' ∷ port))
      ≡ some (b'[' ∷ (host ++ b']' ∷ []), port)
last_colon host port colon =
    rw (← append_assoc host (b']' ∷ []) (b':' ∷ port))
      (split_last-append b':' (b'[' ∷ (host ++ b']' ∷ [])) port colon)

bracketed_case :
    (host port : Text)
    → has b':' host ≡ true
    → has b'[' host ≡ false
    → has b']' host ≡ false
    → has b':' port ≡ false
    → has b'[' port ≡ false
    → has b']' port ≡ false
    → split_host_port (join_host_port host port) ≡ some (host, port)
unfolding split_host_port join_host_port
bracketed_case host port six opening closing colon opening' closing' =
    let whole = b'[' ∷ (host ++ b']' ∷ b':' ∷ port) in
    let first : split_first b']' whole ≡ some (b'[' ∷ host, b':' ∷ port) =
      split_first-append b']' (b'[' ∷ host) (b':' ∷ port) closing in
    rw six (
      rw (last_colon host port colon, split_host_port)
        (rw (first, bracketed)
          (ground
            (arith, length-append host (b']' ∷ []), has-append b'[' host (b']' ∷ b':' ∷ port)))))

bare_case :
    (host port : Text)
    → has b':' host ≡ false
    → has b'[' host ≡ false
    → has b']' host ≡ false
    → has b':' port ≡ false
    → has b'[' port ≡ false
    → has b']' port ≡ false
    → split_host_port (join_host_port host port) ≡ some (host, port)
unfolding split_host_port join_host_port
bare_case host port four opening closing colon opening' closing' = rw four (
    rw (split_last-append b':' host port colon, split_host_port)
      (ground (
        arith,
        has-append b'[' host (b':' ∷ port),
        has-append b']' host (b':' ∷ port),
        not_opening host port opening,
      )))

-- A host with no bracket in it, and a port with no colon or bracket, come back from the joined
-- text.
pub split_host_port-join_host_port :
    (host port : Text)
    → has b'[' host ≡ false
    → has b']' host ≡ false
    → has b':' port ≡ false
    → has b'[' port ≡ false
    → has b']' port ≡ false
    → split_host_port (join_host_port host port) ≡ some (host, port)
split_host_port-join_host_port host port opening closing colon opening' closing' =
    elim (Bool-cases (has b':' host)) [
      | inl six ↦ bracketed_case host port six opening closing colon opening' closing'
      | inr four ↦ bare_case host port four opening closing colon opening' closing'
    ]
