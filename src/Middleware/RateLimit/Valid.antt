-- ===== src/Middleware/RateLimit/Valid.antt =====
-- The rate limiter's table between calls, and the visitors in it.
use aniraku_backend.Base.{
  leb, Bool-cases, Option-cases, length, All, Text, text_eq_iff, Dict, lookup, insert, IsDict,
  lookup-insert, lookup-delete, All-insert, insert-IsDict, length-insert-le, length-insert_known,
  All-lookup, evict_oldest-IsDict, All-evict_oldest, evict_oldest_lem, ℕ, ◌≤◌, ◌<◌, ◌≡◌, ◌≢◌, ◌⊎◌,
  inl, inr, true, none, [], arith,
}
use aniraku_backend.Middleware.RateLimit.{
  Visitor, RateLimiter, seen_at, refill, take_token, first_visit, make_room, allow,
}

-- Between calls: distinct, non-empty addresses, at most `max_visitors` of them, and no bucket
-- holding more than a burst.
pub record IsValid (rl : RateLimiter) : Type 0 where
  pub distinct : IsDict rl.visitors
  pub named : All (λ (e : Text × Visitor). e.0 ≢ []) rl.visitors
  pub bounded : length rl.visitors ≤ rl.max_visitors
  pub filled : All (λ (e : Text × Visitor). e.1.tokens ≤ rl.burst) rl.visitors

take_token-refill-le :
    (rl : RateLimiter) (v : Visitor) (now : ℕ)
    → v.tokens ≤ rl.burst
    → (take_token (refill rl v now)).0.tokens ≤ rl.burst
unfolding take_token refill
take_token-refill-le rl v now h = ground arith

make_room-IsDict : (rl : RateLimiter) → IsDict rl.visitors → IsDict (make_room rl)
unfolding make_room
make_room-IsDict rl h = ground (arith, evict_oldest-IsDict seen_at rl.visitors h)

All-make_room {κ} :
    (P : Text × Visitor → Type κ) (rl : RateLimiter) → All P rl.visitors → All P (make_room rl)
unfolding make_room
All-make_room P rl h = ground (arith, All-evict_oldest P seen_at rl.visitors h)

nonempty :
    (rl : RateLimiter) (m : Dict Visitor)
    → 0 < rl.max_visitors
    → leb rl.max_visitors (length m) ≡ true
    → m ≢ []
nonempty rl m pos full e = ground arith

-- After the search there is room for one more.
length-make_room-lt :
    (rl : RateLimiter) → IsValid rl → 0 < rl.max_visitors → length (make_room rl) < rl.max_visitors
unfolding make_room
length-make_room-lt rl v pos = elim (Bool-cases (leb rl.max_visitors (length rl.visitors))) [
  | inl full ↦
      let (_, _, _, _, _, shorter) =
        evict_oldest_lem seen_at rl.visitors v.distinct v.named
          (nonempty rl rl.visitors pos full) in
      rw full (ground arith)
  | inr room ↦ rw room (ground arith)
]

insert-filled :
    (rl : RateLimiter) (m : Dict Visitor) (ip : Text) (v : Visitor)
    → All (λ (e : Text × Visitor). e.1.tokens ≤ rl.burst) m
    → v.tokens ≤ rl.burst
    → All (λ (e : Text × Visitor). e.1.tokens ≤ rl.burst) (insert ip v m)
insert-filled rl m ip v h p = All-insert (λ (e : Text × Visitor). e.1.tokens ≤ rl.burst) ip v m h p

-- A call for a non-empty address keeps a table valid that has room for one: no eviction or new
-- visitor takes it over its limit, and no refill takes a bucket over a burst.
pub allow-IsValid :
    (rl : RateLimiter) (ip : Text) (now : ℕ)
    → IsValid rl
    → ip ≢ []
    → 0 < rl.max_visitors
    → IsValid (allow rl ip now).0
unfolding allow
allow-IsValid rl ip now v named pos = elim (Option-cases (lookup ip rl.visitors)) [
  | inl fresh ↦
      rw (fresh, allow)
        (record {
          distinct = insert-IsDict ip _ (make_room rl) (make_room-IsDict rl v.distinct);
          named =
              All-insert (λ (e : Text × Visitor). e.0 ≢ []) ip _ (make_room rl)
                (All-make_room (λ (e : Text × Visitor). e.0 ≢ []) rl v.named) named;
          bounded = omega (
            arith,
            length-insert-le ip (first_visit rl now) (make_room rl),
            length-make_room-lt rl v pos,
          );
          filled =
              insert-filled rl (make_room rl) ip _
                (All-make_room (λ (e : Text × Visitor). e.1.tokens ≤ rl.burst) rl v.filled)
                (omega arith);
        })
  | inr (known, found) ↦
      rw (found, allow)
        (record {
          distinct = insert-IsDict ip _ rl.visitors v.distinct;
          named = All-insert (λ (e : Text × Visitor). e.0 ≢ []) ip _ rl.visitors v.named named;
          bounded = omega (
            arith,
            length-insert_known ip _ (take_token (refill rl known now)).0 rl.visitors found,
            v.bounded,
          );
          filled = insert-filled rl rl.visitors ip _ v.filled (
              take_token-refill-le rl known now (
                All-lookup (λ (e : Text × Visitor). e.1.tokens ≤ rl.burst) ip known rl.visitors
                  v.filled found));
        })
]

lookup-make_room :
    (rl : RateLimiter) (other : Text)
    → IsValid rl
    → 0 < rl.max_visitors
    → (lookup other (make_room rl) ≡ lookup other rl.visitors)
      ⊎ ((rl.max_visitors ≤ length rl.visitors) × (lookup other (make_room rl) ≡ none))
unfolding make_room
lookup-make_room rl other v pos = elim (Bool-cases (leb rl.max_visitors (length rl.visitors))) [
  | inr room ↦ inl (rw room)
  | inl full ↦
      let (k, _, gone, _, _, _) =
        evict_oldest_lem seen_at rl.visitors v.distinct v.named
          (nonempty rl rl.visitors pos full) in
      rw (full, gone, lookup-delete) (ground arith)
]

-- Addresses do not share a bucket: a call for one leaves the bucket of another as it was, or, where
-- the caller is new and the table is full, deletes it.
pub allow_other :
    (rl : RateLimiter) (ip other : Text) (now : ℕ)
    → IsValid rl
    → 0 < rl.max_visitors
    → ip ≢ other
    → (lookup other (allow rl ip now).0.visitors ≡ lookup other rl.visitors)
      ⊎ ((lookup ip rl.visitors ≡ none)
          × (rl.max_visitors ≤ length rl.visitors)
          × (lookup other (allow rl ip now).0.visitors ≡ none))
unfolding allow
allow_other rl ip other now v pos ne = elim (Option-cases (lookup ip rl.visitors)) [
  | inl fresh ↦
      rw (fresh, allow, lookup-insert)
        (ground (arith, text_eq_iff ip other, lookup-make_room rl other v pos))
  | inr (known, found) ↦
      inl (rw (found, allow) (rw lookup-insert (ground (arith, text_eq_iff ip other))))
]
