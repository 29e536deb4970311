-- ===== src/Middleware/RateLimit/Sweep.antt =====
-- The background sweep of the rate limiter's table.
use aniraku_backend.Base.{
  ltb, if◌then◌else◌, Bool-cases, length, any, All, Text, text_eq, text_eq_iff, Dict, lookup,
  delete, IsDict, lookup-delete, All-delete, delete-IsDict, length-delete-le, ℕ, ◌-◌, ◌≤◌, ◌<◌, ◌≡◌,
  refl, subst, ◌≢◌, inl, inr, Bool, false, none, some, List, [], ◌∷◌, arith,
}
use aniraku_backend.Middleware.RateLimit.{
  Visitor, RateLimiter, ten_minutes, stale, delete_all, cleanup_collect, cleanup_delete,
}
use aniraku_backend.Middleware.RateLimit.Valid.{IsValid}

abbrev is_stale : ℕ → Visitor → Bool
is_stale now v = ltb ten_minutes (now - v.last_seen)

lookup-delete_all_absent :
    (k : Text) (ips : List Text) (m : Dict Visitor)
    → lookup k m ≡ none
    → lookup k (delete_all ips m) ≡ none
unfolding delete_all
lookup-delete_all_absent k [] m h = h
lookup-delete_all_absent k (ip ∷ ips) m h =
    lookup-delete_all_absent k ips (delete ip m) (rw lookup-delete (ground arith))

lookup-delete_all :
    (k : Text) (ips : List Text) (m : Dict Visitor)
    → lookup k (delete_all ips m) ≡ (if any (text_eq k) ips then none else lookup k m)
unfolding delete_all
lookup-delete_all k [] m = refl
lookup-delete_all k (ip ∷ ips) m = ground (
  arith,
  lookup-delete_all k ips (delete ip m),
  lookup-delete ip k m,
  text_eq_iff ip k,
  text_eq_iff k ip,
)

stale_absent :
    (k : Text) (now : ℕ) (m : Dict Visitor)
    → All (λ (e : Text × Visitor). e.0 ≢ k) m
    → any (text_eq k) (stale now m) ≡ false
unfolding stale
stale_absent k now [] h = refl
stale_absent k now ((j, v) ∷ m) h = ground (arith, stale_absent k now m h.1, text_eq_iff k j)

any-stale :
    (k : Text) (now : ℕ) (m : Dict Visitor)
    → IsDict m
    → any (text_eq k) (stale now m) ≡ (elim (lookup k m) [ none ↦ false | some v ↦ is_stale now v ])
unfolding stale lookup
any-stale k now [] h = refl
any-stale k now ((j, v) ∷ m) h = elim (Bool-cases (text_eq j k)) [
  | inl same ↦
      let other : All (λ (e : Text × Visitor). e.0 ≢ k) m =
        subst (λ (i : Text). All (λ (e : Text × Visitor). e.0 ≢ i) m) ((text_eq_iff j k).0 same)
          h.0 in
      rw same (ground (arith, stale_absent k now m other, text_eq_iff j k, text_eq_iff k j))
  | inr other ↦ rw other (ground (arith, any-stale k now m h.1, text_eq_iff j k, text_eq_iff k j))
]

-- A round of the sweep over a valid table that no request comes between keeps exactly the visitors
-- that were seen in the last ten minutes.
pub lookup-cleanup :
    (rl : RateLimiter) (now : ℕ) (ip : Text)
    → IsValid rl
    → lookup ip (cleanup_delete rl (cleanup_collect rl now)).visitors
      ≡ (elim (lookup ip rl.visitors) [
        | none ↦ none
        | some v ↦ if ltb ten_minutes (now - v.last_seen) then none else some v
      ])
unfolding cleanup_delete cleanup_collect
lookup-cleanup rl now ip v = ground (
  arith,
  lookup-delete_all ip (stale now rl.visitors) rl.visitors,
  any-stale ip now rl.visitors v.distinct,
)

-- Between the two critical sections of a round a visitor may come back: whatever requests changed
-- the table to `later`, each address that was collected from a valid table is forgotten, with what
-- it has spent since.
pub cleanup_forgets :
    (rl later : RateLimiter) (now : ℕ) (ip : Text) (v : Visitor)
    → IsValid rl
    → lookup ip rl.visitors ≡ some v
    → ten_minutes < now - v.last_seen
    → lookup ip (cleanup_delete later (cleanup_collect rl now)).visitors ≡ none
unfolding cleanup_delete cleanup_collect
cleanup_forgets rl later now ip v valid found old = ground (
  arith,
  lookup-delete_all ip (stale now rl.visitors) later.visitors,
  any-stale ip now rl.visitors valid.distinct,
)

delete_all-IsDict : (ips : List Text) (m : Dict Visitor) → IsDict m → IsDict (delete_all ips m)
unfolding delete_all
delete_all-IsDict [] m h = h
delete_all-IsDict (ip ∷ ips) m h = delete_all-IsDict ips (delete ip m) (delete-IsDict ip m h)

All-delete_all {κ} :
    (P : Text × Visitor → Type κ) (ips : List Text) (m : Dict Visitor)
    → All P m
    → All P (delete_all ips m)
unfolding delete_all
All-delete_all P [] m h = h
All-delete_all P (ip ∷ ips) m h = All-delete_all P ips (delete ip m) (All-delete P ip m h)

length-delete_all-le : (ips : List Text) (m : Dict Visitor) → length (delete_all ips m) ≤ length m
unfolding delete_all
length-delete_all-le [] m = omega arith
length-delete_all-le (ip ∷ ips) m =
    omega (arith, length-delete_all-le ips (delete ip m), length-delete-le ip m)

-- The sweep keeps the table valid, whatever was collected.
pub cleanup_delete-IsValid :
    (rl : RateLimiter) (ips : List Text) → IsValid rl → IsValid (cleanup_delete rl ips)
unfolding cleanup_delete
cleanup_delete-IsValid rl ips v = record {
  distinct = delete_all-IsDict ips rl.visitors v.distinct;
  named = All-delete_all (λ (e : Text × Visitor). e.0 ≢ []) ips rl.visitors v.named;
  bounded = omega (arith, length-delete_all-le ips rl.visitors, v.bounded);
  filled = All-delete_all (λ (e : Text × Visitor). e.1.tokens ≤ rl.burst) ips rl.visitors v.filled;
}
