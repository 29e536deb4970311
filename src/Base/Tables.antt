-- ===== src/Base/Tables.antt =====
-- A Go map whose keys are records, for a test of equality: its entries, in the order in which the map is
-- ranged over.
use aniraku_backend.Base.Tests.{ltb, if◌then◌else◌, Bool-cases}
use aniraku_backend.Base.Lists.{length, any}
use Prim.Native.Nat.{ℕ, suc, ◌≤◌}
use mathlib.Core.Path.{◌≡◌, refl}
use mathlib.Core.Bool.{Bool, true}
use mathlib.Core.List.{List, [], ◌∷◌}
use mathlib.Core.Option.{Option, none, some}
use mathlib.Core.Logic.{◌↔◌, ◌≢◌, ◌⊎◌, inl, inr}
use native.Mathlib.Omega.{arith}

module _ {K V : Type 0} (same : K → K → Bool) where
  unfoldable pub find : K → List (K × V) → Option V
  find k [] = none
  find k ((j, v) ∷ m) = if same j k then some v else find k m

  unfoldable pub put : K → V → List (K × V) → List (K × V)
  put k v [] = (k, v) ∷ []
  put k v ((j, w) ∷ m) = if same j k then (k, v) ∷ m else (j, w) ∷ put k v m

  unfoldable pub remove : K → List (K × V) → List (K × V)
  remove k [] = []
  remove k ((j, w) ∷ m) = let rest = remove k m in if same j k then rest else (j, w) ∷ rest

  -- `if !set || entry.at.Before(oldest) { oldestKey, oldest, set = … }` over the map.
  unfoldable pub oldest_key : (V → ℕ) → Option (K × ℕ) → List (K × V) → Option (K × ℕ)
  oldest_key at seen [] = seen
  oldest_key at none ((k, v) ∷ m) = oldest_key at (some (k, at v)) m
  oldest_key at (some (j, t)) ((k, v) ∷ m) =
      oldest_key at (if ltb (at v) t then some (k, at v) else some (j, t)) m

  unfoldable pub remove_oldest : (V → ℕ) → List (K × V) → List (K × V)
  unfolding oldest_key remove
  remove_oldest at m = elim (oldest_key at none m) [ none ↦ m | some (k, t) ↦ remove k m ]

  module _ (same_iff : (j k : K) → (same j k ≡ true) ↔ (j ≡ k)) where
    pub find-put :
        (written read : K) (new : V) (m : List (K × V))
        → find read (put written new m) ≡ (if same written read then some new else find read m)
    unfolding find put
    find-put written read new [] = refl
    find-put written read new ((at, old) ∷ rest) = ground (
      arith,
      find-put written read new rest,
      same_iff at written,
      same_iff at read,
      same_iff written read,
    )

  pub length-put-le : (k : K) (v : V) (m : List (K × V)) → length (put k v m) ≤ suc (length m)
  unfolding put
  length-put-le k v [] = omega arith
  length-put-le k v ((j, w) ∷ m) = ground (arith, length-put-le k v m)

  pub length-remove-le : (k : K) (m : List (K × V)) → length (remove k m) ≤ length m
  unfolding remove
  length-remove-le k [] = omega arith
  length-remove-le k ((j, w) ∷ m) = ground (arith, length-remove-le k m)

  remove_present :
      (k : K) (m : List (K × V))
      → any (λ (e : K × V). same e.0 k) m ≡ true
      → suc (length (remove k m)) ≤ length m
  unfolding remove
  remove_present k [] h = cc
  remove_present k ((j, w) ∷ m) h = elim (Bool-cases (same j k)) [
    | inl e ↦ rw e (omega (arith, length-remove-le k m))
    | inr e ↦ rw e (omega (arith, remove_present k m (ground (arith, h, e))))
  ]

  module _ (same_refl : (k : K) → same k k ≡ true) (at : V → ℕ) where
    oldest_key-some :
        (j : K) (t : ℕ) (m : List (K × V))
        → (k : K) × (s : ℕ) × (oldest_key at (some (j, t)) m ≡ some (k, s))
          × ((k ≡ j) ⊎ (any (λ (e : K × V). same e.0 k) m ≡ true))
    unfolding oldest_key
    oldest_key-some j t [] = (j, t, refl, inl refl)
    oldest_key-some j t ((i, v) ∷ m) = elim (Bool-cases (ltb (at v) t)) [
      | inl less ↦
          let (k, s, e, there) = oldest_key-some i (at v) m in
          rw less (
            k,
            s,
            e,
            inr (elim there [
              | inl first ↦ ground (arith, same_refl i, first)
              | inr later ↦ ground (arith, later)
            ]),
          )
      | inr more ↦
          let (k, s, e, there) = oldest_key-some j t m in
          rw more (
            k,
            s,
            e,
            elim there [ inl first ↦ inl first | inr later ↦ inr (ground (arith, later)) ],
          )
    ]

    -- From a map with an entry, an entry goes.
    pub length-remove_oldest :
        (m : List (K × V)) → m ≢ [] → suc (length (remove_oldest at m)) ≤ length m
    unfolding remove_oldest oldest_key
    length-remove_oldest [] h = absurd (h refl)
    length-remove_oldest ((j, w) ∷ m) h =
        let (k, s, e, there) = oldest_key-some j (at w) m in
        let present : any (λ (e : K × V). same e.0 k) ((j, w) ∷ m) ≡ true = elim there [
          | inl first ↦ ground (arith, same_refl j, first)
          | inr later ↦ ground (arith, later)
        ] in
        rw (e, remove_oldest) (remove_present k ((j, w) ∷ m) present)
