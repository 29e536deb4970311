-- ===== src/Base/Evict.antt =====
-- The loops over a map by which the caches stay bounded: the search for the oldest entry, and the
-- sweep that deletes what a test rejects.
use Prim.Native.Nat.{ℕ, suc, ◌≤◌}
use mathlib.Core.Path.{◌≡◌, refl, sym, subst}
use mathlib.Core.Logic.{◌≢◌, ◌⊎◌, inl, inr}
use mathlib.Core.Bool.{Bool}
use mathlib.Core.List.{[], ◌∷◌}
use mathlib.Core.Option.{Option, none, some}
use native.Mathlib.Omega.{arith}
use aniraku_backend.Base.Tests.{ltb, if◌then◌else◌, Bool-cases, Option-cases}
use aniraku_backend.Base.Lists.{length, All}
use aniraku_backend.Base.Texts.{Text, text_eq, text_eq_iff}
use aniraku_backend.Base.Dicts.{
  Dict, lookup, delete, IsDict, All-delete, delete-IsDict, length-delete, All-lookup,
}

abbrev Below : ℕ → Option (Text × ℕ) → Type 0
Below t none = Unit {0}
Below t (some (j, s)) = t ≤ s

module _ {ℓ} {V : Type ℓ} where
  -- `for k, v := range m { if first || v.at.Before(oldest) { key, oldest, first = k, v.at, false } }`;
  -- `none` is `first`.
  unfoldable pub oldest : (V → ℕ) → Option (Text × ℕ) → Dict V → Option (Text × ℕ)
  oldest at seen [] = seen
  oldest at none ((k, v) ∷ m) = oldest at (some (k, at v)) m
  oldest at (some (j, t)) ((k, v) ∷ m) =
      oldest at (if ltb (at v) t then some (k, at v) else some (j, t)) m

  -- `if key != "" { delete(m, key) }` after the search.
  unfoldable pub evict_oldest : (V → ℕ) → Dict V → Dict V
  unfolding oldest
  evict_oldest at m = elim (oldest at none m) [
    | none ↦ m
    | some (k, t) ↦ if text_eq k [] then m else delete k m
  ]

  -- `for k, v := range m { if !test(v) { delete(m, k) } }`
  unfoldable pub retain : (V → Bool) → Dict V → Dict V
  retain test [] = []
  retain test ((k, v) ∷ m) = let rest = retain test m in if test v then (k, v) ∷ rest else rest

  oldest-lookup :
      (at : V → ℕ) (seen : Option (Text × ℕ)) (m : Dict V) (k : Text) (t : ℕ)
      → IsDict m
      → oldest at seen m ≡ some (k, t)
      → (seen ≡ some (k, t)) ⊎ ((v : V) × (lookup k m ≡ some v) × (at v ≡ t))
  unfolding oldest lookup
  oldest-lookup at seen [] k t h e = inl e
  oldest-lookup at seen ((j, w) ∷ m) k t h e =
      elim (oldest-lookup at (next seen) m k t h.1 (down seen e)) [
        | inl found ↦ here seen found
        | inr (v, found, same) ↦ inr (
          v,
          ground (arith, text_eq_iff j k, All-lookup (λ (e : Text × V). e.0 ≢ j) k v m h.0 found),
          same,
        )
      ]
    where
      next : Option (Text × ℕ) → Option (Text × ℕ)
      next none = some (j, at w)
      next (some (i, s)) = if ltb (at w) s then some (j, at w) else some (i, s)

      down :
          (seen : Option (Text × ℕ))
          → oldest at seen ((j, w) ∷ m) ≡ some (k, t)
          → oldest at (next seen) m ≡ some (k, t)
      down none e = e
      down (some (i, s)) e = e

      here :
          (seen : Option (Text × ℕ))
          → next seen ≡ some (k, t)
          → (seen ≡ some (k, t)) ⊎ ((v : V) × (lookup k ((j, w) ∷ m) ≡ some v) × (at v ≡ t))
      here none e = inr (w, ground (arith, text_eq_iff j k), ground arith)
      here (some (i, s)) e = elim (Bool-cases (ltb (at w) s)) [
        | inl less ↦ inr (w, ground (arith, text_eq_iff j k), ground arith)
        | inr more ↦ inl (ground arith)
      ]

  oldest_least :
      (at : V → ℕ) (seen : Option (Text × ℕ)) (m : Dict V) (k : Text) (t : ℕ)
      → oldest at seen m ≡ some (k, t)
      → Below t seen × All (λ (e : Text × V). t ≤ at e.1) m
  unfolding oldest
  oldest_least at none [] k t e = (tt, tt)
  oldest_least at (some (j, s)) [] k t e = (ground arith, tt)
  oldest_least at none ((i, v) ∷ m) k t e = (tt, oldest_least at (some (i, at v)) m k t e)
  oldest_least at (some (j, s)) ((i, v) ∷ m) k t e = elim (Bool-cases (ltb (at v) s)) [
    | inl less ↦ ground (arith, oldest_least at (some (i, at v)) m k t)
    | inr more ↦ ground (arith, oldest_least at (some (j, s)) m k t)
  ]

  oldest-some :
      (at : V → ℕ) (j : Text) (s : ℕ) (m : Dict V)
      → (k : Text) × (t : ℕ) × (oldest at (some (j, s)) m ≡ some (k, t))
  unfolding oldest
  oldest-some at j s [] = (j, s, refl)
  oldest-some at j s ((i, v) ∷ m) = elim (Bool-cases (ltb (at v) s)) [
    | inl less ↦ rw less (oldest-some at i (at v) m)
    | inr more ↦ rw more (oldest-some at j s m)
  ]

  -- What the search finds in a map with an entry: a key of the map whose time is least.
  pub oldest-IsOldest :
      (at : V → ℕ) (m : Dict V)
      → IsDict m
      → m ≢ []
      → (k : Text) × (v : V) × (oldest at none m ≡ some (k, at v))
        × (lookup k m ≡ some v)
        × All (λ (e : Text × V). at v ≤ at e.1) m
  oldest-IsOldest at [] h nonempty = absurd (nonempty refl)
  oldest-IsOldest at ((j, w) ∷ m) h nonempty =
      let (k, t, e) = oldest-some at j (at w) m in unfold oldest in go k t e
    where
      go :
          (k : Text) (t : ℕ)
          → oldest at none ((j, w) ∷ m) ≡ some (k, t)
          → (k : Text) × (v : V) × (oldest at none ((j, w) ∷ m) ≡ some (k, at v))
            × (lookup k ((j, w) ∷ m) ≡ some v)
            × All (λ (e : Text × V). at v ≤ at e.1) ((j, w) ∷ m)
      go k t e = elim (oldest-lookup at none ((j, w) ∷ m) k t h e) [
        | inl absent ↦ absurd (cc absent)
        | inr (v, found, same) ↦ (
          k,
          v,
          rw same e,
          found,
          subst (λ (s : ℕ). All (λ (e : Text × V). s ≤ at e.1) ((j, w) ∷ m)) (sym same)
              (oldest_least at none ((j, w) ∷ m) k t e).1,
        )
      ]

  pub evict_oldest-IsDict : (at : V → ℕ) (m : Dict V) → IsDict m → IsDict (evict_oldest at m)
  unfolding evict_oldest
  evict_oldest-IsDict at m h = elim (Option-cases (oldest at none m)) [
    | inl e ↦ rw (e, evict_oldest) h
    | inr ((k, t), e) ↦ rw (e, evict_oldest) (ground (arith, delete-IsDict k m h))
  ]

  pub All-evict_oldest {κ} :
      (P : Text × V → Type κ) (at : V → ℕ) (m : Dict V) → All P m → All P (evict_oldest at m)
  unfolding evict_oldest
  All-evict_oldest P at m h = elim (Option-cases (oldest at none m)) [
    | inl e ↦ rw (e, evict_oldest) h
    | inr ((k, t), e) ↦ rw (e, evict_oldest) (ground (arith, All-delete P k m h))
  ]

  -- With no empty key, the entry that goes is one with the least time, and the map is one shorter.
  pub evict_oldest_lem :
      (at : V → ℕ) (m : Dict V)
      → IsDict m
      → All (λ (e : Text × V). e.0 ≢ []) m
      → m ≢ []
      → (k : Text) × (v : V) × (evict_oldest at m ≡ delete k m)
        × (lookup k m ≡ some v)
        × All (λ (e : Text × V). at v ≤ at e.1) m
        × (suc (length (evict_oldest at m)) ≡ length m)
  unfolding evict_oldest
  evict_oldest_lem at m h keys nonempty =
      let (k, v, e, found, least) = oldest-IsOldest at m h nonempty in
      let named = All-lookup (λ (e : Text × V). e.0 ≢ []) k v m keys found in
      let gone : evict_oldest at m ≡ delete k m =
        rw (e, evict_oldest) (ground (arith, text_eq_iff k [])) in
      (k, v, gone, found, least, rw gone (length-delete k v m h found))

  pub All-retain {κ} :
      (P : Text × V → Type κ) (test : V → Bool) (m : Dict V) → All P m → All P (retain test m)
  unfolding retain
  All-retain P test [] h = tt
  All-retain P test ((k, v) ∷ m) h = ground (arith, All-retain P test m h.1)

  pub retain-IsDict : (test : V → Bool) (m : Dict V) → IsDict m → IsDict (retain test m)
  unfolding retain
  retain-IsDict test [] h = tt
  retain-IsDict test ((k, v) ∷ m) h =
      ground (arith, retain-IsDict test m h.1, All-retain (λ (e : Text × V). e.0 ≢ k) test m h.0)

  pub length-retain-le : (test : V → Bool) (m : Dict V) → length (retain test m) ≤ length m
  unfolding retain
  length-retain-le test [] = omega arith
  length-retain-le test ((k, v) ∷ m) = ground (arith, length-retain-le test m)

  pub lookup_absent :
      (k : Text) (m : Dict V) → All (λ (e : Text × V). e.0 ≢ k) m → lookup k m ≡ none
  unfolding lookup
  lookup_absent k [] h = refl
  lookup_absent k ((j, w) ∷ m) h = ground (arith, text_eq_iff j k, lookup_absent k m h.1)

  -- A sweep keeps exactly the entries that pass the test.
  pub lookup-retain :
      (test : V → Bool) (k : Text) (m : Dict V)
      → IsDict m
      → lookup k (retain test m)
        ≡ (elim (lookup k m) [ none ↦ none | some v ↦ if test v then some v else none ])
  unfolding lookup retain
  lookup-retain test k [] h = refl
  lookup-retain test k ((j, w) ∷ m) h = elim (Bool-cases (text_eq j k)) [
    | inl same ↦ rw same (
        ground (
          arith,
          lookup_absent k (retain test m) (
              subst (λ (i : Text). All (λ (e : Text × V). e.0 ≢ i) (retain test m))
                ((text_eq_iff j k).0 same) (All-retain (λ (e : Text × V). e.0 ≢ j) test m h.0)),
        ))
    | inr other ↦ ground (arith, lookup-retain test k m h.1)
  ]
