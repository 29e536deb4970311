-- ===== src/Base/Dicts.antt =====
-- A Go map from texts, as an association list in the order in which the map is ranged over.
use Prim.Native.Nat.{suc, ◌≤◌}
use mathlib.Core.Path.{◌≡◌, refl, ap, subst}
use mathlib.Core.Logic.{◌≢◌, inl, inr}
use mathlib.Core.List.{List, [], ◌∷◌}
use mathlib.Core.Option.{Option, none, some}
use native.Mathlib.Omega.{arith}
use aniraku_backend.Base.Tests.{if◌then◌else◌, Bool-cases}
use aniraku_backend.Base.Lists.{length, All}
use aniraku_backend.Base.Texts.{Text, text_eq, text_eq_iff}

abbrev pub Dict {ℓ} : Type ℓ → Type ℓ
Dict V = List (Text × V)

module _ {ℓ} {V : Type ℓ} where
  -- `v, ok := m[k]`
  unfoldable pub lookup : Text → Dict V → Option V
  lookup k [] = none
  lookup k ((j, v) ∷ m) = if text_eq j k then some v else lookup k m

  -- `m[k] = v`
  unfoldable pub insert : Text → V → Dict V → Dict V
  insert k v [] = (k, v) ∷ []
  insert k v ((j, w) ∷ m) = if text_eq j k then (k, v) ∷ m else (j, w) ∷ insert k v m

  -- `delete(m, k)`
  unfoldable pub delete : Text → Dict V → Dict V
  delete k [] = []
  delete k ((j, w) ∷ m) = let rest = delete k m in if text_eq j k then rest else (j, w) ∷ rest

  -- Each key stands once.
  abbrev pub IsDict : Dict V → Type 0
  IsDict [] = Unit {0}
  IsDict ((j, w) ∷ m) = All (λ (e : Text × V). e.0 ≢ j) m × IsDict m

  -- A key reads what was last written under it, and what it read before otherwise.
  pub lookup-insert :
      (written read : Text) (new : V) (m : Dict V)
      → lookup read (insert written new m)
        ≡ (if text_eq written read then some new else lookup read m)
  unfolding lookup insert
  lookup-insert written read new [] = refl
  lookup-insert written read new ((at, old) ∷ rest) = ground (
    arith,
    lookup-insert written read new rest,
    text_eq_iff at written,
    text_eq_iff at read,
    text_eq_iff written read,
  )

  pub lookup-delete :
      (k j : Text) (m : Dict V) → lookup j (delete k m) ≡ (if text_eq k j then none else lookup j m)
  unfolding lookup delete
  lookup-delete k j [] = ground arith
  lookup-delete k j ((i, w) ∷ m) =
      ground (arith, text_eq_iff k j, text_eq_iff i k, text_eq_iff i j, lookup-delete k j m)

  pub All-insert {κ} :
      (P : Text × V → Type κ) (k : Text) (v : V) (m : Dict V)
      → All P m
      → P (k, v)
      → All P (insert k v m)
  unfolding insert
  All-insert P k v [] h p = (p, tt)
  All-insert P k v ((j, w) ∷ m) h p = ground (arith, All-insert P k v m h.1 p)

  pub All-delete {κ} :
      (P : Text × V → Type κ) (k : Text) (m : Dict V) → All P m → All P (delete k m)
  unfolding delete
  All-delete P k [] h = tt
  All-delete P k ((j, w) ∷ m) h = ground (arith, All-delete P k m h.1)

  pub insert-IsDict : (k : Text) (v : V) (m : Dict V) → IsDict m → IsDict (insert k v m)
  unfolding insert
  insert-IsDict k v [] h = (tt, tt)
  insert-IsDict k v ((j, w) ∷ m) h = elim (Bool-cases (text_eq j k)) [
    | inl same ↦ rw same (rw (← (text_eq_iff j k).0 same) h)
    | inr other ↦ rw other (
      All-insert (λ (e : Text × V). e.0 ≢ j) k v m h.0 (ground (arith, text_eq_iff j k)),
      insert-IsDict k v m h.1,
    )
  ]

  pub delete-IsDict : (k : Text) (m : Dict V) → IsDict m → IsDict (delete k m)
  unfolding delete
  delete-IsDict k [] h = tt
  delete-IsDict k ((j, w) ∷ m) h =
      ground (arith, delete-IsDict k m h.1, All-delete (λ (e : Text × V). e.0 ≢ j) k m h.0)

  -- A new key makes the map one longer, and a present one leaves its length.
  pub length-insert :
      (k : Text) (v : V) (m : Dict V)
      → length (insert k v m) ≡ (elim (lookup k m) [ none ↦ suc (length m) | some w ↦ length m ])
  unfolding lookup insert
  length-insert k v [] = refl
  length-insert k v ((j, w) ∷ m) = ground (arith, length-insert k v m)

  pub length-insert-le : (k : Text) (v : V) (m : Dict V) → length (insert k v m) ≤ suc (length m)
  length-insert-le k v m = ground (arith, length-insert k v m)

  pub length-insert_known :
      (k : Text) (w v : V) (m : Dict V) → lookup k m ≡ some w → length (insert k v m) ≡ length m
  length-insert_known k w v m found = ground (arith, length-insert k v m)

  delete_absent : (k : Text) (m : Dict V) → All (λ (e : Text × V). e.0 ≢ k) m → delete k m ≡ m
  unfolding delete
  delete_absent k [] h = refl
  delete_absent k ((j, w) ∷ m) h = ground (arith, delete_absent k m h.1, text_eq_iff j k)

  -- A delete of a present key makes the map one shorter.
  pub length-delete :
      (k : Text) (w : V) (m : Dict V)
      → IsDict m
      → lookup k m ≡ some w
      → suc (length (delete k m)) ≡ length m
  unfolding lookup delete
  length-delete k w [] h e = cc
  length-delete k w ((j, v) ∷ m) h e = elim (Bool-cases (text_eq j k)) [
    | inl same ↦ rw same (
        ap (λ (t : Dict V). suc (length t))
          (delete_absent k m (
            subst (λ (i : Text). All (λ (e : Text × V). e.0 ≢ i) m) ((text_eq_iff j k).0 same)
              h.0)))
    | inr other ↦ rw other (ap suc (length-delete k w m h.1 (ground arith)))
  ]

  pub length-delete-le : (k : Text) (m : Dict V) → length (delete k m) ≤ length m
  unfolding delete
  length-delete-le k [] = omega arith
  length-delete-le k ((j, w) ∷ m) = ground (arith, length-delete-le k m)

  pub All-lookup {κ} :
      (P : Text × V → Type κ) (k : Text) (v : V) (m : Dict V)
      → All P m
      → lookup k m ≡ some v
      → P (k, v)
  unfolding lookup
  All-lookup P k v [] h e = cc
  All-lookup P k v ((j, w) ∷ m) h e = ground (arith, text_eq_iff j k, All-lookup P k v m h.1)
