-- ===== src/Base/Trims.antt =====
-- Trimming twice is trimming once, and trimming brings in no code point.
use aniraku_backend.Base.Tests.{Bool-cases}
use aniraku_backend.Base.Texts.{Text, is_space, trim_left, trim_right, trim_space}
use aniraku_backend.Base.Splits.{Free, reverse-Free}
use Prim.Native.Nat.{ℕ}
use mathlib.Core.Path.{◌≡◌, refl, sym, ap, ◌∙◌}
use mathlib.Core.Bool.{Bool, false}
use mathlib.Core.Logic.{◌⊎◌, inl, inr}
use mathlib.Core.List.{[], ◌∷◌, ◌++◌, reverse, reverse-cons, reverse-append, reverse-reverse}
use native.Mathlib.Omega.{arith}

module _ (test : ℕ → Bool) where
  trim_left_idem : (s : Text) → trim_left test (trim_left test s) ≡ trim_left test s
  unfolding trim_left
  trim_left_idem [] = refl
  trim_left_idem (c ∷ s) = ground (arith, trim_left_idem s)

  -- Nothing is trimmed before a code point that stays.
  trim_left_last :
      (s : Text) (c : ℕ)
      → test c ≡ false
      → trim_left test (s ++ c ∷ []) ≡ trim_left test s ++ c ∷ []
  unfolding trim_left
  trim_left_last [] c kept = ground (arith, kept)
  trim_left_last (d ∷ s) c kept = ground (arith, trim_left_last s c kept)

  trim_right_cons :
      (c : ℕ) (s : Text) → test c ≡ false → trim_right test (c ∷ s) ≡ c ∷ trim_right test s
  unfolding trim_right
  trim_right_cons c s kept =
      ap (λ (t : Text). reverse (trim_left test t)) (reverse-cons c s)
      ∙ ap reverse (trim_left_last (reverse s) c kept)
      ∙ reverse-append (trim_left test (reverse s)) (c ∷ [])

  trim_right_idem : (s : Text) → trim_right test (trim_right test s) ≡ trim_right test s
  unfolding trim_right
  trim_right_idem s =
      ap (λ (t : Text). reverse (trim_left test t)) (reverse-reverse (trim_left test (reverse s)))
      ∙ ap reverse (trim_left_idem (reverse s))

  trim_left_cases :
      (s : Text)
      → (trim_left test s ≡ [])
        ⊎ ((c : ℕ) × (t : Text) × (trim_left test s ≡ c ∷ t) × (test c ≡ false))
  unfolding trim_left
  trim_left_cases [] = inl refl
  trim_left_cases (c ∷ s) = elim (Bool-cases (test c)) [
    | inl gone ↦ rw gone (trim_left_cases s)
    | inr kept ↦ rw kept (inr (c, s, refl, kept))
  ]

  trim_left-trim_right :
      (s : Text)
      → trim_left test (trim_right test (trim_left test s)) ≡ trim_right test (trim_left test s)
  trim_left-trim_right s = elim (trim_left_cases s) [
    | inl blank ↦ rw blank none_left
    | inr (c, t, e, kept) ↦ rw e (
        ap (trim_left test) (trim_right_cons c t kept)
        ∙ stays c (trim_right test t) kept
        ∙ sym (trim_right_cons c t kept))
  ]
    where
      none_left : trim_left test (trim_right test []) ≡ trim_right test []
      none_left = unfold trim_right in unfold trim_left in refl

      stays : (c : ℕ) (t : Text) → test c ≡ false → trim_left test (c ∷ t) ≡ c ∷ t
      stays c t kept = unfold trim_left in rw kept

  trim_left-Free : (sep : ℕ) (s : Text) → Free sep s → Free sep (trim_left test s)
  unfolding trim_left
  trim_left-Free sep [] h = refl
  trim_left-Free sep (c ∷ s) h = ground (arith, h, trim_left-Free sep s)

  reversed-Free : (sep : ℕ) (s : Text) → Free sep s → Free sep (reverse s)
  reversed-Free sep [] h = refl
  reversed-Free sep (c ∷ s) h =
      reverse-Free sep c s (reversed-Free sep s (ground (arith, h))) (ground (arith, h))

  trim_right-Free : (sep : ℕ) (s : Text) → Free sep s → Free sep (trim_right test s)
  unfolding trim_right
  trim_right-Free sep s h =
      reversed-Free sep _ (trim_left-Free sep (reverse s) (reversed-Free sep s h))

pub trim_space_idem : (s : Text) → trim_space (trim_space s) ≡ trim_space s
unfolding trim_space
trim_space_idem s =
    ap (trim_right is_space) (trim_left-trim_right is_space s)
    ∙ trim_right_idem is_space (trim_left is_space s)

pub trim_space-Free : (sep : ℕ) (s : Text) → Free sep s → Free sep (trim_space s)
unfolding trim_space
trim_space-Free sep s h =
    trim_right-Free is_space sep (trim_left is_space s) (trim_left-Free is_space sep s h)
