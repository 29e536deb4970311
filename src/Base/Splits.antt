-- ===== src/Base/Splits.antt =====
-- Fields of a split text: none holds the separator, and a text without it is one field.
use aniraku_backend.Base.Tests.{◌==◌, Bool-cases}
use aniraku_backend.Base.Lists.{any, any-append, All}
use aniraku_backend.Base.Texts.{Text, split_from}
use Prim.Native.Nat.{ℕ}
use mathlib.Core.Path.{◌≡◌, refl, ap, ◌∙◌}
use mathlib.Core.Bool.{false}
use mathlib.Core.Logic.{inl, inr}
use mathlib.Core.List.{[], ◌∷◌, ◌++◌, append-nil, append_assoc, reverse, reverse-cons}
use native.Mathlib.Omega.{arith}

abbrev pub Free : ℕ → Text → Type 0
Free sep s = any (λ c. c == sep) s ≡ false

pub reverse-Free :
    (sep c : ℕ) (cur : Text)
    → Free sep (reverse cur)
    → (c == sep) ≡ false
    → Free sep (reverse (c ∷ cur))
reverse-Free sep c cur h other =
    ap (any (λ x. x == sep)) (reverse-cons c cur)
    ∙ any-append (λ x. x == sep) (reverse cur) (c ∷ [])
    ∙ ground (arith, h, other)

pub split_from-Free :
    (sep : ℕ) (cur s : Text) → Free sep (reverse cur) → All (Free sep) (split_from sep cur s)
unfolding split_from
split_from-Free sep cur [] h = (h, tt)
split_from-Free sep cur (c ∷ s) h = elim (Bool-cases (c == sep)) [
  | inl end ↦ rw end (h, split_from-Free sep [] s refl)
  | inr inside ↦ rw inside (split_from-Free sep (c ∷ cur) s (reverse-Free sep c cur h inside))
]

pub split_from_lem :
    (sep : ℕ) (cur s : Text) → Free sep s → split_from sep cur s ≡ (reverse cur ++ s) ∷ []
unfolding split_from
split_from_lem sep cur [] h = rw append-nil
split_from_lem sep cur (c ∷ s) h = elim (Bool-cases (c == sep)) [
  | inl end ↦ ground (arith, h, end)
  | inr inside ↦ rw inside (
      split_from_lem sep (c ∷ cur) s (ground (arith, h))
      ∙ ap (λ (t : Text). (t ++ s) ∷ []) (reverse-cons c cur)
      ∙ ap (λ (t : Text). t ∷ []) (append_assoc (reverse cur) (c ∷ []) s))
]
