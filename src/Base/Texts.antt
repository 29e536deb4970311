-- ===== src/Base/Texts.antt =====
-- Text as a list of code points, with what Go's `strings` does on it.
use Prim.Native.Nat.{ℕ, ◌+◌, ◌-◌}
use Prim.Native.Char.{code}
use Prim.Native.String.{String}
use mathlib.Core.Path.{◌≡◌, refl, ap}
use mathlib.Core.Logic.{◌↔◌, inl, inr}
use mathlib.Core.Option.{Option, none, some}
use mathlib.Core.Bool.{Bool, true, false, ◌&&◌, ◌||◌}
use mathlib.Core.List.{List, [], ◌∷◌, ◌++◌, reverse}
use native.Mathlib.Omega.{arith}
use aniraku_backend.Base.Tests.{leb, ◌==◌, if◌then◌else◌, Bool-cases}

abbrev pub Text : Type 0
Text = List ℕ

-- The code points of a literal.
abbrev pub codes : String → Text
codes String.[] = []
codes (String.◌∷◌ c s) = code c ∷ codes s

unfoldable pub text_eq : Text → Text → Bool
text_eq [] [] = true
text_eq (a ∷ s) (b ∷ t) = a == b && text_eq s t
text_eq _ _ = false

pub text_eq_iff : (s t : Text) → (text_eq s t ≡ true) ↔ (s ≡ t)
unfolding text_eq
text_eq_iff [] [] = ground arith
text_eq_iff [] (b ∷ t) = ground arith
text_eq_iff (a ∷ s) [] = ground arith
text_eq_iff (a ∷ s) (b ∷ t) = ground (arith, text_eq_iff s t)

pub text_eq_refl : (s : Text) → text_eq s s ≡ true
text_eq_refl s = (text_eq_iff s s).1 refl

-- `unicode.IsSpace`.
unfoldable pub is_space : ℕ → Bool
is_space c =
    (leb 9 c && leb c 13)
    || c == 32
    || c == 0x85
    || c == 0xA0
    || c == 0x1680
    || (leb 0x2000 c && leb c 0x200A)
    || c == 0x2028
    || c == 0x2029
    || c == 0x202F
    || c == 0x205F
    || c == 0x3000

-- Drops code points from the front while the test holds.
unfoldable pub trim_left : (ℕ → Bool) → Text → Text
trim_left test [] = []
trim_left test (c ∷ s) = let rest = trim_left test s in if test c then rest else c ∷ s

unfoldable pub trim_right : (ℕ → Bool) → Text → Text
unfolding trim_left
trim_right test s = reverse (trim_left test (reverse s))

-- `strings.TrimSpace`.
unfoldable pub trim_space : Text → Text
unfolding trim_left trim_right is_space
trim_space s = trim_right is_space (trim_left is_space s)

-- `unicode.ToLower` and `unicode.ToUpper`, for a table of what is outside ASCII.
unfoldable pub lower : (ℕ → ℕ) → ℕ → ℕ
lower other c = if leb 128 c then other c else if leb b'A' c && leb c b'Z' then c + 32 else c

unfoldable pub upper : (ℕ → ℕ) → ℕ → ℕ
upper other c = if leb 128 c then other c else if leb b'a' c && leb c b'z' then c - 32 else c

unfoldable pub starts_with : Text → Text → Bool
starts_with s [] = true
starts_with [] (b ∷ t) = false
starts_with (a ∷ s) (b ∷ t) = a == b && starts_with s t

-- `strings.HasSuffix`: the suffix is met on the way down.
unfoldable pub has_suffix : Text → Text → Bool
unfolding text_eq
has_suffix [] t = text_eq [] t
has_suffix (a ∷ s) t = text_eq (a ∷ s) t || has_suffix s t

-- `strings.Contains`.
unfoldable pub contains : Text → Text → Bool
unfolding starts_with
contains [] t = starts_with [] t
contains (a ∷ s) t = starts_with (a ∷ s) t || contains s t

-- `strings.Cut` at one code point: the text before its first occurrence and the text behind it.
unfoldable pub cut : ℕ → Text → Option (Text × Text)
cut sep [] = none
cut sep (c ∷ s) =
    let rest = cut sep s in
    if c == sep
    then some ([], s)
    else elim rest [ none ↦ none | some (front, back) ↦ some (c ∷ front, back) ]

-- `strings.Split` at one code point: the field under way and the fields that follow.
unfoldable pub split_from : ℕ → Text → Text → List Text
split_from sep cur [] = reverse cur ∷ []
split_from sep cur (c ∷ s) =
    let closed = reverse cur ∷ split_from sep [] s in
    let longer = split_from sep (c ∷ cur) s in if c == sep then closed else longer

unfoldable pub split : ℕ → Text → List Text
unfolding split_from
split sep s = split_from sep [] s

pub split_from-append :
    (sep : ℕ) (cur s t : Text)
    → split_from sep cur (s ++ sep ∷ t) ≡ split_from sep cur s ++ split_from sep [] t
unfolding split_from
split_from-append sep cur [] t = ground arith
split_from-append sep cur (c ∷ s) t =
    ground (arith, split_from-append sep [] s t, split_from-append sep (c ∷ cur) s t)

-- Splitting a joined text splits each side.
pub split-append : (sep : ℕ) (s t : Text) → split sep (s ++ sep ∷ t) ≡ split sep s ++ split sep t
unfolding split
split-append sep s t = split_from-append sep [] s t

-- A suffix test finds the text in front of the suffix, and holds only if there is one.
pub has_suffix→append : (s t : Text) → has_suffix s t ≡ true → (front : Text) × (s ≡ front ++ t)
unfolding has_suffix
has_suffix→append [] t h = ([], (text_eq_iff [] t).0 h)
has_suffix→append (a ∷ s) t h = elim (Bool-cases (text_eq (a ∷ s) t)) [
  | inl e ↦ ([], (text_eq_iff (a ∷ s) t).0 e)
  | inr e ↦ let (front, same) = has_suffix→append s t (ground arith) in (a ∷ front, ap (◌∷◌ a) same)
]

pub append→has_suffix : (front t : Text) → has_suffix (front ++ t) t ≡ true
unfolding has_suffix
append→has_suffix [] [] = ground (arith, text_eq_refl [])
append→has_suffix [] (b ∷ t) = ground (arith, text_eq_refl (b ∷ t))
append→has_suffix (a ∷ front) t = ground (arith, append→has_suffix front t)
