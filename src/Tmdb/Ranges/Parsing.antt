-- ===== src/Tmdb/Ranges/Parsing.antt =====
-- The texts that are ranges.
use aniraku_backend.Base.{
  leb, ◌==◌, Bool-cases, Option-cases, any, any-append, Free, Text, text_eq, text_eq_iff,
  trim_space, cut, digits, ℕ, ◌+◌, ◌-◌, ◌*◌, ◌<◌, ◌≡◌, refl, ap, ◌∙◌, inl, inr, ◌&&◌, none, some,
  [], ◌∷◌, ◌++◌, arith,
}
use aniraku_backend.Tmdb.Ranges.{Rng, number, closed_rng, open_rng, parse_trimmed, parse_range}

digits-Free : (sep k : ℕ) (s : Text) (n : ℕ) → sep < b'0' → digits k s ≡ some n → Free sep s
unfolding digits
digits-Free sep k [] n low h = refl
digits-Free sep k (c ∷ s) n low h = elim (Bool-cases (leb b'0' c && leb c b'9')) [
  | inl digit ↦ ground (arith, digits-Free sep (k * 10 + (c - b'0')) s n, low, h, digit)
  | inr other ↦ ground (arith, h, other)
]

number-Free : (sep : ℕ) (s : Text) (n : ℕ) → sep < b'0' → number s ≡ some n → Free sep s
unfolding number
number-Free sep s n low h = elim (Option-cases (digits 0 s)) [
  | inl bad ↦ ground (arith, h, bad)
  | inr (k, read) ↦ digits-Free sep 0 s k low read
]

cut-append :
    (sep : ℕ) (s front back : Text) → cut sep s ≡ some (front, back) → s ≡ front ++ sep ∷ back
unfolding cut
cut-append sep [] front back h = cc
cut-append sep (c ∷ s) [] back h = elim (Bool-cases (c == sep)) [
  | inl end ↦ ground (arith, h, end)
  | inr inside ↦ elim (Option-cases (cut sep s)) [
    | inl missing ↦ absurd (ground (arith, h, inside, missing))
    | inr ((f, b), found) ↦ absurd (ground (arith, h, inside, found))
  ]
]
cut-append sep (c ∷ s) (x ∷ front) back h = elim (Bool-cases (c == sep)) [
  | inl end ↦ absurd (ground (arith, h, end))
  | inr inside ↦ elim (Option-cases (cut sep s)) [
    | inl missing ↦ absurd (ground (arith, h, inside, missing))
    | inr ((f, b), found) ↦
        let same : (c ≡ x) × (f ≡ front) × (b ≡ back) = (
          ground (arith, h, inside, found),
          ground (arith, h, inside, found),
          ground (arith, h, inside, found),
        ) in
        let rest = cut-append sep s front back (found ∙ ground (arith, same)) in
        ground (arith, rest, same.0)
  ]
]

pub cut-Free : (sep : ℕ) (s : Text) → Free sep s → cut sep s ≡ none
unfolding cut
cut-Free sep [] h = refl
cut-Free sep (c ∷ s) h = ground (arith, h, cut-Free sep s)

joined-Free :
    (s front back : Text)
    → cut b'-' s ≡ some (front, back)
    → Free b',' front
    → Free b',' back
    → Free b',' s
joined-Free s front back found f b =
    ap (any (λ c. c == b',')) (cut-append b'-' s front back found)
    ∙ any-append (λ c. c == b',') front (b'-' ∷ back)
    ∙ ground (arith, f, b)

-- A text that is a range has no comma, and the range starts past 0.
parse_trimmed-Free : (s : Text) (r : Rng) → parse_trimmed s ≡ some r → Free b',' s × (0 < r.start)
unfolding parse_trimmed closed_rng open_rng
parse_trimmed-Free s r h = elim (Option-cases (cut b'-' s)) [
  | inl alone ↦ elim (Option-cases (number s)) [
    | inl bad ↦ absurd (ground (arith, h, alone, bad))
    | inr (n, read) ↦ (number-Free b',' s n (omega arith) read, ground (arith, h, alone, read))
  ]
  | inr ((front, back), found) ↦ elim (Option-cases (number front)) [
    | inl bad ↦ absurd (ground (arith, h, found, bad))
    | inr (n, read) ↦ elim (Bool-cases (text_eq back [])) [
      | inl bare ↦ (
        joined-Free s front back found (number-Free b',' front n (omega arith) read)
            (ap (any (λ c. c == b',')) ((text_eq_iff back []).0 bare)),
        ground (arith, h, found, read, bare),
      )
      | inr more ↦ elim (Option-cases (number back)) [
        | inl bad ↦ absurd (ground (arith, h, found, read, more, bad))
        | inr (m, last) ↦ (
          joined-Free s front back found (number-Free b',' front n (omega arith) read)
              (number-Free b',' back m (omega arith) last),
          ground (arith, h, found, read, more, last),
        )
      ]
    ]
  ]
]

pub range-Free :
    (x : Text) (t : Rng) → parse_range x ≡ some t → Free b',' (trim_space x) × (0 < t.start)
unfolding parse_range
range-Free x t read = parse_trimmed-Free (trim_space x) t read
