-- ===== src/Tmdb/Ranges/Aligned.antt =====
-- Numbering in a map whose entries are aligned with their targets.
pub mod Numbers
use aniraku_backend.Base.{
  ltb, leb, ◌==◌, if◌then◌else◌, ==→eq, Bool-cases, Option-cases, Free, split_from_lem,
  trim_space_idem, trim_space-Free, Text, trim_space, cut, split, ℕ, ◌+◌, ◌-◌, ◌≤◌, ◌<◌, ◌≡◌, ap,
  subst, ◌∙◌, ◌⊎◌, inl, inr, true, false, none, some, [], ◌∷◌, arith,
}
use aniraku_backend.Tmdb.Ranges.{
  Rng, parse_range, has_episode, rng_length, walk_targets, target_of, matching, aligned_rngs,
  without_flag, aligned_entry,
}
use aniraku_backend.Tmdb.Ranges.Parsing.{cut-Free, range-Free}

aligned_rngs-ends :
    (s t : Rng) (off end : ℕ)
    → aligned_rngs s t ≡ some (off, end)
    → (s.start ≡ 1)
      × (s.end ≡ some end)
      × (off ≡ t.start - 1)
      × (t_end : ℕ) × (t.end ≡ some t_end)
      × (t_end ≡ end + off)
unfolding aligned_rngs
aligned_rngs-ends s t off end h = elim (Bool-cases (s.start == 1)) [
  | inr other ↦ absurd (ground (arith, h, other))
  | inl one ↦ elim (Option-cases s.end) [
    | inl endless ↦ absurd (ground (arith, h, one, endless))
    | inr (a, closed_s) ↦ elim (Option-cases t.end) [
      | inl endless ↦ absurd (ground (arith, h, one, closed_s, endless))
      | inr (b, closed_t) ↦ elim (Bool-cases (b == a + (t.start - 1))) [
        | inr apart ↦ absurd (ground (arith, h, one, closed_s, closed_t, apart))
        | inl level ↦ (
          ==→eq s.start 1 one,
          ground (arith, h, one, closed_s, closed_t, level),
          ground (arith, h, one, closed_s, closed_t, level),
          b,
          closed_t,
          ground (arith, h, one, closed_s, closed_t, level),
        )
      ]
    ]
  ]
]

aligned_entry-parts :
    (src target : Text) (off end : ℕ)
    → aligned_entry src target ≡ some (off, end)
    → Free b'|' target
    → (s : Rng) × (t : Rng) × (parse_range src ≡ some s)
      × (parse_range (trim_space target) ≡ some t)
      × (aligned_rngs s t ≡ some (off, end))
unfolding aligned_entry without_flag
aligned_entry-parts src target off end h plain =
    let bare = cut-Free b'|' target plain in
    elim (Option-cases (parse_range src)) [
      | inl bad ↦ absurd (ground (arith, h, bad))
      | inr (s, read_s) ↦ elim (Option-cases (parse_range (trim_space target))) [
        | inl bad ↦ absurd (ground (arith, h, read_s, bare, bad))
        | inr (t, read_t) ↦ (s, t, read_s, read_t, ground (arith, h, read_s, bare, read_t))
      ]
    ]

walk_one :
    (t : Rng) (offset : ℕ) (x : Text)
    → parse_range (trim_space x) ≡ some t
    → offset < rng_length t
    → walk_targets offset (x ∷ []) ≡ some (t.start + offset)
unfolding walk_targets
walk_one t offset x read inside =
    let fits : ltb offset (rng_length t) ≡ true = ground arith in rw (read, walk_targets) (rw fits)

one_field : (x : Text) → Free b',' x → split b',' x ≡ x ∷ []
unfolding split
one_field x h = split_from_lem b',' [] x h

unflagged :
    (s : Rng) (target : Text) (n : ℕ)
    → cut b'|' (trim_space target) ≡ none
    → target_of s target n
      ≡ walk_targets (n - s.start) (split b',' (trim_space (trim_space target)))
unfolding target_of
unflagged s target n bare = rw (bare, target_of)

-- A target of one range counts on from its start.
target_of_one :
    (s t : Rng) (target : Text) (n : ℕ)
    → Free b'|' target
    → parse_range (trim_space target) ≡ some t
    → n - s.start < rng_length t
    → target_of s target n ≡ some (t.start + (n - s.start))
target_of_one s t target n plain read inside =
    let bare = cut-Free b'|' (trim_space target) (trim_space-Free b'|' target plain) in
    let idem = trim_space_idem target in
    let no_comma = subst (Free b',') idem (range-Free (trim_space target) t read).0 in
    unflagged s target n bare
    ∙ ap (λ (x : Text). walk_targets (n - s.start) (split b',' x)) idem
    ∙ ap (walk_targets (n - s.start)) (one_field (trim_space target) no_comma)
    ∙ walk_one t (n - s.start) (trim_space target) (ap parse_range idem ∙ read) inside

length_of : (t : Rng) (end : ℕ) → t.end ≡ some end → rng_length t ≡ end - t.start + 1
unfolding rng_length
length_of t end closed = rw (closed, rng_length)

covered :
    (s : Rng) (end n : ℕ)
    → s.start ≡ 1
    → s.end ≡ some end
    → 0 < n
    → leb n end ≡ true
    → (if has_episode s n then some s else none) ≡ some s
unfolding has_episode
covered s end n one closed pos within = ground (arith, one, closed, pos, within)

uncovered :
    (s : Rng) (end n : ℕ)
    → s.end ≡ some end
    → leb n end ≡ false
    → (if has_episode s n then some s else none) ≡ none
unfolding has_episode
uncovered s end n closed past = ground (arith, closed, past)

-- The number of an episode that an aligned entry has.
aligned-target :
    (src target : Text) (off end n : ℕ)
    → aligned_entry src target ≡ some (off, end)
    → Free b'|' target
    → 0 < n
    → ((n ≤ end)
        × ((r : Rng) × (matching src n ≡ some r) × (target_of r target n ≡ some (n + off))))
      ⊎ ((end < n) × (matching src n ≡ none))
unfolding matching has_episode
aligned-target src target off end n h plain pos =
    let (s, t, read_s, read_t, same) = aligned_entry-parts src target off end h plain in
    let (one, closed, shift, t_end, closed_t, ends) = aligned_rngs-ends s t off end same in
    let first = (range-Free (trim_space target) t read_t).1 in
    elim (Bool-cases (leb n end)) [
      | inl within ↦
          let size = length_of t t_end closed_t in
          inl (
            ground (arith, within),
            (
              s,
              rw (read_s, matching) (covered s end n one closed pos within),
              target_of_one s t target n plain read_t
                    (ground (arith, size, one, ends, shift, within, first, pos))
                  ∙ ap some (ground (arith, one, shift, first, pos)),
            ),
          )
      | inr past ↦ inr (ground (arith, past), rw (read_s, matching) (uncovered s end n closed past))
    ]
