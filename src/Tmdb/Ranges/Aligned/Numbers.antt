-- ===== src/Tmdb/Ranges/Aligned/Numbers.antt =====
-- The numbers of an aligned map, against those of its offset.
use aniraku_backend.Base.{
  ltb, ◌==◌, if◌then◌else◌, ==→eq, Bool-cases, Option-cases, any, Text, ℕ, zero, suc, ◌+◌, ◌≤◌, ◌<◌,
  ◌≡◌, sym, subst, ◌∙◌, inl, inr, true, false, Option, none, some, List, [], ◌∷◌, arith,
}
use aniraku_backend.Tmdb.Ranges.{
  map_episode_number, aligned_entry, identity_aligned_from, identity_aligned_continuation,
}
use aniraku_backend.Tmdb.Ranges.Aligned.{aligned-target}

-- No target has a flag behind a bar.
unfoldable pub Unflagged : List (Text × Text) → Type 0
Unflagged ranges = any (λ (e : Text × Text). any (λ c. c == b'|') e.1) ranges ≡ false

-- The offset, once set, stays.
aligned_from-offset :
    (o m : ℕ) (ranges : List (Text × Text)) (off end : ℕ)
    → identity_aligned_from (some o) m ranges ≡ some (off, end)
    → off ≡ o
unfolding identity_aligned_from
aligned_from-offset o m [] off end h = ground (arith, h)
aligned_from-offset o m ((src, target) ∷ ranges) off end h =
    elim (Option-cases (aligned_entry src target)) [
      | inl bad ↦ absurd (ground (arith, h, bad))
      | inr ((off1, end1), entry) ↦ elim (Bool-cases (off1 == o)) [
        | inr other ↦ absurd (ground (arith, h, entry, other))
        | inl same ↦
            aligned_from-offset off1 (if ltb m end1 then end1 else m) ranges off end
              (ground (arith, h, entry, same))
            ∙ ==→eq off1 o same
      ]
    ]

-- The loop at an entry: the entry is aligned, with the offset of the result, and the loop goes on.
aligned_from-step :
    (o : Option ℕ) (m : ℕ) (src target : Text) (ranges : List (Text × Text)) (off end : ℕ)
    → identity_aligned_from o m ((src, target) ∷ ranges) ≡ some (off, end)
    → (end1 : ℕ) × (aligned_entry src target ≡ some (off, end1))
      × (identity_aligned_from (some off) (if ltb m end1 then end1 else m) ranges ≡ some (off, end))
unfolding identity_aligned_from
aligned_from-step o m src target ranges off end h = elim (Option-cases (aligned_entry src target)) [
  | inl bad ↦ absurd (ground (arith, h, bad))
  | inr ((off1, end1), entry) ↦ elim (Bool-cases (elim o [ none ↦ true | some x ↦ off1 == x ])) [
    | inr other ↦ absurd (ground (arith, h, entry, other))
    | inl same ↦
        let rest : identity_aligned_from (some off1) (if ltb m end1 then end1 else m) ranges
            ≡ some (off, end) =
          ground (arith, h, entry, same) in
        let keep = aligned_from-offset off1 (if ltb m end1 then end1 else m) ranges off end rest in
        (
          end1,
          subst (λ x. aligned_entry src target ≡ some (x, end1)) (sym keep) entry,
          subst
              (λ x.
                identity_aligned_from (some x) (if ltb m end1 then end1 else m) ranges
                ≡ some (off, end))
              (sym keep) rest,
        )
  ]
]

aligned_from-number :
    (o : Option ℕ) (m : ℕ) (ranges : List (Text × Text)) (off end n : ℕ)
    → identity_aligned_from o m ranges ≡ some (off, end)
    → Unflagged ranges
    → m < suc n
    → suc n ≤ end
    → map_episode_number ranges (suc n) ≡ some (suc n + off)
unfolding identity_aligned_from Unflagged map_episode_number
aligned_from-number none m [] off end n h plain low high = absurd (ground (arith, h))
aligned_from-number (some o) m [] off end n h plain low high = absurd (ground (arith, h))
aligned_from-number o m ((src, target) ∷ ranges) off end n h plain low high =
    let (end1, entry, rest) = aligned_from-step o m src target ranges off end h in
    elim (aligned-target src target off end1 (suc n) entry (ground (arith, plain)) (omega arith)) [
      | inl (inside, (r, found, there)) ↦ rw (found, map_episode_number) there
      | inr (past, missing) ↦
          rw (missing, map_episode_number)
            (aligned_from-number (some off) (if ltb m end1 then end1 else m) ranges off end n rest
              (ground (arith, plain)) (ground (arith, low, past)) high)
    ]

-- Where a map of ranges counts as aligned with an offset, and no target has a flag behind a bar,
-- the general numbering sends each episode from 1 to the last source episode to itself plus the
-- offset.
pub identity_aligned-map_episode_number :
    (ranges : List (Text × Text)) (off end n : ℕ)
    → identity_aligned_continuation ranges ≡ some (off, end)
    → Unflagged ranges
    → 0 < n
    → n ≤ end
    → map_episode_number ranges n ≡ some (n + off)
unfolding identity_aligned_continuation
identity_aligned-map_episode_number ranges off end zero h plain low high = absurd (omega arith)
identity_aligned-map_episode_number ranges off end (suc n) h plain low high =
    aligned_from-number none 0 ranges off end n h plain low high
