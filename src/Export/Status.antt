-- ===== src/Export/Status.antt =====
-- The list statuses of internal/api/v1/importexport.go, and the forms that the providers give them. Case
-- outside ASCII is a parameter.
use aniraku_backend.Base.{
  if◌then◌else◌, Bool-cases, any, All, Text, codes, text_eq, text_eq_iff, trim_space, lower, upper,
  ℕ, ◌≡◌, refl, sym, subst, inl, inr, Bool, true, List, [], ◌∷◌, map, arith,
}

abbrev pub list_current : Text
list_current = codes "CURRENT"

abbrev pub list_planning : Text
list_planning = codes "PLANNING"

abbrev pub list_completed : Text
list_completed = codes "COMPLETED"

abbrev pub list_paused : Text
list_paused = codes "PAUSED"

abbrev pub list_dropped : Text
list_dropped = codes "DROPPED"

abbrev pub list_repeating : Text
list_repeating = codes "REPEATING"

abbrev pub list_statuses : List Text
list_statuses =
    list_current ∷ list_planning ∷ list_completed ∷ list_paused ∷ list_dropped ∷ list_repeating ∷ []

unfoldable pub is_canonical_status : Text → Bool
is_canonical_status s = any (text_eq s) list_statuses

unfoldable pub normalize_mal_status : (ℕ → ℕ) → Text → Text
normalize_mal_status lower_other s =
    let s = map (lower lower_other) (trim_space s) in
    if text_eq s (codes "completed")
    then list_completed
    else if text_eq s (codes "watching")
    then list_current
    else if text_eq s (codes "on_hold")
    then list_paused
    else if text_eq s (codes "dropped")
    then list_dropped
    else if text_eq s (codes "plan_to_watch")
    then list_planning
    else list_current

unfoldable pub normalize_anilist_status : (ℕ → ℕ) → Text → Text
normalize_anilist_status upper_other s =
    let s = map (upper upper_other) (trim_space s) in
    if text_eq s list_completed
    then list_completed
    else if text_eq s list_repeating
    then list_repeating
    else if text_eq s list_current
    then list_current
    else if text_eq s list_paused
    then list_paused
    else if text_eq s list_dropped
    then list_dropped
    else if text_eq s list_planning
    then list_planning
    else list_current

unfoldable pub status_for_mal : Text → Text
status_for_mal status =
    if text_eq status list_completed
    then codes "completed"
    else if text_eq status list_paused
    then codes "on_hold"
    else if text_eq status list_dropped
    then codes "dropped"
    else if text_eq status list_planning
    then codes "plan_to_watch"
    else codes "watching"

listed-All {κ} :
    (P : Text → Type κ) (s : Text) (xs : List Text) → any (text_eq s) xs ≡ true → All P xs → P s
listed-All P s [] h ps = absurd (ground (arith, h))
listed-All P s (x ∷ xs) h ps = elim (Bool-cases (text_eq s x)) [
  | inl same ↦ subst P (sym ((text_eq_iff s x).0 same)) ps.0
  | inr other ↦ listed-All P s xs (ground (arith, h, other)) ps.1
]

-- A canonical status is one of the six.
pub canonical-All {κ} :
    (P : Text → Type κ) (s : Text) → is_canonical_status s ≡ true → All P list_statuses → P s
unfolding is_canonical_status
canonical-All P s h ps = listed-All P s list_statuses h ps

pub six : All (λ (s : Text). is_canonical_status s ≡ true) list_statuses
unfolding is_canonical_status text_eq
six = (refl, (refl, (refl, (refl, (refl, (refl, _))))))

module _ (lower_other upper_other : ℕ → ℕ) where
  normalize_anilist_status-canonical :
      (raw : Text) → is_canonical_status (normalize_anilist_status upper_other raw) ≡ true
  unfolding normalize_anilist_status
  normalize_anilist_status-canonical raw =
      ground (arith, six.0, six.1.0, six.1.1.0, six.1.1.1.0, six.1.1.1.1.0, six.1.1.1.1.1.0)

  normalize_mal_status-canonical :
      (raw : Text) → is_canonical_status (normalize_mal_status lower_other raw) ≡ true
  unfolding normalize_mal_status
  normalize_mal_status-canonical raw =
      ground (arith, six.0, six.1.0, six.1.1.0, six.1.1.1.0, six.1.1.1.1.0)

  -- A canonical status survives its form: AniList's gives back the status itself, and
  -- MyAnimeList's, which has none for a rewatch, gives back the status or, for that one, CURRENT.
  -- What is read off either provider is canonical whatever it sent.
  pub status_round_trip :
      (s raw : Text)
      → is_canonical_status s ≡ true
      → (normalize_anilist_status upper_other s ≡ s)
        × (normalize_mal_status lower_other (status_for_mal s)
            ≡ (if text_eq s list_repeating then list_current else s))
        × (is_canonical_status (normalize_anilist_status upper_other raw) ≡ true)
        × (is_canonical_status (normalize_mal_status lower_other raw) ≡ true)
  unfolding normalize_anilist_status normalize_mal_status status_for_mal text_eq trim_space lower
      upper
  status_round_trip s raw h = (
    canonical-All (λ (t : Text). normalize_anilist_status upper_other t ≡ t) s h
        (refl, (refl, (refl, (refl, (refl, (refl, _)))))),
    canonical-All
        (λ (t : Text).
          normalize_mal_status lower_other (status_for_mal t)
          ≡ (if text_eq t list_repeating then list_current else t))
        s h (refl, (refl, (refl, (refl, (refl, (refl, _)))))),
    normalize_anilist_status-canonical raw,
    normalize_mal_status-canonical raw,
  )
