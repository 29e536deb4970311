-- ===== src/Export/Decision/Mal.antt =====
-- What an export may change at MyAnimeList, and the export after it.
use aniraku_backend.Base.{
  if◌then◌else◌, Text, text_eq, text_eq_refl, ℕ, ◌≤◌, ◌≡◌, sym, ap, subst, ◌∙◌, ◌⊎◌, inl, inr, Bool,
  true, false, Option, none, some, [], arith,
}
use aniraku_backend.Export.Status.{
  list_current, list_repeating, is_canonical_status, normalize_mal_status, status_for_mal, six,
  status_round_trip,
}
use aniraku_backend.Export.Watch.{IsValid}
use aniraku_backend.Export.Decision.{
  Title, ListState, export_progress, want_export_status, stored_of, want_status, want_score,
  MalForm, mal_form, mal_same, decide_mal,
}
use aniraku_backend.Export.Decision.Laws.{export_progress-raises, Settled, settled}

want_status-canonical : (t : Title) → is_canonical_status (want_status t) ≡ true
unfolding want_status want_export_status
want_status-canonical t = ground (arith, six.0, six.1.0, six.1.1.0, six.1.0)

module _ (t : Title) (lower_other upper_other : ℕ → ℕ) where
  abbrev pub Formed : ℕ → MalForm → Type 0
  Formed remote form = form ≡ mal_form t (export_progress t.watched (stored_of t) remote)

  pub Formed-new : (form : MalForm) → decide_mal lower_other t none ≡ some form → Formed 0 form
  unfolding decide_mal
  Formed-new form h = ground (arith, h)

  pub Formed-changed :
      (cur : ListState) (form : MalForm)
      → decide_mal lower_other t (some cur) ≡ some form
      → Formed cur.progress form
  unfolding decide_mal
  Formed-changed cur form h = ground (arith, h)

  matches :
      (after : ListState) (target : ℕ × Bool)
      → (target.1 ≡ false) ⊎ (target.0 ≡ after.progress)
      → (want_score t ≡ 0) ⊎ (after.score ≡ want_score t)
      → mal_same t
          (if text_eq (want_status t) list_repeating then list_current else want_status t)
          after
          target
        ≡ true
  unfolding mal_same
  matches after target p c =
      ground (arith, p, c, text_eq_refl (want_status t), text_eq_refl list_current)

  skipped :
      (after : ListState)
      → Settled t after.progress
      → after.status ≡ status_for_mal (want_status t)
      → (want_score t ≡ 0) ⊎ (after.score ≡ want_score t)
      → decide_mal lower_other t (some after) ≡ none
  unfolding decide_mal Settled
  skipped after p s c =
      let read =
        ap (normalize_mal_status lower_other) s
        ∙ (status_round_trip lower_other upper_other (want_status t) []
            (want_status-canonical t)).1 in
      ground (
        arith,
        subst
            (λ (r : Text).
              mal_same t r after (export_progress t.watched (stored_of t) after.progress) ≡ true)
            (sym read) (matches after _ p c),
      )

  number :
      (target : ℕ × Bool) (n remote : ℕ) (form : MalForm)
      → form ≡ mal_form t target
      → (form.num_watched_episodes ≡ some n) ⊎ ((form.num_watched_episodes ≡ none) × (n ≡ remote))
      → (n ≡ target.0) ⊎ ((target.1 ≡ false) × (n ≡ remote))
  unfolding mal_form
  number target n remote form h p = ground (arith, h, p)

  number-Settled :
      (remote n : ℕ) (form : MalForm)
      → IsValid t.watched
      → Formed remote form
      → (form.num_watched_episodes ≡ some n) ⊎ ((form.num_watched_episodes ≡ none) × (n ≡ remote))
      → Settled t n
  unfolding Settled
  number-Settled remote n form v h p =
      elim (number (export_progress t.watched (stored_of t) remote) n remote form h p) [
        | inl sent ↦ settled t remote n v sent
        | inr (kept, stays) ↦ inl (
            subst (λ (k : ℕ). (export_progress t.watched (stored_of t) k).1 ≡ false) (sym stays)
              kept)
      ]

  form_score :
      (target : ℕ × Bool) (score : ℕ) (form : MalForm)
      → form ≡ mal_form t target
      → (form.score ≡ none) ⊎ (form.score ≡ some score)
      → (want_score t ≡ 0) ⊎ (score ≡ want_score t)
  unfolding mal_form want_score
  form_score target score form h c = ground (arith, h, c)

  form_status :
      (target : ℕ × Bool) (form : MalForm)
      → form ≡ mal_form t target
      → form.status ≡ status_for_mal (want_status t)
  unfolding mal_form
  form_status target form h = ap (λ (f : MalForm). f.status) h

  Formed-settles :
      (remote : ℕ) (after : ListState) (form : MalForm)
      → IsValid t.watched
      → Formed remote form
      → after.status ≡ form.status
      → (form.num_watched_episodes ≡ some after.progress)
        ⊎ ((form.num_watched_episodes ≡ none) × (after.progress ≡ remote))
      → (form.score ≡ none) ⊎ (form.score ≡ some after.score)
      → decide_mal lower_other t (some after) ≡ none
  Formed-settles remote after form v h s p c =
      let target = export_progress t.watched (stored_of t) remote in
      skipped after (number-Settled remote after.progress form v h p)
        (s ∙ form_status target form h) (form_score target after.score form h c)

  -- An export to MyAnimeList settles: for a title whose watch state is valid, where MyAnimeList
  -- stores what the form sets, keeps the count that a form does not set, and starts a new title's
  -- from 0, the next export of the title skips it.
  pub decide_mal_settles :
      (before : Option ListState) (after : ListState) (form : MalForm)
      → IsValid t.watched
      → decide_mal lower_other t before ≡ some form
      → after.status ≡ form.status
      → (form.num_watched_episodes ≡ some after.progress)
        ⊎ ((form.num_watched_episodes ≡ none)
            × (after.progress ≡ (elim before [ none ↦ 0 | some cur ↦ cur.progress ])))
      → (form.score ≡ none) ⊎ (form.score ≡ some after.score)
      → decide_mal lower_other t (some after) ≡ none
  decide_mal_settles none after form v h s p c =
      Formed-settles 0 after form v (Formed-new form h) s p c
  decide_mal_settles (some cur) after form v h s p c =
      Formed-settles cur.progress after form v (Formed-changed cur form h) s p c

  -- An export to MyAnimeList raises a count that MyAnimeList has to nothing but the newest episode
  -- that the player saw finished.
  pub decide_mal-raises :
      (cur : ListState) (form : MalForm) (n : ℕ)
      → decide_mal lower_other t (some cur) ≡ some form
      → form.num_watched_episodes ≡ some n
      → (n ≤ cur.progress) ⊎ (n ≡ t.watched.real_episode)
  decide_mal-raises cur form n h e = ground (
    arith,
    number (export_progress t.watched (stored_of t) cur.progress) n cur.progress form
        (Formed-changed cur form h) (inl e),
    export_progress-raises t.watched (stored_of t) cur.progress,
  )
