-- ===== src/Export/Decision/Laws.antt =====
-- What an export may change at AniList, and the export after it.
use aniraku_backend.Base.{
  Text, text_eq, text_eq_iff, ℕ, ◌≤◌, ◌≡◌, sym, subst, ◌∙◌, ◌⊎◌, Bool, true, false, Option, none,
  some, arith,
}
use aniraku_backend.Export.Status.{list_current, list_planning, normalize_mal_status}
use aniraku_backend.Export.Watch.{WatchProgress, IsValid}
use aniraku_backend.Export.Decision.{
  Title, ListState, no_evidence_planning_fix, export_progress, stored_of, has_stored, want_status,
  want_score, leaves_alone, AnilistExportWrite, anilist_write, anilist_same, decide_anilist,
  decide_mal,
}

export_progress_settles :
    (state : WatchProgress) (stored : Text) (remote : ℕ)
    → state.real_episode ≤ state.episode
    → let once = export_progress state stored remote in
      let again = export_progress state stored once.0 in (again.1 ≡ false) ⊎ (again.0 ≡ once.0)
unfolding export_progress
export_progress_settles state stored remote h = ground (arith, h)

pub export_progress-raises :
    (state : WatchProgress) (stored : Text) (remote : ℕ)
    → ((export_progress state stored remote).0 ≤ remote)
      ⊎ ((export_progress state stored remote).0 ≡ state.real_episode)
unfolding export_progress
export_progress-raises state stored remote = ground arith

module _ (t : Title) where
  abbrev Sent : ℕ → AnilistExportWrite → Type 0
  Sent remote w =
      (w.progress ≡ (export_progress t.watched (stored_of t) remote).0)
      × (w.status ≡ want_status t)
      × (w.want_score ≡ want_score t)

  Sent-new : (w : AnilistExportWrite) → decide_anilist t none ≡ some w → Sent 0 w
  unfolding decide_anilist anilist_write
  Sent-new w h = ground (arith, h)

  Sent-changed :
      (cur : ListState) (w : AnilistExportWrite)
      → decide_anilist t (some cur) ≡ some w
      → Sent cur.progress w
  unfolding decide_anilist anilist_write
  Sent-changed cur w h = ground (arith, h)

  unfoldable pub Settled : ℕ → Type 0
  Settled n =
      ((export_progress t.watched (stored_of t) n).1 ≡ false)
      ⊎ ((export_progress t.watched (stored_of t) n).0 ≡ n)

  pub settled :
      (remote n : ℕ)
      → IsValid t.watched
      → n ≡ (export_progress t.watched (stored_of t) remote).0
      → Settled n
  unfolding Settled
  settled remote n v e =
      subst Settled (sym e) (export_progress_settles t.watched (stored_of t) remote v.real)

  matches :
      (after : ListState) (target : ℕ × Bool)
      → (target.1 ≡ false) ⊎ (target.0 ≡ after.progress)
      → text_eq after.status (want_status t) ≡ true
      → (want_score t ≡ 0) ⊎ (after.score ≡ want_score t)
      → anilist_same t after target ≡ true
  unfolding anilist_same
  matches after target p s c = ground (arith, p, s, c)

  skipped :
      (after : ListState)
      → Settled after.progress
      → text_eq after.status (want_status t) ≡ true
      → (want_score t ≡ 0) ⊎ (after.score ≡ want_score t)
      → decide_anilist t (some after) ≡ none
  unfolding Settled decide_anilist
  skipped after p s c =
      ground (arith, matches after (export_progress t.watched (stored_of t) after.progress) p s c)

  Sent-settles :
      (remote : ℕ) (after : ListState) (w : AnilistExportWrite)
      → IsValid t.watched
      → Sent remote w
      → after.status ≡ w.status
      → after.progress ≡ w.progress
      → (w.want_score ≡ 0) ⊎ (after.score ≡ w.want_score)
      → decide_anilist t (some after) ≡ none
  Sent-settles remote after w v h s p c =
      skipped after (settled remote after.progress v (p ∙ h.0))
        ((text_eq_iff after.status (want_status t)).1 (s ∙ h.1)) (ground (arith, h.2, c))

  -- An export to AniList settles: for a title whose watch state is valid, where AniList stores the
  -- status, the count and the score that it is sent, the next export of the title skips it.
  pub decide_anilist_settles :
      (before : Option ListState) (after : ListState) (w : AnilistExportWrite)
      → IsValid t.watched
      → decide_anilist t before ≡ some w
      → after.status ≡ w.status
      → after.progress ≡ w.progress
      → (w.want_score ≡ 0) ⊎ (after.score ≡ w.want_score)
      → decide_anilist t (some after) ≡ none
  decide_anilist_settles none after w v h s p c = Sent-settles 0 after w v (Sent-new w h) s p c
  decide_anilist_settles (some cur) after w v h s p c =
      Sent-settles cur.progress after w v (Sent-changed cur w h) s p c

  alone :
      (status : Text) (progress : ℕ)
      → t.stored ≡ none
      → t.watched.max_row ≡ 0
      → (leaves_alone t status progress ≡ true)
        ⊎ ((status ≡ list_current) × (progress ≡ 0) × (want_status t ≡ list_planning))
  unfolding leaves_alone has_stored no_evidence_planning_fix
  alone status progress s m =
      ground
        (arith, s, m, text_eq_iff status list_current, text_eq_iff (want_status t) list_planning)

  -- An export to AniList raises a count that AniList has to nothing but the newest episode that the
  -- player saw finished.
  pub decide_anilist-raises :
      (cur : ListState) (w : AnilistExportWrite)
      → decide_anilist t (some cur) ≡ some w
      → (w.progress ≤ cur.progress) ⊎ (w.progress ≡ t.watched.real_episode)
  decide_anilist-raises cur w h =
      ground (
        arith,
        (Sent-changed cur w h).0,
        export_progress-raises t.watched (stored_of t) cur.progress,
      )

  -- Where this side has no evidence of a title, neither a row nor a stored status, an export writes
  -- over nothing that a provider has, but for one shape: being watched with no episodes, which
  -- becomes planned.
  pub unseen_left_alone :
      (lower_other : ℕ → ℕ) (cur : ListState)
      → t.stored ≡ none
      → t.watched.max_row ≡ 0
      → ((decide_anilist t (some cur) ≡ none)
          ⊎ ((cur.status ≡ list_current) × (cur.progress ≡ 0) × (want_status t ≡ list_planning)))
        × ((decide_mal lower_other t (some cur) ≡ none)
            ⊎ ((normalize_mal_status lower_other cur.status ≡ list_current)
                × (cur.progress ≡ 0)
                × (want_status t ≡ list_planning)))
  unfolding decide_anilist decide_mal
  unseen_left_alone lower_other cur s m = (
    ground (arith, alone cur.status cur.progress s m),
    ground (arith, alone (normalize_mal_status lower_other cur.status) cur.progress s m),
  )
