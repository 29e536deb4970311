-- ===== src/Export/Decision.antt =====
-- What the exports of internal/api/v1/importexport.go decide for one title: `ExportMAL` and phase 1 of
-- `ExportAniList`. An absent entry of a map of numbers is its zero value.
pub mod Laws
pub mod Mal
use aniraku_backend.Base.{
  ltb, leb, ◌==◌, if◌then◌else◌, Text, text_eq, ℕ, Bool, true, false, not, ◌&&◌, ◌||◌, Option, none,
  some, [],
}
use aniraku_backend.Export.Status.{
  list_current, list_planning, list_completed, list_repeating, is_canonical_status,
  normalize_mal_status, status_for_mal,
}
use aniraku_backend.Export.Watch.{WatchProgress}

-- What the export knows of a title on this side.
pub record Title : Type 0 where
  pub watched : WatchProgress
  pub episodes : ℕ
  pub ended : Bool
  pub bookmark_total : ℕ
  pub stored : Option Text
  pub score : ℕ

-- A provider's entry: `anilistListState` and `malListState`.
pub record ListState : Type 0 where
  pub status : Text
  pub progress : ℕ
  pub score : ℕ

unfoldable pub export_completed : WatchProgress → ℕ → Bool → Bool
export_completed state total series_finished =
    if ltb 0 total
    then leb total state.episode
    else series_finished && state.completed && ltb 0 state.episode

unfoldable pub no_evidence_planning_fix : Text → ℕ → Text → Bool
no_evidence_planning_fix remote_status remote_progress want =
    text_eq remote_status list_current && remote_progress == 0 && text_eq want list_planning

-- The count to write, and whether to write it.
unfoldable pub export_progress : WatchProgress → Text → ℕ → ℕ × Bool
export_progress state stored remote =
    if text_eq stored list_planning
    then (0, true)
    else if state.max_row == 0 || state.episode == 0
    then (remote, false)
    else if ltb remote state.episode
    then (if ltb remote state.real_episode then (state.real_episode, true) else (remote, false))
    else (state.episode, true)

unfoldable pub want_export_status : Text → WatchProgress → Bool → Text
unfolding is_canonical_status
want_export_status stored state done =
    if is_canonical_status stored
    then stored
    else if done
    then list_completed
    else if ltb 0 state.max_row
    then list_current
    else list_planning

-- `stored, hasStored := bookmarkStatus[id]`
unfoldable pub stored_of : Title → Text
stored_of t = elim t.stored [ none ↦ [] | some s ↦ s ]

unfoldable pub has_stored : Title → Bool
has_stored t = elim t.stored [ none ↦ false | some s ↦ true ]

-- The status that an export wants for a title.
unfoldable pub want_status : Title → Text
unfolding export_completed want_export_status stored_of
want_status t =
    let total = if t.episodes == 0 then t.bookmark_total else t.episodes in
    want_export_status (stored_of t) t.watched (export_completed t.watched total t.ended)

unfoldable pub want_score : Title → ℕ
want_score t = if ltb t.score 1 || ltb 10 t.score then 0 else t.score

-- The two guards on a title that the provider has, and that this side has no evidence of.
unfoldable pub leaves_alone : Title → Text → ℕ → Bool
unfolding want_status has_stored no_evidence_planning_fix
leaves_alone t remote_status remote_progress =
    (text_eq remote_status list_completed
      && not (text_eq (want_status t) list_completed)
      && t.watched.max_row == 0)
    || (not (has_stored t)
        && t.watched.max_row == 0
        && not (no_evidence_planning_fix remote_status remote_progress (want_status t)))

pub record AnilistExportWrite : Type 0 where
  pub progress : ℕ
  pub status : Text
  pub want_score : ℕ

unfoldable pub anilist_write : Title → ℕ × Bool → AnilistExportWrite
unfolding want_status want_score
anilist_write t target = record {
  progress = target.0;
  status = want_status t;
  want_score = want_score t;
}

-- The exact-match skip of `ExportAniList`.
unfoldable pub anilist_same : Title → ListState → ℕ × Bool → Bool
unfolding want_status want_score
anilist_same t cur target =
    (not target.1 || cur.progress == target.0)
    && text_eq cur.status (want_status t)
    && (want_score t == 0 || cur.score == want_score t)

-- `none` is a skipped title.
unfoldable pub decide_anilist : Title → Option ListState → Option AnilistExportWrite
unfolding export_progress leaves_alone stored_of anilist_write anilist_same
decide_anilist t none = some (anilist_write t (export_progress t.watched (stored_of t) 0))
decide_anilist t (some cur) =
    let target = export_progress t.watched (stored_of t) cur.progress in
    if leaves_alone t cur.status cur.progress || anilist_same t cur target
    then none
    else some (anilist_write t target)

-- The form of the request; a field that is not set is `none`.
pub record MalForm : Type 0 where
  pub num_watched_episodes : Option ℕ
  pub status : Text
  pub score : Option ℕ

unfoldable pub mal_form : Title → ℕ × Bool → MalForm
unfolding want_status want_score
mal_form t target = record {
  num_watched_episodes = if target.1 then some target.0 else none;
  status = status_for_mal (want_status t);
  score = if leb 1 (want_score t) && leb (want_score t) 10 then some (want_score t) else none;
}

-- The exact-match skip of `ExportMAL`, for the remote status as it is read.
unfoldable pub mal_same : Title → Text → ListState → ℕ × Bool → Bool
unfolding want_status want_score
mal_same t remote_status rem target =
    let want = want_status t in
    (text_eq remote_status want
      || (text_eq want list_repeating && text_eq remote_status list_current))
    && (not target.1 || rem.progress == target.0)
    && (want_score t == 0 || rem.score == want_score t)

unfoldable pub decide_mal : (ℕ → ℕ) → Title → Option ListState → Option MalForm
unfolding export_progress mal_form leaves_alone normalize_mal_status stored_of mal_same
decide_mal lower_other t none = some (mal_form t (export_progress t.watched (stored_of t) 0))
decide_mal lower_other t (some rem) =
    let remote_status = normalize_mal_status lower_other rem.status in
    let target = export_progress t.watched (stored_of t) rem.progress in
    if leaves_alone t remote_status rem.progress || mal_same t remote_status rem target
    then none
    else some (mal_form t target)
