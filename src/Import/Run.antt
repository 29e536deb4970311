-- ===== src/Import/Run.antt =====
-- `runProviderImport` of internal/api/v1/importexport.go, after the entries are one for each title. What Supabase
-- and AniList answer is a parameter; times are milliseconds.
pub mod Rows
pub mod Scores
pub mod Updates
use aniraku_backend.Import.Services.{
  MediaMeta, WatchRow, RatingRow, StatusUpdate, Services, import_batch_size, import_max_watch_rows,
  hour, wanted, reconcile, shown_title, synthesize, rated_before, stored_before, Progress,
}
use aniraku_backend.Base.{
  leb, ◌==◌, if◌then◌else◌, length, take, drop, Text, text_eq, ℕ, zero, suc, ◌+◌, ◌-◌, ◌*◌, Bool,
  true, false, not, ◌&&◌, ◌||◌, Option, none, some, List, [], ◌∷◌, ◌++◌,
}
use aniraku_backend.Export.Watch.{WatchProgress}
use aniraku_backend.Import.Entries.{ProviderEntry, best_entries}

module _ (s : Services) where
  unfoldable pub watch_row : MediaMeta → ProviderEntry → ℕ → ℕ → WatchRow
  unfolding shown_title
  watch_row m e want ep = record {
    anime_id = e.anime_id;
    title = shown_title e.anime_id m;
    image = m.image;
    episode = ep;
    timestamp = s.now - (want - ep + 1) * hour;
  }

  -- The rows of a title, where the history could be read and the room has not run out.
  unfoldable pub add_rows : (ℕ → WatchProgress) → ProviderEntry → Progress → Progress
  unfolding wanted reconcile synthesize watch_row
  add_rows watch e p =
      let m = s.meta e.anime_id in
      let want = wanted m e in
      let (max_row, trimmed) = reconcile s e.anime_id (watch e.anime_id).max_row want in
      let (rows, full) =
        synthesize (watch_row m e want) (want - max_row) (max_row + 1)
          (import_max_watch_rows - length p.watch_rows) in
      record p { watch_rows = p.watch_rows ++ rows; trimmed = p.trimmed + trimmed; limited = full }

  unfoldable pub add_score : ProviderEntry → Progress → Progress
  unfolding wanted
  add_score e p =
      let want = wanted (s.meta e.anime_id) e in
      if leb 1 e.score && leb e.score 10 && not (p.rated e.anime_id)
      then record p {
        rated = λ id. id == e.anime_id || p.rated id;
        rating_rows =
            p.rating_rows
            ++ record {
              anime_id = e.anime_id;
              episode = if want == 0 then 1 else want;
              score = e.score;
            }
              ∷ [];
      }
      else p

  -- A turn of the loop: progress where the history could be read and the room has not run out, and a score
  -- where the ratings could be read.
  unfoldable pub rows_of : Option (ℕ → WatchProgress) → ProviderEntry → Progress → Progress
  unfolding add_rows
  rows_of none e p = p
  rows_of (some watch) e p = if p.limited then p else add_rows watch e p

  unfoldable pub scores_of : Option (ℕ → Bool) → ProviderEntry → Progress → Progress
  unfolding add_score
  scores_of none e p = p
  scores_of (some rated) e p = add_score e p

  unfoldable pub import_title : ProviderEntry → Progress → Progress
  unfolding rows_of scores_of
  import_title e p = scores_of s.rated e (rows_of s.watch e p)

  unfoldable pub import_titles : List ProviderEntry → Progress → Progress
  unfolding import_title
  import_titles [] p = p
  import_titles (e ∷ best) p = import_titles best (import_title e p)

  -- Whether a stored status is written over: it is missing, or there is no progress here.
  unfoldable pub updates_status : ProviderEntry → Bool
  unfolding text_eq stored_before
  updates_status e =
      if s.fresh e.anime_id then false else elim (stored_before s.stored e.anime_id) [
        | none ↦ true
        | some cur ↦
            if text_eq cur e.status
            then false
            else elim s.watch [ none ↦ false | some watch ↦ (watch e.anime_id).max_row == 0 ]
      ]

  unfoldable pub status_updates : List ProviderEntry → List StatusUpdate
  unfolding updates_status
  status_updates [] = []
  status_updates (e ∷ best) =
      let rest = status_updates best in
      if updates_status e
      then record {
        anime_id = e.anime_id;
        status = e.status;
        total_episodes = (s.meta e.anime_id).episodes;
      }
        ∷ rest
      else rest

  -- The batches, up to the first that is not taken, by the batches left: the updates that were written.
  unfoldable pub post_updates : ℕ → ℕ → List StatusUpdate → List StatusUpdate
  post_updates zero n updates = []
  post_updates (suc left) n updates =
      let rest = post_updates left (n + 1) (drop import_batch_size updates) in
      if length updates == 0
      then []
      else if s.posts n
      then take import_batch_size updates ++ rest
      else []

  pub record Outcome : Type 0 where
    pub imported : ℕ
    pub already : ℕ
    pub statuses : Text → ℕ
    pub episodes_added : ℕ
    pub scores_added : ℕ
    pub statuses_updated : ℕ
    pub rows_trimmed : ℕ
    pub rows_limited : Bool
    -- What is sent to the database, and the updates that it took.
    pub history : List WatchRow
    pub ratings : List RatingRow
    pub updates : List StatusUpdate

  -- `statuses[status]`
  unfoldable pub status_count : Text → List ProviderEntry → ℕ
  unfolding text_eq
  status_count status [] = 0
  status_count status (e ∷ best) =
      let rest = status_count status best in if text_eq e.status status then rest + 1 else rest

  unfoldable pub start : Progress
  start = record {
    watch_rows = [];
    rating_rows = [];
    rated = rated_before s.rated;
    trimmed = 0;
    limited = false;
  }

  unfoldable pub run_provider_import : List ProviderEntry → Outcome
  unfolding best_entries import_titles status_updates post_updates start status_count
  run_provider_import entries =
      let best = best_entries entries in
      let updates = status_updates (s.status_order.visit best) in
      let written = post_updates (length updates) 0 updates in
      let p = import_titles (s.title_order.visit best) start in
      record {
        imported = s.imported;
        already = s.already;
        statuses = λ status. status_count status best;
        episodes_added = if s.history_taken then length p.watch_rows else 0;
        scores_added = if s.ratings_taken then length p.rating_rows else 0;
        statuses_updated = length written;
        rows_trimmed = p.trimmed;
        rows_limited = p.limited;
        history = p.watch_rows;
        ratings = p.rating_rows;
        updates = written;
      }
