-- ===== src/Export/Watch.antt =====
-- The fold of watch history in internal/api/v1/importexport.go. A float of seconds is read as an exact
-- number of milliseconds; an id or an episode that is not positive is 0.
use aniraku_backend.Base.{
  ltb, leb, ◌==◌, if◌then◌else◌, ℕ, ◌*◌, ◌/◌, ◌≤◌, ◌≡◌, refl, ap, ◌∙◌, ◌≢◌, ◌⊎◌, Bool, false, not,
  ◌&&◌, ◌||◌, List, [], ◌∷◌, arith,
}

pub record WatchProgress : Type 0 where
  pub episode : ℕ
  pub progress : ℕ
  pub completed : Bool
  pub max_row : ℕ
  pub real_episode : ℕ

pub record WatchHistoryRow : Type 0 where
  pub anime_id : ℕ
  pub episode : ℕ
  pub progress : ℕ
  pub duration : ℕ

-- The zero value, which the map gives for a title with no rows.
abbrev pub unseen : WatchProgress
unseen = record { episode = 0; progress = 0; completed = false; max_row = 0; real_episode = 0 }

abbrev pub full_episode : ℕ
full_episode = 1440 * 1000

unfoldable pub finished : WatchHistoryRow → Bool
finished row = ltb 0 row.duration && leb (row.duration * 95) (row.progress * 100)

unfoldable pub synthetic : WatchHistoryRow → Bool
synthetic row = row.progress == full_episode && row.duration == full_episode

-- What a row does to the state of its title.
unfoldable pub fold_row : WatchHistoryRow → WatchProgress → WatchProgress
unfolding finished synthetic
fold_row row st = record {
  episode = if finished row && ltb st.episode row.episode then row.episode else st.episode;
  progress = if ltb st.max_row row.episode then row.progress / 1000 else st.progress;
  completed = if ltb st.max_row row.episode then finished row else st.completed;
  max_row = if ltb st.max_row row.episode then row.episode else st.max_row;
  real_episode =
      if finished row && not (synthetic row) && ltb st.real_episode row.episode
      then row.episode
      else st.real_episode;
}

unfoldable pub fold_watch_row : WatchHistoryRow → (ℕ → WatchProgress) → ℕ → WatchProgress
unfolding fold_row
fold_watch_row row acc id =
    if row.anime_id == 0 || row.episode == 0
    then acc id
    else if id == row.anime_id
    then fold_row row (acc id)
    else acc id

unfoldable pub fold_watch_rows : (ℕ → WatchProgress) → List WatchHistoryRow → ℕ → WatchProgress
unfolding fold_watch_row
fold_watch_rows acc [] = acc
fold_watch_rows acc (row ∷ rows) = fold_watch_rows (fold_watch_row row acc) rows

highest_comm :
    (p q : Bool) (a b x : ℕ)
    → (if p && ltb (if q && ltb x b then b else x) a then a else if q && ltb x b then b else x)
      ≡ (if q && ltb (if p && ltb x a then a else x) b then b else if p && ltb x a then a else x)
highest_comm p q a b x = ground arith

real_comm :
    (p r q s : Bool) (a b x : ℕ)
    → (if p && r && ltb (if q && s && ltb x b then b else x) a
        then a
        else if q && s && ltb x b
        then b
        else x)
      ≡ (if q && s && ltb (if p && r && ltb x a then a else x) b
          then b
          else if p && r && ltb x a
          then a
          else x)
real_comm p r q s a b x = ground arith

-- The state of the newest of two different episodes.
newest_comm :
    {A : Type 0} (u v w : A) (a b m : ℕ)
    → a ≢ b
    → (if ltb (if ltb m b then b else m) a then u else if ltb m b then v else w)
      ≡ (if ltb (if ltb m a then a else m) b then v else if ltb m a then u else w)
newest_comm u v w a b m ne = ground arith

max_comm :
    (a b m : ℕ)
    → (if ltb (if ltb m b then b else m) a then a else if ltb m b then b else m)
      ≡ (if ltb (if ltb m a then a else m) b then b else if ltb m a then a else m)
max_comm a b m = ground arith

fold_row_comm :
    (a b : WatchHistoryRow) (st : WatchProgress)
    → a.episode ≢ b.episode
    → fold_row a (fold_row b st) ≡ fold_row b (fold_row a st)
unfolding fold_row
fold_row_comm a b st ne = λ i. record {
  episode = highest_comm (finished a) (finished b) a.episode b.episode st.episode i;
  progress =
      newest_comm (a.progress / 1000) (b.progress / 1000) st.progress a.episode b.episode st.max_row
        ne i;
  completed =
      newest_comm (finished a) (finished b) st.completed a.episode b.episode st.max_row ne i;
  max_row = max_comm a.episode b.episode st.max_row i;
  real_episode =
      real_comm (finished a) (not (synthetic a)) (finished b) (not (synthetic b)) a.episode
        b.episode st.real_episode i;
}

-- What is true of a title's state after any rows.
pub record IsValid (st : WatchProgress) : Type 0 where
  pub real : st.real_episode ≤ st.episode
  pub present : st.episode ≤ st.max_row

fold_row-IsValid :
    (row : WatchHistoryRow) (st : WatchProgress) → IsValid st → IsValid (fold_row row st)
unfolding fold_row
fold_row-IsValid row st v = record {
  real = ground (arith, v.real);
  present = ground (arith, v.present);
}

-- Two lists of rows that differ in order only, no two rows that change places being of one episode.
pub data Reordered : List WatchHistoryRow → List WatchHistoryRow → Type 0 where
  unmoved : (rows : List WatchHistoryRow) → Reordered rows rows
  below :
      (row : WatchHistoryRow) (rows rows' : List WatchHistoryRow)
      → Reordered rows rows'
      → Reordered (row ∷ rows) (row ∷ rows')
  swapped :
      (a b : WatchHistoryRow) (rows : List WatchHistoryRow)
      → (a.anime_id ≢ b.anime_id) ⊎ (a.episode ≢ b.episode)
      → Reordered (a ∷ b ∷ rows) (b ∷ a ∷ rows)
  chained :
      (rows rows' later : List WatchHistoryRow)
      → Reordered rows rows'
      → Reordered rows' later
      → Reordered rows later

fold_watch_row_comm :
    (a b : WatchHistoryRow) (acc : ℕ → WatchProgress) (id : ℕ)
    → (a.anime_id ≢ b.anime_id) ⊎ (a.episode ≢ b.episode)
    → fold_watch_row b (fold_watch_row a acc) id ≡ fold_watch_row a (fold_watch_row b acc) id
unfolding fold_watch_row
fold_watch_row_comm a b acc id d = ground (arith, d, fold_row_comm a b (acc id))

fold_watch_rows-ext :
    (rows : List WatchHistoryRow) (acc acc' : ℕ → WatchProgress)
    → ((id : ℕ) → acc id ≡ acc' id)
    → (id : ℕ) → fold_watch_rows acc rows id ≡ fold_watch_rows acc' rows id
unfolding fold_watch_rows fold_watch_row
fold_watch_rows-ext [] acc acc' h id = h id
fold_watch_rows-ext (row ∷ rows) acc acc' h id =
    fold_watch_rows-ext rows (fold_watch_row row acc) (fold_watch_row row acc') (step row) id
  where
    step : (row : WatchHistoryRow) (k : ℕ) → fold_watch_row row acc k ≡ fold_watch_row row acc' k
    step row k =
        ap
          (λ (f : WatchProgress).
            if row.anime_id == 0 || row.episode == 0
            then f
            else if k == row.anime_id
            then fold_row row f
            else f)
          (h k)

-- Row order does not matter: where no two rows that change places are of one episode of one title,
-- every title ends in the same state.
pub fold_watch_rows-Reordered :
    (rows rows' : List WatchHistoryRow) (acc : ℕ → WatchProgress) (id : ℕ)
    → Reordered rows rows'
    → fold_watch_rows acc rows id ≡ fold_watch_rows acc rows' id
unfolding fold_watch_rows
fold_watch_rows-Reordered _ _ acc id (unmoved rows) = refl
fold_watch_rows-Reordered _ _ acc id (below row rows rows' r) =
    fold_watch_rows-Reordered rows rows' (fold_watch_row row acc) id r
fold_watch_rows-Reordered _ _ acc id (swapped a b rows d) =
    fold_watch_rows-ext rows _ _ (λ k. fold_watch_row_comm a b acc k d) id
fold_watch_rows-Reordered _ _ acc id (chained rows rows' later r q) =
    fold_watch_rows-Reordered rows rows' acc id r ∙ fold_watch_rows-Reordered rows' later acc id q

-- Where it was so before, after any rows no title counts a finished episode past its newest row, or
-- an episode that the player saw finished past its newest finished one.
pub fold_watch_rows-IsValid :
    (rows : List WatchHistoryRow) (acc : ℕ → WatchProgress)
    → ((id : ℕ) → IsValid (acc id))
    → (id : ℕ) → IsValid (fold_watch_rows acc rows id)
unfolding fold_watch_rows fold_watch_row
fold_watch_rows-IsValid [] acc h id = h id
fold_watch_rows-IsValid (row ∷ rows) acc h id =
    fold_watch_rows-IsValid rows (fold_watch_row row acc) (step row) id
  where
    step : (row : WatchHistoryRow) (k : ℕ) → IsValid (fold_watch_row row acc k)
    step row k = ground (arith, h k, fold_row-IsValid row (acc k) (h k))
