-- ===== src/Import/Services.antt =====
-- What `runProviderImport` of internal/api/v1/importexport.go writes, what it asks of Supabase and AniList, and the parts of a
-- title that hang on no other. Times are milliseconds. Columns that are constant or name the user are left out.
use aniraku_backend.Base.{
  ltb, ◌==◌, if◌then◌else◌, All, Text, codes, text_eq, decimal, ℕ, zero, suc, ◌+◌, Bool, true,
  false, not, ◌&&◌, Option, none, some, List, [], ◌∷◌, ◌++◌,
}
use aniraku_backend.Export.Status.{is_canonical_status}
use mathlib.Core.List.{Perm, Mem, mem-cons_self, mem-cons_of_mem}
use mathlib.Core.List.Perm
use aniraku_backend.Export.Watch.{WatchProgress}
use aniraku_backend.Import.Entries.{ProviderEntry, is_completed}

pub record MediaMeta : Type 0 where
  pub title : Text
  pub image : Text
  pub episodes : ℕ

pub record WatchRow : Type 0 where
  pub anime_id : ℕ
  pub title : Text
  pub image : Text
  pub episode : ℕ
  pub timestamp : ℕ

pub record RatingRow : Type 0 where
  pub anime_id : ℕ
  pub episode : ℕ
  pub score : ℕ

pub record StatusUpdate : Type 0 where
  pub anime_id : ℕ
  pub status : Text
  pub total_episodes : ℕ

-- An order in which Go goes over the map `best`: each of its entries once.
pub record Order : Type 0 where
  pub visit : List ProviderEntry → List ProviderEntry
  pub same : (best : List ProviderEntry) → Perm best (visit best)

-- `none` is an error. `fresh` are the ids that were inserted with the provider's status; `stored` is the status
-- column of the bookmarks, of which at most 2000 are read; `posts` is whether the n-th batch of updates is
-- taken; `trim` is how many synthesized rows past the count are deleted. `status_order` and `title_order` are
-- the orders of the loops over the statuses and over the titles; the loop before them collects the ids and
-- counts the statuses, which its order does not change.
pub record Services : Type 0 where
  pub imported : ℕ
  pub already : ℕ
  pub fresh : ℕ → Bool
  pub meta : ℕ → MediaMeta
  pub watch : Option (ℕ → WatchProgress)
  pub rated : Option (ℕ → Bool)
  pub stored : Option (ℕ → Option Text)
  pub posts : ℕ → Bool
  pub trim : ℕ → ℕ → Option ℕ
  pub max_episode : ℕ → Option ℕ
  pub history_taken : Bool
  pub ratings_taken : Bool
  pub now : ℕ
  pub status_order : Order
  pub title_order : Order

abbrev pub import_batch_size : ℕ
import_batch_size = 200

abbrev pub import_max_watch_rows : ℕ
import_max_watch_rows = 8000

abbrev pub hour : ℕ
hour = 3600000

-- The count to reach, within the totals that are known.
unfoldable pub wanted : MediaMeta → ProviderEntry → ℕ
unfolding is_completed
wanted m e =
    let want =
      if is_completed e && e.progress == 0
      then (if ltb 0 e.total then e.total else m.episodes)
      else e.progress in
    if ltb 0 e.total && ltb e.total want
    then e.total
    else if ltb 0 m.episodes && ltb m.episodes want
    then m.episodes
    else want

-- The last row of a title, after the rows that an earlier import synthesized past the count are trimmed, and
-- how many went.
unfoldable pub reconcile : Services → ℕ → ℕ → ℕ → ℕ × ℕ
reconcile s id max_row want =
    if not (ltb want max_row) then (max_row, 0) else elim (s.trim id want) [
      | none ↦ (max_row, 0)
      | some zero ↦ (max_row, 0)
      | some (suc n) ↦ elim (s.max_episode id) [ none ↦ (max_row, suc n) | some row ↦ (row, suc n) ]
    ]

-- The title that a row shows; `decimal` writes the id of one that has none.
unfoldable pub shown_title : ℕ → MediaMeta → Text
unfolding text_eq decimal
shown_title id m = if text_eq m.title [] then codes "Anime " ++ decimal id else m.title

-- `for ep := from; ep <= want; ep++`, by the turns left and the room left: the rows, and whether the room
-- ran out.
unfoldable pub synthesize : (ℕ → WatchRow) → ℕ → ℕ → ℕ → List WatchRow × Bool
synthesize row zero ep room = ([], false)
synthesize row (suc left) ep zero = ([], true)
synthesize row (suc left) ep (suc room) =
    let (rows, full) = synthesize row left (ep + 1) room in (row ep ∷ rows, full)

-- `rated`, or an empty map where the ratings could not be read.
abbrev pub rated_before : Option (ℕ → Bool) → ℕ → Bool
rated_before none id = false
rated_before (some rated) id = rated id

-- `loadUserBookmarkStatus`: the status of a title, where it is one of the six; no title has one where the
-- bookmarks could not be read.
unfoldable pub stored_before : Option (ℕ → Option Text) → ℕ → Option Text
unfolding is_canonical_status
stored_before none id = none
stored_before (some stored) id = elim (stored id) [
  | none ↦ none
  | some status ↦ if is_canonical_status status then some status else none
]

-- The variables of the loop over the titles.
pub record Progress : Type 0 where
  pub watch_rows : List WatchRow
  pub rating_rows : List RatingRow
  pub rated : ℕ → Bool
  pub trimmed : ℕ
  pub limited : Bool

members :
    (best es : List ProviderEntry)
    → ((e : ProviderEntry) → Mem e es → Mem e best)
    → All (λ (e : ProviderEntry). Mem e best) es
members best [] h = tt
members best (e ∷ es) h =
    (h e (mem-cons_self), members best es (λ x there. h x (mem-cons_of_mem e there)))

-- Every entry that a loop visits is one of the map.
pub visited :
    (o : Order) (best : List ProviderEntry) → All (λ (e : ProviderEntry). Mem e best) (o.visit best)
visited o best = members best (o.visit best) (λ e there. (Perm.mem_iff (o.same best)).1 there)
