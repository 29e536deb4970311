-- ===== src/Import/Run/Rows.antt =====
-- The rows that an import writes.
use aniraku_backend.Base.{length, All, ℕ, suc, ◌≤◌, ◌<◌, ◌≡◌, ◌⊎◌, true, some, List}
use aniraku_backend.Export.Watch.{WatchProgress}
use mathlib.Core.List.{Mem}
use aniraku_backend.Import.Entries.{ProviderEntry, is_completed}
use aniraku_backend.Import.Services.{WatchRow, Services, import_max_watch_rows, Progress}

-- Rows of the episodes from `ep` on, `left` of them.
abbrev Between : ℕ → ℕ → WatchRow → Type 0
Between low high r = (low < r.episode) × (r.episode ≤ high)

module _ (s : Services) where
  -- The service took back rows past a count that is below the title's last row and not below the episode,
  -- and the last row that is left then is below the episode.
  abbrev pub Trimmed : ℕ → ℕ → ℕ → Type 0
  Trimmed id max_row ep =
      (count : ℕ) × (n : ℕ) × (row : ℕ) × (count < max_row)
      × (ep ≤ count)
      × (s.trim id count ≡ some (suc n))
      × (s.max_episode id ≡ some row)
      × (row < ep)

  -- Within the provider's progress, or within the title's episodes where the provider calls it completed and
  -- gives no progress.
  abbrev pub Counted : ProviderEntry → ℕ → Type 0
  Counted e ep =
      (ep ≤ e.progress)
      ⊎ (is_completed e ≡ true)
        × (e.progress ≡ 0)
        × ((ep ≤ e.total) ⊎ (e.total ≡ 0) × (ep ≤ (s.meta e.anime_id).episodes))

  -- Within the totals that are known, AniList's only where the progress is not past the provider's.
  abbrev pub Capped : ProviderEntry → ℕ → Type 0
  Capped e ep =
      ((e.total ≡ 0) ⊎ (ep ≤ e.total))
      × ((e.total < e.progress)
          ⊎ ((s.meta e.anime_id).episodes ≡ 0)
          ⊎ (ep ≤ (s.meta e.anime_id).episodes))

  -- A row of the title of an entry of the list.
  pub record Appends (best : List ProviderEntry) (watch : ℕ → WatchProgress) (r : WatchRow)
      (e : ProviderEntry) : Type 0 where
    pub listed : Mem e best
    pub title : r.anime_id ≡ e.anime_id
    pub past_last :
        ((watch e.anime_id).max_row < r.episode)
        ⊎ Trimmed e.anime_id (watch e.anime_id).max_row r.episode
    pub counted : Counted e r.episode
    pub within_totals : Capped e r.episode

  abbrev pub Merged : List ProviderEntry → WatchRow → Type 0
  Merged best r =
      (watch : ℕ → WatchProgress) × (s.watch ≡ some watch)
      × ((e : ProviderEntry) × Appends best watch r e)

  abbrev Bounded : List ProviderEntry → Progress → Type 0
  Bounded best p = All (Merged best) p.watch_rows × (length p.watch_rows ≤ import_max_watch_rows)
