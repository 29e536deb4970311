-- ===== src/Import/Entries.antt =====
-- The entries of a provider's list in `runProviderImport`, one for each title. An id or a count that is not
-- positive is 0.
pub mod Best
use aniraku_backend.Base.{
  ltb, ◌==◌, bool_eq, if◌then◌else◌, Text, text_eq, ℕ, Bool, not, ◌&&◌, ◌||◌, Option, none, some,
  List, [], ◌∷◌,
}
use aniraku_backend.Export.Status.{list_current, list_completed, is_canonical_status}

pub record ProviderEntry : Type 0 where
  pub anime_id : ℕ
  pub progress : ℕ
  pub score : ℕ
  pub status : Text
  pub total : ℕ

unfoldable pub is_completed : ProviderEntry → Bool
unfolding text_eq
is_completed e = text_eq e.status list_completed

-- `rank(e)` is above `rank(cur)`.
unfoldable pub outranks : ProviderEntry → ProviderEntry → Bool
unfolding is_completed
outranks e cur =
    ltb cur.progress e.progress
    || (e.progress == cur.progress
        && ((is_completed e && not (is_completed cur))
            || (bool_eq (is_completed e) (is_completed cur) && ltb cur.score e.score)))

-- An entry with a status that is none of the six counts as being watched.
unfoldable pub normalized : ProviderEntry → ProviderEntry
unfolding is_canonical_status
normalized e = if is_canonical_status e.status then e else record e { status = list_current }

-- A turn of the loop on the map `best`, which holds one entry for each id.
unfoldable pub keep_better : ProviderEntry → List ProviderEntry → List ProviderEntry
unfolding outranks
keep_better e [] = e ∷ []
keep_better e (cur ∷ best) =
    let rest = keep_better e best in
    if cur.anime_id == e.anime_id
    then (if outranks e cur then e ∷ best else cur ∷ best)
    else cur ∷ rest

unfoldable pub best_from : List ProviderEntry → List ProviderEntry → List ProviderEntry
unfolding keep_better normalized
best_from best [] = best
best_from best (e ∷ entries) =
    best_from (if e.anime_id == 0 then best else keep_better (normalized e) best) entries

unfoldable pub best_entries : List ProviderEntry → List ProviderEntry
unfolding best_from
best_entries entries = best_from [] entries

-- `best[id]`
unfoldable pub entry_of : ℕ → List ProviderEntry → Option ProviderEntry
entry_of id [] = none
entry_of id (e ∷ best) = let rest = entry_of id best in if e.anime_id == id then some e else rest
