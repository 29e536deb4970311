-- ===== src/Import/Tests.antt =====
-- Runs of an import.
use aniraku_backend.Import.Run.Updates.{Overwritable, updates-Overwritable}
use aniraku_backend.Import.Services.{Order, Services, hour}
use aniraku_backend.Import.Run.{run_provider_import}
use aniraku_backend.Import.Run.Scores.{Once, Fits, ratings-Fits}
use aniraku_backend.Import.Entries.{ProviderEntry, best_entries}
use mathlib.Core.List.Perm
use aniraku_backend.Base.{All, codes, ◌*◌, true, false, none, some, List, [], ◌∷◌}

abbrev seen_three : ProviderEntry
seen_three = record { anime_id = 21; progress = 3; score = 8; status = codes "CURRENT"; total = 12 }

abbrev seen_five : ProviderEntry
seen_five = record seen_three { progress = 5; score = 0; status = codes "watching" }

abbrev entries : List ProviderEntry
entries = seen_three ∷ seen_five ∷ []

abbrev in_turn : Order
in_turn = record { visit = λ best. best; same = Perm.refl }

-- One row of the title is there, and no rating.
abbrev services : Services
services = record {
  imported = 1;
  already = 0;
  fresh = λ id. false;
  meta = λ id. record { title = []; image = []; episodes = 12 };
  watch =
      some (λ id. record {
        episode = 1;
        progress = 0;
        completed = true;
        max_row = 1;
        real_episode = 1;
      });
  rated = some (λ id. false);
  stored = some (λ id. none);
  posts = λ n. true;
  trim = λ id want. none;
  max_episode = λ id. none;
  history_taken = true;
  ratings_taken = true;
  now = 100 * hour;
  status_order = in_turn;
  title_order = in_turn;
}

ratings-Fits_example :
    All (Fits services) (run_provider_import services entries).ratings
    × Once (run_provider_import services entries).ratings
ratings-Fits_example = ratings-Fits services entries

updates-Overwritable_example :
    All
      (Overwritable services (best_entries entries))
      (run_provider_import services entries).updates
updates-Overwritable_example = updates-Overwritable services entries
