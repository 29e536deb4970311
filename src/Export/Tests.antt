-- ===== src/Export/Tests.antt =====
-- Runs of the exports.
use aniraku_backend.Base.{
  codes, text_eq, trim_space, lower, ℕ, ◌≡◌, refl, ◌≢◌, ◌⊎◌, inl, inr, true, false, none, some, [],
  ◌∷◌, arith,
}
use aniraku_backend.Export.Status.{
  list_current, list_planning, is_canonical_status, normalize_mal_status, status_for_mal,
}
use aniraku_backend.Export.Watch.{
  WatchProgress, WatchHistoryRow, unseen, full_episode, finished, synthetic, fold_row,
  fold_watch_row, fold_watch_rows, IsValid, swapped, fold_watch_rows-Reordered,
}
use aniraku_backend.Export.Decision.{
  Title, ListState, no_evidence_planning_fix, export_progress, want_export_status, stored_of,
  has_stored, want_status, want_score, leaves_alone, AnilistExportWrite, anilist_write,
  anilist_same, decide_anilist, MalForm, mal_form, mal_same, decide_mal,
}
use aniraku_backend.Export.Decision.Laws.{decide_anilist_settles, unseen_left_alone}
use aniraku_backend.Export.Decision.Mal.{decide_mal_settles}

abbrev plain : ℕ → ℕ
plain c = c

-- Title 21, two finished episodes, the second from an import, and one that was opened.
abbrev first : WatchHistoryRow
first = record { anime_id = 21; episode = 1; progress = 1_400_000; duration = 1_420_000 }

abbrev second : WatchHistoryRow
second = record { anime_id = 21; episode = 2; progress = full_episode; duration = full_episode }

abbrev jumped : WatchHistoryRow
jumped = record { anime_id = 21; episode = 50; progress = 10_000; duration = 1_420_000 }

abbrev none_yet : ℕ → WatchProgress
none_yet id = unseen

folded :
    fold_watch_rows none_yet (first ∷ second ∷ jumped ∷ []) 21
    ≡ record { episode = 2; progress = 10; completed = false; max_row = 50; real_episode = 1 }
unfolding fold_watch_rows fold_watch_row fold_row finished synthetic
folded = refl

apart : first.episode ≢ jumped.episode
apart e = ground (arith, e)

fold_watch_rows-Reordered_example :
    fold_watch_rows none_yet (first ∷ jumped ∷ second ∷ []) 21
    ≡ fold_watch_rows none_yet (jumped ∷ first ∷ second ∷ []) 21
fold_watch_rows-Reordered_example =
    fold_watch_rows-Reordered (first ∷ jumped ∷ second ∷ []) (jumped ∷ first ∷ second ∷ []) none_yet
      21 (swapped first jumped (second ∷ []) (inr apart))

unseen-IsValid : (id : ℕ) → IsValid (none_yet id)
unseen-IsValid id = record { real = omega arith; present = omega arith }

abbrev half : Title
half = record {
  watched = record {
    episode = 6;
    progress = 1400;
    completed = true;
    max_row = 6;
    real_episode = 6;
  };
  episodes = 12;
  ended = true;
  bookmark_total = 0;
  stored = some list_current;
  score = 8;
}

half-IsValid : IsValid half.watched
half-IsValid = record { real = omega arith; present = omega arith }

abbrev behind : ListState
behind = record { status = list_planning; progress = 2; score = 0 }

abbrev caught_up : ListState
caught_up = record { status = list_current; progress = 6; score = 8 }

abbrev write : AnilistExportWrite
write = record { progress = 6; status = list_current; want_score = 8 }

decide_anilist_settles_example : decide_anilist half (some caught_up) ≡ none
unfolding decide_anilist export_progress leaves_alone want_status want_export_status stored_of
    has_stored anilist_write anilist_same want_score no_evidence_planning_fix is_canonical_status
    text_eq
decide_anilist_settles_example =
    decide_anilist_settles half (some behind) caught_up write half-IsValid refl refl refl (inr refl)

abbrev mal_behind : ListState
mal_behind = record { status = codes "plan_to_watch"; progress = 2; score = 0 }

abbrev mal_caught_up : ListState
mal_caught_up = record { status = codes "watching"; progress = 6; score = 8 }

abbrev form : MalForm
form = record { num_watched_episodes = some 6; status = codes "watching"; score = some 8 }

decide_mal_settles_example : decide_mal plain half (some mal_caught_up) ≡ none
unfolding decide_mal export_progress leaves_alone want_status want_export_status stored_of
    has_stored mal_form mal_same want_score no_evidence_planning_fix is_canonical_status text_eq
    normalize_mal_status status_for_mal trim_space lower
decide_mal_settles_example =
    decide_mal_settles half plain plain (some mal_behind) mal_caught_up form half-IsValid refl refl
      (inl refl) (inr refl)

abbrev favourite : Title
favourite = record {
  watched = unseen;
  episodes = 12;
  ended = true;
  bookmark_total = 0;
  stored = none;
  score = 0;
}

unseen_left_alone_example :
    ((decide_anilist favourite (some behind) ≡ none)
      ⊎ ((list_planning ≡ list_current)
          × (behind.progress ≡ 0)
          × (want_status favourite ≡ list_planning)))
    × ((decide_mal plain favourite (some behind) ≡ none)
        ⊎ ((normalize_mal_status plain list_planning ≡ list_current)
            × (behind.progress ≡ 0)
            × (want_status favourite ≡ list_planning)))
unseen_left_alone_example = unseen_left_alone favourite plain behind refl refl
