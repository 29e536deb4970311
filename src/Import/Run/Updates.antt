-- ===== src/Import/Run/Updates.antt =====
-- The statuses that an import writes over.
use aniraku_backend.Import.Entries.{ProviderEntry, best_entries}
use aniraku_backend.Export.Watch.{WatchProgress}
use aniraku_backend.Base.{
  ◌==◌, Bool-cases, Option-cases, branch, length, take, drop, length-drop, take-drop, All,
  All-append, Text, text_eq, text_eq_iff, ℕ, zero, suc, ◌+◌, ◌≤◌, ◌≡◌, refl, ap, ◌∙◌, ◌≢◌, ◌⊎◌, inl,
  inr, true, false, Option, none, some, List, [], ◌∷◌, ◌++◌, arith,
}
use aniraku_backend.Import.Services.{
  StatusUpdate, Services, import_batch_size, stored_before, visited,
}
use mathlib.Core.List.{Mem}
use aniraku_backend.Export.Status.{is_canonical_status, six}
use aniraku_backend.Import.Run.{updates_status, status_updates, post_updates, run_provider_import}

module _ {κ} (P : StatusUpdate → Type κ) where
  All-take : (n : ℕ) (us : List StatusUpdate) → All P us → All P (take n us)
  All-take zero us h = tt
  All-take (suc n) [] h = tt
  All-take (suc n) (u ∷ us) h = (h.0, All-take n us h.1)

  All-drop : (n : ℕ) (us : List StatusUpdate) → All P us → All P (drop n us)
  All-drop zero us h = h
  All-drop (suc n) [] h = tt
  All-drop (suc n) (u ∷ us) h = All-drop n us h.1

module _ (s : Services) where
  -- Enough turns: where every batch is taken, every update is written.
  pub post_updates_lem :
      (left n : ℕ) (us : List StatusUpdate)
      → ((k : ℕ) → s.posts k ≡ true)
      → length us ≤ left
      → post_updates s left n us ≡ us
  unfolding post_updates
  post_updates_lem zero n [] taken enough = refl
  post_updates_lem zero n (u ∷ us) taken enough = absurd (omega arith)
  post_updates_lem (suc left) n [] taken enough = refl
  post_updates_lem (suc left) n (u ∷ us) taken enough =
      let rest =
        post_updates_lem left (n + 1) (drop import_batch_size (u ∷ us)) taken
          (omega (arith, length-drop import_batch_size (u ∷ us))) in
      let some_left : (length (u ∷ us) == 0) ≡ false = ground arith in
      rw some_left (
        rw (taken n) (
          ap (λ (vs : List StatusUpdate). take import_batch_size (u ∷ us) ++ vs) rest
          ∙ take-drop import_batch_size (u ∷ us)))

  All-post_updates {κ} :
      (P : StatusUpdate → Type κ) (left n : ℕ) (us : List StatusUpdate)
      → All P us
      → All P (post_updates s left n us)
  unfolding post_updates
  All-post_updates P zero n us h = tt
  All-post_updates P (suc left) n us h = branch (All P) (length us == 0) _ _ tt (
      branch (All P) (s.posts n) _ _
        (All-append P (take import_batch_size us) _ (All-take P import_batch_size us h) (
          All-post_updates P left (n + 1) (drop import_batch_size us)
            (All-drop P import_batch_size us h)))
        tt)

  -- No status of the six is stored for a title, or one that differs and the history, which could be read,
  -- has no row of the title.
  abbrev pub Unclaimed : (ℕ → Option Text) → StatusUpdate → Type 0
  Unclaimed stored u =
      (stored u.anime_id ≡ none)
      ⊎ ((cur : Text) × (stored u.anime_id ≡ some cur)
          × ((is_canonical_status cur ≡ false)
              ⊎ (cur ≢ u.status)
                × ((watch : ℕ → WatchProgress) × (s.watch ≡ some watch)
                    × ((watch u.anime_id).max_row ≡ 0))))

  -- The status of an entry of the list, of a title that this import did not add; the bookmarks could not be
  -- read, or the title is unclaimed.
  pub record Overwritable (best : List ProviderEntry) (u : StatusUpdate) : Type 0 where
    pub entry : (e : ProviderEntry) × Mem e best × (u.anime_id ≡ e.anime_id) × (u.status ≡ e.status)
    pub known : s.fresh u.anime_id ≡ false
    pub unclaimed :
        (s.stored ≡ none)
        ⊎ ((stored : ℕ → Option Text) × (s.stored ≡ some stored) × Unclaimed stored u)

  abbrev written_update : ProviderEntry → StatusUpdate
  written_update e = record {
    anime_id = e.anime_id;
    status = e.status;
    total_episodes = (s.meta e.anime_id).episodes;
  }

  updates_status-Unclaimed :
      (stored : ℕ → Option Text) (e : ProviderEntry)
      → s.stored ≡ some stored
      → updates_status s e ≡ true
      → Unclaimed stored (written_update e)
  unfolding updates_status stored_before
  updates_status-Unclaimed stored e read h = elim (Option-cases (stored e.anime_id)) [
    | inl unset ↦ inl unset
    | inr (cur, set) ↦ elim (Bool-cases (is_canonical_status cur)) [
      | inr odd ↦ inr (cur, set, inl odd)
      | inl six ↦
          let differs : text_eq cur e.status ≡ false = ground (arith, h, read, set, six) in
          elim (Option-cases s.watch) [
            | inl unread ↦ absurd (ground (arith, h, read, set, six, differs, unread))
            | inr (watch, seen) ↦ inr (
              cur,
              set,
              inr (
                ground (arith, differs, text_eq_iff cur e.status),
                (watch, seen, ground (arith, h, read, set, six, differs, seen)),
              ),
            )
          ]
    ]
  ]

  updates_status-Overwritable :
      (best : List ProviderEntry) (e : ProviderEntry)
      → Mem e best
      → updates_status s e ≡ true
      → Overwritable best (written_update e)
  unfolding updates_status
  updates_status-Overwritable best e there h = record {
    entry = (e, there, refl, refl);
    known = ground (arith, h);
    unclaimed = elim (Option-cases s.stored) [
      | inl unread ↦ inl unread
      | inr (stored, read) ↦ inr (stored, read, updates_status-Unclaimed stored e read h)
    ];
  }

  status_updates-Overwritable :
      (best es : List ProviderEntry)
      → All (λ (e : ProviderEntry). Mem e best) es
      → All (Overwritable best) (status_updates s es)
  unfolding status_updates
  status_updates-Overwritable best [] there = tt
  status_updates-Overwritable best (e ∷ es) there = elim (Bool-cases (updates_status s e)) [
    | inl chosen ↦ rw chosen (
      updates_status-Overwritable best e there.0 chosen,
      status_updates-Overwritable best es there.1,
    )
    | inr left ↦ rw left (status_updates-Overwritable best es there.1)
  ]

  -- An import writes a status only for a title that it did not just add, and it is the status of
  -- the entry that the deduplication keeps for it. It does so only where the bookmarks could not be
  -- read, where none of the six statuses is stored for the title, or where another is stored and
  -- the history could be read and has no row of the title.
  pub updates-Overwritable :
      (entries : List ProviderEntry)
      → All (Overwritable (best_entries entries)) (run_provider_import s entries).updates
  unfolding run_provider_import
  updates-Overwritable entries =
      let best = best_entries entries in
      let updates = status_updates s (s.status_order.visit best) in
      All-post_updates (Overwritable best) (length updates) 0 updates
        (status_updates-Overwritable best (s.status_order.visit best) (visited s.status_order best))
