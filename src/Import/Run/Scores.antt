-- ===== src/Import/Run/Scores.antt =====
-- The scores that an import writes.
use aniraku_backend.Export.Watch.{WatchProgress}
use aniraku_backend.Base.{
  leb, ◌==◌, Bool-cases, Option-cases, branch, All, ℕ, ◌≤◌, ◌≡◌, refl, sym, ap, subst, ◌∙◌, ◌≢◌,
  inl, inr, Bool, true, false, not, ◌&&◌, ◌||◌, Option, none, some, List, [], ◌∷◌, ◌++◌, arith,
}
use aniraku_backend.Import.Entries.{ProviderEntry, best_entries}
use aniraku_backend.Import.Services.{RatingRow, Services, rated_before, Progress}
use aniraku_backend.Import.Run.{
  add_rows, add_score, rows_of, scores_of, import_title, import_titles, start, run_provider_import,
}

abbrev pub Unscored : ℕ → List RatingRow → Type 0
Unscored id rows = All (λ (r : RatingRow). r.anime_id ≢ id) rows

-- No title twice.
abbrev pub Once : List RatingRow → Type 0
Once [] = Unit {0}
Once (r ∷ rows) = Unscored r.anime_id rows × Once rows

Once-append :
    (rows : List RatingRow) (r : RatingRow)
    → Once rows
    → Unscored r.anime_id rows
    → Once (rows ++ r ∷ [])
Once-append [] r h new = (tt, tt)
Once-append (q ∷ rows) r h new =
    (All-snoc q.anime_id rows r h.0 (λ same. new.0 (sym same)), Once-append rows r h.1 new.1)
  where
    All-snoc :
        (id : ℕ) (rows : List RatingRow) (r : RatingRow)
        → Unscored id rows
        → r.anime_id ≢ id
        → Unscored id (rows ++ r ∷ [])
    All-snoc id [] r h other = (other, tt)
    All-snoc id (q ∷ rows) r h other = (h.0, All-snoc id rows r h.1 other)

module _ {κ} (P : RatingRow → Type κ) where
  All-last : (rows : List RatingRow) (r : RatingRow) → All P rows → P r → All P (rows ++ r ∷ [])
  All-last [] r h new = (new, tt)
  All-last (q ∷ rows) r h new = (h.0, All-last rows r h.1 new)

unmarked-Unscored :
    (rated : ℕ → Bool) (id : ℕ) (rows : List RatingRow)
    → All (λ (r : RatingRow). rated r.anime_id ≡ true) rows
    → rated id ≡ false
    → Unscored id rows
unmarked-Unscored rated id [] h free = tt
unmarked-Unscored rated id (r ∷ rows) h free =
    ((λ same. cc (h.0, free, ap rated same)), unmarked-Unscored rated id rows h.1 free)

still_marked :
    (rated : ℕ → Bool) (id : ℕ) (rows : List RatingRow)
    → All (λ (r : RatingRow). rated r.anime_id ≡ true) rows
    → All (λ (r : RatingRow). (r.anime_id == id || rated r.anime_id) ≡ true) rows
still_marked rated id [] h = tt
still_marked rated id (r ∷ rows) h = (ground (arith, h.0), still_marked rated id rows h.1)

module _ (s : Services) where
  -- A score from 1 to 10 for a title that had none.
  pub record Fits (r : RatingRow) : Type 0 where
    pub unrated : (rated : ℕ → Bool) × (s.rated ≡ some rated) × (rated r.anime_id ≡ false)
    pub least : 1 ≤ r.score
    pub most : r.score ≤ 10

  record Sound (rated : ℕ → Bool) (p : Progress) : Type 0 where
    fits : All Fits p.rating_rows
    once : Once p.rating_rows
    marked : All (λ (r : RatingRow). p.rated r.anime_id ≡ true) p.rating_rows
    grows : (id : ℕ) → p.rated id ≡ false → rated id ≡ false

  add_score-Sound :
      (rated : ℕ → Bool) (e : ProviderEntry) (p : Progress)
      → s.rated ≡ some rated
      → Sound rated p
      → Sound rated (add_score s e p)
  unfolding add_score
  add_score-Sound rated e p read v =
      elim (Bool-cases (leb 1 e.score && leb e.score 10 && not (p.rated e.anime_id))) [
        | inr kept ↦ rw kept v
        | inl new ↦
            let free : p.rated e.anime_id ≡ false = ground (arith, new) in
            let unscored = unmarked-Unscored p.rated e.anime_id p.rating_rows v.marked free in
            rw new (record {
              fits = All-last Fits p.rating_rows _ v.fits (record {
                unrated = (rated, read, v.grows e.anime_id free);
                least = ground (arith, new);
                most = ground (arith, new);
              });
              once = Once-append p.rating_rows _ v.once unscored;
              marked =
                  All-last
                    (λ (r : RatingRow). (r.anime_id == e.anime_id || p.rated r.anime_id) ≡ true)
                    p.rating_rows _ (still_marked p.rated e.anime_id p.rating_rows v.marked)
                    (ground arith);
              grows = λ id still. v.grows id (ground (arith, still));
            })
      ]

  scores_of-Sound :
      (rated : ℕ → Bool) (e : ProviderEntry) (p : Progress)
      → s.rated ≡ some rated
      → Sound rated p
      → Sound rated (scores_of s (some rated) e p)
  unfolding scores_of
  scores_of-Sound rated e p read v = add_score-Sound rated e p read v

  rows_of-Sound :
      (known : Option (ℕ → WatchProgress)) (rated : ℕ → Bool) (e : ProviderEntry) (p : Progress)
      → Sound rated p
      → Sound rated (rows_of s known e p)
  unfolding rows_of add_rows
  rows_of-Sound none rated e p v = v
  rows_of-Sound (some watch) rated e p v =
      branch (Sound rated) p.limited p _ v
        (record { fits = v.fits; once = v.once; marked = v.marked; grows = v.grows })

  rows_of-ratings :
      (known : Option (ℕ → WatchProgress)) (e : ProviderEntry) (p : Progress)
      → (rows_of s known e p).rating_rows ≡ p.rating_rows
  unfolding rows_of add_rows
  rows_of-ratings none e p = refl
  rows_of-ratings (some watch) e p =
      branch (λ (q : Progress). q.rating_rows ≡ p.rating_rows) p.limited p _ refl refl

  import_titles-Sound :
      (rated : ℕ → Bool) (best : List ProviderEntry) (p : Progress)
      → s.rated ≡ some rated
      → Sound rated p
      → Sound rated (import_titles s best p)
  unfolding import_titles import_title
  import_titles-Sound rated [] p read v = v
  import_titles-Sound rated (e ∷ best) p read v = import_titles-Sound rated best _ read (
      subst
        (λ (known : Option (ℕ → Bool)). Sound rated (scores_of s known e (rows_of s s.watch e p)))
        (sym read)
        (scores_of-Sound rated e (rows_of s s.watch e p) read (rows_of-Sound s.watch rated e p v)))

  unscored : (e : ProviderEntry) (p : Progress) → (scores_of s none e p).rating_rows ≡ p.rating_rows
  unfolding scores_of
  unscored e p = refl

  import_titles-unread :
      (best : List ProviderEntry) (p : Progress)
      → s.rated ≡ none
      → (import_titles s best p).rating_rows ≡ p.rating_rows
  unfolding import_titles import_title
  import_titles-unread [] p unread = refl
  import_titles-unread (e ∷ best) p unread =
      import_titles-unread best _ unread
      ∙ (subst
          (λ (known : Option (ℕ → Bool)).
            (scores_of s known e (rows_of s s.watch e p)).rating_rows ≡ p.rating_rows)
          (sym unread) (unscored e (rows_of s s.watch e p) ∙ rows_of-ratings s.watch e p))

  -- An import writes scores only where the ratings could be read, only from 1 to 10, only for
  -- titles that had none, and no title's twice.
  pub ratings-Fits :
      (entries : List ProviderEntry)
      → All Fits (run_provider_import s entries).ratings
        × Once (run_provider_import s entries).ratings
  unfolding run_provider_import start
  ratings-Fits entries = elim (Option-cases s.rated) [
    | inl unread ↦
        subst (λ (rows : List RatingRow). All Fits rows × Once rows)
          (sym (import_titles-unread (s.title_order.visit (best_entries entries)) _ unread))
          (tt, tt)
    | inr (rated, read) ↦
        let v =
          import_titles-Sound rated (s.title_order.visit (best_entries entries)) (start s) read
            (record {
              fits = tt;
              once = tt;
              marked = tt;
              grows =
                  λ id h. ap (λ (known : Option (ℕ → Bool)). rated_before known id) (sym read) ∙ h;
            }) in
        (v.fits, v.once)
  ]
