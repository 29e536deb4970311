-- ===== src/Streaming/Stability/Merge.antt =====
-- What a round of a provider's results does to the servers that were known.
use aniraku_backend.Base.{
  leb, if◌then◌else◌, Bool-cases, any-append, Text, text_eq, text_eq_iff, ℕ, ◌+◌, ◌-◌, ◌≤◌, ◌≡◌, ap,
  ◌∙◌, inl, inr, Bool, true, false, not, ◌&&◌, ◌||◌, none, some, List, [], ◌∷◌, ◌++◌, arith,
}
use aniraku_backend.Base.Tables.{find, remove, find-put}
use aniraku_backend.Streaming.Stability.Requests.{
  same_provider_request_iff, same_provider_request_refl,
}
use aniraku_backend.Streaming.Stability.{
  Server, ProviderRequestKey, Snapshot, provider_snapshot_ttl, same_provider_request, Providers,
  slot, has_slot, missing_from, merge_provider_servers, is_good, retained, stabilize_provider,
}

module _ {A : Type 0} where
  pub has_slot-append :
      (key : Text) (xs ys : List (Server A))
      → has_slot key (xs ++ ys) ≡ (has_slot key xs || has_slot key ys)
  unfolding has_slot
  has_slot-append key xs ys = any-append (λ s. text_eq (slot s) key) xs ys

  pub has_slot-missing_from :
      (key : Text) (seen xs : List (Server A))
      → has_slot key (missing_from seen xs) ≡ (has_slot key xs && not (has_slot key seen))
  unfolding missing_from has_slot
  has_slot-missing_from key seen [] = ground arith
  has_slot-missing_from key seen (s ∷ xs) = elim (Bool-cases (text_eq (slot s) key)) [
    | inl here ↦
        let same = ap (λ k. has_slot k seen) ((text_eq_iff (slot s) key).0 here) in
        ground (arith, here, same, has_slot-missing_from key seen xs)
    | inr elsewhere ↦ ground (arith, elsewhere, has_slot-missing_from key seen xs)
  ]

  -- A slot is in the merged list exactly if it is fresh or was there before.
  pub merge_provider_servers-slots :
      (fresh previous : List (Server A)) (key : Text)
      → (has_slot key (merge_provider_servers fresh previous)
          ≡ (has_slot key fresh || has_slot key previous))
  unfolding merge_provider_servers
  merge_provider_servers-slots fresh previous key = ground (
    arith,
    has_slot-append key fresh (missing_from fresh previous),
    has_slot-missing_from key fresh previous,
  )

  -- What a round that found servers leaves under its key.
  stabilized :
      (key : ProviderRequestKey) (s : Server A) (fresh : List (Server A)) (allow : Bool) (now : ℕ)
      (providers : Providers A)
      → find same_provider_request key (stabilize_provider key (s ∷ fresh) allow now providers).0
        ≡ some (record {
          servers = (retained key (s ∷ fresh) now providers).0;
          stored_at = now;
          expires = none;
        })
  unfolding stabilize_provider
  stabilized key s fresh allow now providers =
      rw (find-put same_provider_request same_provider_request_iff)
        (rw (same_provider_request_refl key))

  from_known :
      (key : ProviderRequestKey) (providers : Providers A) (e : Snapshot A) (later : ℕ)
      → find same_provider_request key providers ≡ some e
      → stabilize_provider key [] true later providers ≡ (
          if leb (later - e.stored_at) (provider_snapshot_ttl key.provider)
          then (providers, e.servers, true)
          else (remove same_provider_request key providers, [], false))
  unfolding stabilize_provider is_good
  from_known key providers e later found = rw (found, stabilize_provider)

  -- A round that finds nothing, after one that found servers and with the fallback allowed, returns
  -- exactly what that round returned and leaves the table as it is, as long as the results are
  -- good; later it returns nothing and forgets the entry.
  pub stabilize_provider_fallback :
      (key : ProviderRequestKey) (s : Server A) (fresh : List (Server A)) (allow : Bool)
      (now later : ℕ) (providers : Providers A)
      → stabilize_provider key [] true later
          (stabilize_provider key (s ∷ fresh) allow now providers).0
        ≡ (if leb (later - now) (provider_snapshot_ttl key.provider)
            then (
              (stabilize_provider key (s ∷ fresh) allow now providers).0,
              (stabilize_provider key (s ∷ fresh) allow now providers).1,
              true,
            )
            else (
              remove same_provider_request key
                  (stabilize_provider key (s ∷ fresh) allow now providers).0,
              [],
              false,
            ))
  unfolding stabilize_provider
  stabilize_provider_fallback key s fresh allow now later providers =
      from_known key (stabilize_provider key (s ∷ fresh) allow now providers).0
        (record {
          servers = (retained key (s ∷ fresh) now providers).0;
          stored_at = now;
          expires = none;
        })
        later (stabilized key s fresh allow now providers)

  -- Rounds that each found servers, with their times; no gap is longer than a snapshot is good for.
  abbrev pub Steady : ProviderRequestKey → ℕ → List (Server A × List (Server A) × ℕ) → Type 0
  Steady key at [] = Unit {0}
  Steady key at ((s, fresh, now) ∷ rounds) =
      (now ≤ at + provider_snapshot_ttl key.provider) × Steady key now rounds

  unfoldable pub after_rounds :
      ProviderRequestKey → List (Server A × List (Server A) × ℕ) → Providers A → Providers A
  unfolding stabilize_provider
  after_rounds key [] providers = providers
  after_rounds key ((s, fresh, now) ∷ rounds) providers =
      after_rounds key rounds (stabilize_provider key (s ∷ fresh) true now providers).0

  retained-slot :
      (key : ProviderRequestKey) (s : Server A) (fresh : List (Server A)) (now : ℕ)
      (providers : Providers A) (e : Snapshot A) (name : Text)
      → find same_provider_request key providers ≡ some e
      → now ≤ e.stored_at + provider_snapshot_ttl key.provider
      → has_slot name e.servers ≡ true
      → has_slot name (retained key (s ∷ fresh) now providers).0 ≡ true
  unfolding retained is_good
  retained-slot key s fresh now providers e name found soon there =
      let good : leb (now - e.stored_at) (provider_snapshot_ttl key.provider) ≡ true =
        ground (arith, soon) in
      rw (found, good, retained)
        (merge_provider_servers-slots (s ∷ fresh) e.servers name ∙ ground (arith, there))

  -- A slot that a provider's entry has stays in it through any rounds that find servers, as long as
  -- no gap between them is longer than a snapshot is good for: however long it has been missing, it
  -- does not age.
  pub slot_survives :
      (key : ProviderRequestKey) (rounds : List (Server A × List (Server A) × ℕ))
      (providers : Providers A) (e : Snapshot A) (name : Text)
      → find same_provider_request key providers ≡ some e
      → Steady key e.stored_at rounds
      → has_slot name e.servers ≡ true
      → (last : Snapshot A) × (find same_provider_request key (after_rounds key rounds providers)
          ≡ some last)
        × (has_slot name last.servers ≡ true)
  unfolding after_rounds
  slot_survives key [] providers e name found steady there = (e, found, there)
  slot_survives key ((s, fresh, now) ∷ rounds) providers e name found steady there =
      slot_survives key rounds (stabilize_provider key (s ∷ fresh) true now providers).0
        (record {
          servers = (retained key (s ∷ fresh) now providers).0;
          stored_at = now;
          expires = none;
        })
        name (stabilized key s fresh true now providers) steady.1
        (retained-slot key s fresh now providers e name found steady.0 there)
