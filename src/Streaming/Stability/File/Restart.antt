-- ===== src/Streaming/Stability/File/Restart.antt =====
-- What a process finds in the snapshot file that another left.
use aniraku_backend.Streaming.Stability.Requests.{same_provider_request_iff}
use aniraku_backend.Base.{
  leb, if◌then◌else◌, Bool-cases, All, Text, text_eq, text_eq_iff, Dict, lookup, IsDict,
  lookup-insert, All-insert, insert-IsDict, lookup_absent, ℕ, ◌-◌, ◌≡◌, refl, ap, subst, ◌∙◌, ◌≢◌,
  inl, inr, Bool, ◌||◌, Option, none, some, [], ◌∷◌, arith,
}
use aniraku_backend.Base.Tables.{find, find-put}
use aniraku_backend.Streaming.Stability.Keys.{stability_key_string, restore_key, IsKey}
use aniraku_backend.Streaming.Stability.Keys.RoundTrip.{restore_key-stability_key_string}
use aniraku_backend.Streaming.Stability.{
  ProviderRequestKey, Snapshot, is_token_based, provider_snapshot_ttl, same_provider_request,
  Providers,
}
use aniraku_backend.Streaming.Stability.File.{
  SavedEntry, save_providers, load_entry, load_entries, load_providers_snapshot,
}

string_injective :
    (j k : ProviderRequestKey)
    → IsKey j
    → IsKey k
    → stability_key_string j ≡ stability_key_string k
    → j ≡ k
string_injective j k vj vk same = ground (
  arith,
  restore_key-stability_key_string j vj,
  restore_key-stability_key_string k vk,
  ap restore_key same,
)

-- Equal texts are of equal keys.
text_eq-string :
    (text : Text) (j k : ProviderRequestKey)
    → IsKey j
    → IsKey k
    → text ≡ stability_key_string j
    → text_eq text (stability_key_string k) ≡ same_provider_request j k
text_eq-string text j k vj vk e = ground (
  arith,
  e,
  text_eq_iff text (stability_key_string k),
  same_provider_request_iff j k,
  string_injective j k vj vk,
  ap stability_key_string {x = j} {y = k},
)

module _ {A : Type 0} where
  -- Each entry of the file is under the text of a key that is in range.
  abbrev Canonical : Text × SavedEntry A → Type 0
  Canonical e = (k : ProviderRequestKey) × IsKey k × (e.0 ≡ stability_key_string k)

  -- What the file says of a key.
  abbrev restored :
      ℕ → ProviderRequestKey → Option (SavedEntry A) → Option (Snapshot A) → Option (Snapshot A)
  restored now k none known = known
  restored now k (some e) known =
      if is_token_based k.provider || leb (provider_snapshot_ttl k.provider) (now - e.stored_at)
      then known
      else some (record { servers = e.servers; stored_at = e.stored_at; expires = none })

  -- Whether a snapshot cannot outlive its process.
  abbrev dropped : ℕ → SavedEntry A → ProviderRequestKey → Bool
  dropped now e k =
      is_token_based k.provider || leb (provider_snapshot_ttl k.provider) (now - e.stored_at)

  find-load_entry :
      (now : ℕ) (text : Text) (e : SavedEntry A) (j k : ProviderRequestKey)
      (providers : Providers A)
      → IsKey j
      → text ≡ stability_key_string j
      → find same_provider_request k (load_entry now text e providers) ≡ (
          if same_provider_request j k
          then restored now k (some e) (find same_provider_request k providers)
          else find same_provider_request k providers)
  unfolding load_entry
  find-load_entry now text e j k providers vj named =
      let snapshot : Snapshot A = record {
        servers = e.servers;
        stored_at = e.stored_at;
        expires = none;
      } in
      let back = ap restore_key named ∙ restore_key-stability_key_string j vj in
      rw (back, load_entry)
        (elim (Bool-cases (same_provider_request j k)) [
          | inl here ↦
              let same = ap (dropped now e) ((same_provider_request_iff j k).0 here) in
              ground (
                arith,
                here,
                same,
                find-put same_provider_request same_provider_request_iff j k snapshot providers,
              )
          | inr elsewhere ↦ ground (
            arith,
            elsewhere,
            find-put same_provider_request same_provider_request_iff j k snapshot providers,
          )
        ])

  find-load_entries :
      (now : ℕ) (k : ProviderRequestKey) (saved : Dict (SavedEntry A)) (providers : Providers A)
      → IsKey k
      → IsDict saved
      → All Canonical saved
      → find same_provider_request k (load_entries now saved providers)
        ≡ restored now k
            (lookup (stability_key_string k) saved)
            (find same_provider_request k providers)
  unfolding load_entries lookup
  find-load_entries now k [] providers vk d c = refl
  find-load_entries now k ((text, e) ∷ saved) providers vk d c =
      let (j, vj, named) = c.0 in
      let same_test = text_eq-string text j k vj vk named in
      let step = find-load_entry now text e j k providers vj named in
      let rest = find-load_entries now k saved (load_entry now text e providers) vk d.1 c.1 in
      elim (Bool-cases (same_provider_request j k)) [
        | inl here ↦
            let gone = lookup_absent (stability_key_string k) saved (
              subst (λ (t : Text). All (λ (e : Text × SavedEntry A). e.0 ≢ t) saved)
                (named ∙ ap stability_key_string ((same_provider_request_iff j k).0 here)) d.0) in
            rest ∙ rw (same_test, here) (rw gone (step ∙ rw here))
        | inr elsewhere ↦
            rest
            ∙ rw (same_test, elsewhere)
                (ap (restored now k (lookup (stability_key_string k) saved)) (step ∙ rw elsewhere))
      ]

  lookup-save_providers :
      (k : ProviderRequestKey) (providers : Providers A)
      → IsKey k
      → All (λ (e : ProviderRequestKey × Snapshot A). IsKey e.0) providers
      → lookup (stability_key_string k) (save_providers providers)
        ≡ (elim (find same_provider_request k providers) [
          | none ↦ none
          | some v ↦
              if is_token_based k.provider
              then none
              else some (record { servers = v.servers; stored_at = v.stored_at })
        ])
  unfolding save_providers find lookup
  lookup-save_providers k [] vk vs = refl
  lookup-save_providers k ((j, v) ∷ providers) vk vs =
      let rest = lookup-save_providers k providers vk vs.1 in
      let saved : SavedEntry A = record { servers = v.servers; stored_at = v.stored_at } in
      let same_test = text_eq-string (stability_key_string j) j k vs.0 vk refl in
      elim (Bool-cases (same_provider_request j k)) [
        | inl here ↦
            let tokens =
              ap (λ (x : ProviderRequestKey). is_token_based x.provider)
                ((same_provider_request_iff j k).0 here) in
            ground (
              arith,
              rest,
              here,
              tokens,
              same_test,
              lookup-insert (stability_key_string j) (stability_key_string k) saved
                  (save_providers providers),
            )
        | inr elsewhere ↦ ground (
          arith,
          rest,
          elsewhere,
          same_test,
          lookup-insert (stability_key_string j) (stability_key_string k) saved
              (save_providers providers),
        )
      ]

  save_providers-IsDict : (providers : Providers A) → IsDict (save_providers providers)
  unfolding save_providers
  save_providers-IsDict [] = tt
  save_providers-IsDict ((j, v) ∷ providers) = elim (Bool-cases (is_token_based j.provider)) [
    | inl token ↦ rw token (save_providers-IsDict providers)
    | inr durable ↦ rw durable (
        insert-IsDict (stability_key_string j) _ (save_providers providers)
          (save_providers-IsDict providers))
  ]

  save_providers-Canonical :
      (providers : Providers A)
      → All (λ (e : ProviderRequestKey × Snapshot A). IsKey e.0) providers
      → All Canonical (save_providers providers)
  unfolding save_providers
  save_providers-Canonical [] vs = tt
  save_providers-Canonical ((j, v) ∷ providers) vs = elim (Bool-cases (is_token_based j.provider)) [
    | inl token ↦ rw token (save_providers-Canonical providers vs.1)
    | inr durable ↦ rw durable (
        All-insert Canonical (stability_key_string j) _ (save_providers providers)
          (save_providers-Canonical providers vs.1) (j, vs.0, refl))
  ]

  restored_saved :
      (now : ℕ) (k : ProviderRequestKey) (o : Option (Snapshot A))
      → restored now k
          (elim o [
            | none ↦ none
            | some v ↦
                if is_token_based k.provider
                then none
                else some (record { servers = v.servers; stored_at = v.stored_at })
          ])
          none
        ≡ (elim o [
          | none ↦ none
          | some v ↦
              if is_token_based k.provider
                || leb (provider_snapshot_ttl k.provider) (now - v.stored_at)
              then none
              else some (record v { expires = none })
        ])
  restored_saved now k none = refl
  restored_saved now k (some v) = elim (Bool-cases (is_token_based k.provider)) [
    | inl token ↦ rw token
    | inr durable ↦ rw durable (ground (arith, durable))
  ]

  -- A restart keeps the last good servers: where every key is in range, the process that loads the
  -- file has for a key what the old one had, with its time, unless the provider is token based or
  -- the entry is too old.
  pub load_providers_snapshot-save_providers :
      (now : ℕ) (k : ProviderRequestKey) (providers : Providers A)
      → IsKey k
      → All (λ (e : ProviderRequestKey × Snapshot A). IsKey e.0) providers
      → find same_provider_request k
          (load_providers_snapshot now (some (save_providers providers)) [])
        ≡ (elim (find same_provider_request k providers) [
          | none ↦ none
          | some v ↦
              if is_token_based k.provider
                || leb (provider_snapshot_ttl k.provider) (now - v.stored_at)
              then none
              else some (record v { expires = none })
        ])
  unfolding load_providers_snapshot find
  load_providers_snapshot-save_providers now k providers vk vs =
      find-load_entries now k (save_providers providers) [] vk (save_providers-IsDict providers)
        (save_providers-Canonical providers vs)
      ∙ rw (lookup-save_providers k providers vk vs)
          (restored_saved now k (find same_provider_request k providers))
