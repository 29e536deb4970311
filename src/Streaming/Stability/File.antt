-- ===== src/Streaming/Stability/File.antt =====
-- The snapshot file of internal/streaming/servers_stability.go: what a process leaves and the next one finds.
pub mod Restart
use aniraku_backend.Base.{
  leb, if◌then◌else◌, Text, Dict, insert, ℕ, ◌-◌, ◌||◌, Option, none, some, List, [], ◌∷◌,
}
use aniraku_backend.Base.Tables.{put}
use aniraku_backend.Streaming.Stability.Keys.{stability_key_string, restore_key}
use aniraku_backend.Streaming.Stability.{
  Server, is_token_based, provider_snapshot_ttl, same_provider_request, Providers,
}

pub record SavedEntry (A : Type 0) : Type 0 where
  pub servers : List (Server A)
  pub stored_at : ℕ

module _ {A : Type 0} where
  -- The entries of the file, for the map of providers.
  unfoldable pub save_providers : Providers A → Dict (SavedEntry A)
  unfolding is_token_based stability_key_string insert
  save_providers [] = []
  save_providers ((k, v) ∷ providers) =
      let rest = save_providers providers in
      if is_token_based k.provider
      then rest
      else insert (stability_key_string k) (record { servers = v.servers; stored_at = v.stored_at })
          rest

  -- What a turn of the loop over the file's entries does to the map.
  unfoldable pub load_entry : ℕ → Text → SavedEntry A → Providers A → Providers A
  unfolding restore_key is_token_based provider_snapshot_ttl put same_provider_request
  load_entry now text e providers = elim (restore_key text) [
    | none ↦ providers
    | some k ↦
        if is_token_based k.provider || leb (provider_snapshot_ttl k.provider) (now - e.stored_at)
        then providers
        else put same_provider_request k
            (record { servers = e.servers; stored_at = e.stored_at; expires = none }) providers
  ]

  unfoldable pub load_entries : ℕ → Dict (SavedEntry A) → Providers A → Providers A
  unfolding load_entry
  load_entries now [] providers = providers
  load_entries now ((text, e) ∷ saved) providers =
      load_entries now saved (load_entry now text e providers)

  -- A file that is missing or corrupt is `none`.
  unfoldable pub load_providers_snapshot :
      ℕ → Option (Dict (SavedEntry A)) → Providers A → Providers A
  unfolding load_entries
  load_providers_snapshot now file providers = elim file [
    | none ↦ providers
    | some saved ↦ load_entries now saved providers
  ]
