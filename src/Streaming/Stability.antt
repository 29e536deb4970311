-- ===== src/Streaming/Stability.antt =====
-- internal/streaming/servers_stability.go: the lists of servers that the manager keeps, by request and by
-- provider, with the file that outlives the process. A server's other fields, which nothing here reads, are
-- of the type `A`; a copy of a list is the list. The file is the map that its JSON holds; `none` is a
-- missing or corrupt one.
pub mod Keys
pub mod Requests
pub mod Merge
pub mod File
pub mod Order
mod Tests
use aniraku_backend.Base.{
  ltb, leb, ◌==◌, bool_eq, if◌then◌else◌, length, any, Text, codes, text_eq, ℕ, ◌+◌, ◌-◌, ◌*◌, Bool,
  true, false, not, ◌&&◌, ◌||◌, Option, none, some, List, [], ◌∷◌, ◌++◌,
}
use aniraku_backend.Base.Tables.{find, put, remove, remove_oldest}

pub record Server (A : Type 0) : Type 0 where
  pub name : Text
  pub provider : Text
  pub rest : A

-- An integer: whether it is below 0, and its size.
pub record SignedInt : Type 0 where
  pub negative : Bool
  pub size : ℕ

pub record ServerRequestKey : Type 0 where
  pub anime_id : SignedInt
  pub episode : SignedInt
  pub lang : Text
  pub hentai : Bool

pub record ProviderRequestKey : Type 0 where
  pub request : ServerRequestKey
  pub provider : Text

-- `none` is the zero time of `expires`.
pub record Snapshot (A : Type 0) : Type 0 where
  pub servers : List (Server A)
  pub stored_at : ℕ
  pub expires : Option ℕ

abbrev pub second : ℕ
second = 1_000_000_000

abbrev pub server_list_stability_ttl : ℕ
server_list_stability_ttl = 90 * second

abbrev pub incomplete_server_list_ttl : ℕ
incomplete_server_list_ttl = 5 * second

abbrev pub provider_last_good_ttl : ℕ
provider_last_good_ttl = 7200 * second

abbrev pub critical_last_good_ttl : ℕ
critical_last_good_ttl = 7200 * second

abbrev pub max_server_list_snapshots : ℕ
max_server_list_snapshots = 256

abbrev pub max_provider_snapshots : ℕ
max_provider_snapshots = 2048

unfoldable pub is_token_based : Text → Bool
unfolding text_eq
is_token_based provider = text_eq provider (codes "anv") || text_eq provider (codes "animex")

unfoldable pub provider_snapshot_ttl : Text → ℕ
unfolding text_eq
provider_snapshot_ttl provider =
    if text_eq provider (codes "kaa") || text_eq provider (codes "zenbu")
    then critical_last_good_ttl
    else provider_last_good_ttl

unfoldable pub same_signed : SignedInt → SignedInt → Bool
same_signed a b = bool_eq a.negative b.negative && a.size == b.size

unfoldable pub same_request : ServerRequestKey → ServerRequestKey → Bool
unfolding same_signed text_eq
same_request a b =
    same_signed a.anime_id b.anime_id
    && same_signed a.episode b.episode
    && text_eq a.lang b.lang
    && bool_eq a.hentai b.hentai

unfoldable pub same_provider_request : ProviderRequestKey → ProviderRequestKey → Bool
unfolding same_request text_eq
same_provider_request a b = same_request a.request b.request && text_eq a.provider b.provider

abbrev pub Lists : Type 0 → Type 0
Lists A = List (ServerRequestKey × Snapshot A)

abbrev pub Providers : Type 0 → Type 0
Providers A = List (ProviderRequestKey × Snapshot A)

module _ {A : Type 0} where
  -- `server.Provider + "\x00" + server.Name`
  unfoldable pub slot : Server A → Text
  slot s = s.provider ++ 0 ∷ s.name

  unfoldable pub has_slot : Text → List (Server A) → Bool
  unfolding slot text_eq
  has_slot key servers = any (λ s. text_eq (slot s) key) servers

  -- The last server under a slot, as the map `current` has it.
  unfoldable pub current : Text → List (Server A) → Option (Server A)
  unfolding slot text_eq
  current key [] = none
  current key (s ∷ servers) = elim (current key servers) [
    | some later ↦ some later
    | none ↦ if text_eq (slot s) key then some s else none
  ]

  -- The servers whose slot is not among these.
  unfoldable pub missing_from : List (Server A) → List (Server A) → List (Server A)
  unfolding has_slot
  missing_from seen [] = []
  missing_from seen (s ∷ servers) =
      let rest = missing_from seen servers in if has_slot (slot s) seen then rest else s ∷ rest

  unfoldable pub merge_provider_servers : List (Server A) → List (Server A) → List (Server A)
  unfolding missing_from
  merge_provider_servers fresh previous = fresh ++ missing_from fresh previous

  -- The loop over the previous list; `age` is what `now.Sub(previousAt)` gives.
  unfoldable pub renewed : ℕ → List (Server A) → List (Server A) → List (Server A)
  unfolding current provider_snapshot_ttl
  renewed age fresh [] = []
  renewed age fresh (s ∷ previous) =
      let rest = renewed age fresh previous in
      elim (current (slot s) fresh) [
        | some now_there ↦ now_there ∷ rest
        | none ↦ if leb age (provider_snapshot_ttl s.provider) then s ∷ rest else rest
      ]

  unfoldable pub merge_list_snapshot : List (Server A) → List (Server A) → ℕ → ℕ → List (Server A)
  unfolding renewed missing_from
  merge_list_snapshot fresh [] previous_at now = fresh
  merge_list_snapshot fresh (s ∷ previous) previous_at now =
      let kept = renewed (now - previous_at) fresh (s ∷ previous) in kept ++ missing_from kept fresh

  unfoldable pub has_provider : Text → List (Server A) → Bool
  unfolding text_eq
  has_provider provider servers = any (λ s. text_eq s.provider provider) servers

  abbrev pub stored : Snapshot A → ℕ
  stored e = e.stored_at

  -- The lists afterwards, and the servers if there are any.
  unfoldable pub load_list : ServerRequestKey → ℕ → Lists A → Lists A × Option (List (Server A))
  unfolding find remove same_request
  load_list key now lists = elim (find same_request key lists) [
    | none ↦ (lists, none)
    | some e ↦ elim e.expires [
      | none ↦ (lists, some e.servers)
      | some end ↦
          if ltb now end then (lists, some e.servers) else (remove same_request key lists, none)
    ]
  ]

  -- How long a list is served: shortly, where one of the two critical providers is missing.
  unfoldable pub list_ttl : ServerRequestKey → List (Server A) → ℕ
  unfolding has_provider
  list_ttl key servers =
      if not key.hentai
        && (not (has_provider (codes "kaa") servers) || not (has_provider (codes "zenbu") servers))
      then incomplete_server_list_ttl
      else server_list_stability_ttl

  unfoldable pub merged_with_known :
      ServerRequestKey → List (Server A) → ℕ → Lists A → List (Server A)
  unfolding find merge_list_snapshot same_request
  merged_with_known key servers now lists = elim (find same_request key lists) [
    | none ↦ servers
    | some e ↦ merge_list_snapshot servers e.servers e.stored_at now
  ]

  unfoldable pub room_for_list : Lists A → Lists A
  unfolding remove_oldest
  room_for_list lists =
      if leb max_server_list_snapshots (length lists)
      then remove_oldest same_request stored lists
      else lists

  unfoldable pub store_list :
      ServerRequestKey → List (Server A) → ℕ → Lists A → Lists A × List (Server A)
  unfolding merged_with_known room_for_list list_ttl put
  store_list key [] now lists = (lists, [])
  store_list key (s ∷ servers) now lists =
      let merged = merged_with_known key (s ∷ servers) now lists in
      (
        put same_request key
            (record {
              servers = merged;
              stored_at = now;
              expires = some (now + list_ttl key merged);
            })
            (room_for_list lists),
        merged,
      )

  unfoldable pub room_for_provider : Providers A → Providers A
  unfolding remove_oldest
  room_for_provider providers =
      if leb max_provider_snapshots (length providers)
      then remove_oldest same_provider_request stored providers
      else providers

  -- A snapshot that is still a fallback.
  unfoldable pub is_good : ProviderRequestKey → ℕ → Snapshot A → Bool
  unfolding provider_snapshot_ttl
  is_good key now e = leb (now - e.stored_at) (provider_snapshot_ttl key.provider)

  -- The servers of a round that found some, and whether it kept earlier ones.
  unfoldable pub retained :
      ProviderRequestKey → List (Server A) → ℕ → Providers A → List (Server A) × Bool
  unfolding find is_good merge_provider_servers same_provider_request
  retained key fresh now providers = elim (find same_provider_request key providers) [
    | none ↦ (fresh, false)
    | some e ↦
        if is_good key now e then (merge_provider_servers fresh e.servers, true) else (fresh, false)
  ]

  unfoldable pub stabilize_provider :
      ProviderRequestKey
      → List (Server A)
      → Bool
      → ℕ
      → Providers A
      → Providers A × List (Server A) × Bool
  unfolding retained room_for_provider is_good put remove find same_provider_request
  stabilize_provider key [] allow_fallback now providers =
      if not allow_fallback
      then (providers, [], false)
      else elim (find same_provider_request key providers) [
        | none ↦ (providers, [], false)
        | some e ↦
            if is_good key now e
            then (providers, e.servers, true)
            else (remove same_provider_request key providers, [], false)
      ]
  stabilize_provider key (s ∷ fresh) allow_fallback now providers =
      let out = retained key (s ∷ fresh) now providers in
      (
        put same_provider_request key (record { servers = out.0; stored_at = now; expires = none })
            (room_for_provider providers),
        out.0,
        out.1,
      )
