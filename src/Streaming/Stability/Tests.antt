-- ===== src/Streaming/Stability/Tests.antt =====
-- Runs of the lists of servers that the manager keeps.
use aniraku_backend.Streaming.Stability.Merge.{
  stabilize_provider_fallback, after_rounds, slot_survives,
}
use aniraku_backend.Streaming.Stability.File.{save_providers, load_providers_snapshot}
use aniraku_backend.Streaming.Stability.File.Restart.{load_providers_snapshot-save_providers}
use aniraku_backend.Streaming.Stability.{
  Server, SignedInt, ServerRequestKey, ProviderRequestKey, Snapshot, is_token_based,
  provider_snapshot_ttl, same_signed, same_request, same_provider_request, Providers, slot,
  has_slot, stabilize_provider,
}
use aniraku_backend.Streaming.Stability.Keys.{IsSigned, IsKey}
use aniraku_backend.Base.{
  leb, if◌then◌else◌, codes, text_eq, ℕ, ◌-◌, ◌^◌, ◌<◌, ◌≡◌, refl, true, false, ◌||◌, none, some,
  List, [], ◌∷◌, arith,
}
use aniraku_backend.Base.Tables.{find, remove}

abbrev positive : ℕ → SignedInt
positive n = record { negative = false; size = n }

abbrev asked : ServerRequestKey
asked = record { anime_id = positive 21; episode = positive 3; lang = codes "sub"; hentai = false }

abbrev by_kaa : ProviderRequestKey
by_kaa = record { request = asked; provider = codes "kaa" }

abbrev one : Server ℕ
one = record { name = codes "one"; provider = codes "kaa"; rest = 1 }

abbrev two : Server ℕ
two = record { name = codes "two"; provider = codes "kaa"; rest = 2 }

abbrev old : Snapshot ℕ
old = record { servers = one ∷ []; stored_at = 5; expires = none }

abbrev known : Providers ℕ
known = (by_kaa, old) ∷ []

positive-IsSigned : (n : ℕ) → n < 2 ^ 63 → IsSigned (positive n)
positive-IsSigned n h = record { small = h; one_zero = λ e. refl }

by_kaa-IsKey : IsKey by_kaa
by_kaa-IsKey = record {
  anime_id = positive-IsSigned 21 (omega arith);
  episode = positive-IsSigned 3 (omega arith);
  lang = refl;
}

load_providers_snapshot-save_providers_example :
    find same_provider_request by_kaa (load_providers_snapshot 9 (some (save_providers known)) [])
    ≡ (elim (find same_provider_request by_kaa known) [
      | none ↦ none
      | some v ↦
          if is_token_based (codes "kaa")
            || leb (provider_snapshot_ttl (codes "kaa")) (9 - v.stored_at)
          then none
          else some (record v { expires = none })
    ])
load_providers_snapshot-save_providers_example =
    load_providers_snapshot-save_providers 9 by_kaa known by_kaa-IsKey (by_kaa-IsKey, tt)

stabilize_provider_fallback_example :
    stabilize_provider by_kaa [] true 9 (stabilize_provider by_kaa (two ∷ []) true 7 known).0 ≡ (
      if leb (9 - 7) (provider_snapshot_ttl (codes "kaa"))
      then (
        (stabilize_provider by_kaa (two ∷ []) true 7 known).0,
        (stabilize_provider by_kaa (two ∷ []) true 7 known).1,
        true,
      )
      else (
        remove same_provider_request by_kaa (stabilize_provider by_kaa (two ∷ []) true 7 known).0,
        [],
        false,
      ))
stabilize_provider_fallback_example = stabilize_provider_fallback by_kaa two [] true 7 9 known

abbrev found_two : List (Server ℕ × List (Server ℕ) × ℕ)
found_two = (two, [], 7) ∷ (two, [], 9) ∷ []

slot_survives_example :
    (last : Snapshot ℕ) × (find same_provider_request by_kaa (after_rounds by_kaa found_two known)
      ≡ some last)
    × (has_slot (slot one) last.servers ≡ true)
unfolding find same_provider_request same_request same_signed has_slot slot text_eq
    provider_snapshot_ttl
slot_survives_example =
    slot_survives by_kaa found_two known old (slot one) refl (omega arith, (omega arith, tt)) refl
