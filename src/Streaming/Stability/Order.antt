-- ===== src/Streaming/Stability/Order.antt =====
-- The visible order of a request's servers from round to round, and the bounds of the two maps.
use aniraku_backend.Streaming.Stability.Requests.{same_provider_request_refl, same_request_refl}
use aniraku_backend.Base.Tables.{length-put-le, length-remove-le, length-remove_oldest}
use aniraku_backend.Base.{
  leb, if◌then◌else◌, Bool-cases, length, ℕ, ◌≤◌, ◌<◌, ap, ◌≢◌, inl, inr, Bool, ◌||◌, List, [], ◌∷◌,
  arith,
}
use aniraku_backend.Streaming.Stability.{
  Server, ServerRequestKey, ProviderRequestKey, max_server_list_snapshots, max_provider_snapshots,
  provider_snapshot_ttl, same_request, same_provider_request, Lists, Providers, slot, has_slot,
  stored, load_list, room_for_list, store_list, room_for_provider, stabilize_provider,
}

module _ {A : Type 0} where
  -- The earlier servers that keep their place: found again, or not older than their provider's results
  -- are good for.
  unfoldable pub surviving : ℕ → List (Server A) → List (Server A) → List (Server A)
  unfolding has_slot provider_snapshot_ttl
  surviving age fresh [] = []
  surviving age fresh (s ∷ previous) =
      let rest = surviving age fresh previous in
      if has_slot (slot s) fresh || leb age (provider_snapshot_ttl s.provider)
      then s ∷ rest
      else rest

  length-room_for_list :
      (lists : Lists A)
      → length lists ≤ max_server_list_snapshots
      → length (room_for_list lists) < max_server_list_snapshots
  unfolding room_for_list
  length-room_for_list lists h = elim (Bool-cases (leb max_server_list_snapshots (length lists))) [
    | inr room ↦ rw room (ground (arith, room))
    | inl full ↦
        let some_list : lists ≢ [] = λ e. ground (arith, full, ap length e) in
        let shorter = length-remove_oldest same_request same_request_refl stored lists some_list in
        rw full (omega (arith, shorter))
  ]

  length-room_for_provider :
      (providers : Providers A)
      → length providers ≤ max_provider_snapshots
      → length (room_for_provider providers) < max_provider_snapshots
  unfolding room_for_provider
  length-room_for_provider providers h =
      elim (Bool-cases (leb max_provider_snapshots (length providers))) [
        | inr room ↦ rw room (ground (arith, room))
        | inl full ↦
            let some_entry : providers ≢ [] = λ e. ground (arith, full, ap length e) in
            let shorter =
              length-remove_oldest same_provider_request same_provider_request_refl stored providers
                some_entry in
            rw full (omega (arith, shorter))
      ]

  length-store_list :
      (key : ServerRequestKey) (servers : List (Server A)) (now : ℕ) (lists : Lists A)
      → length lists ≤ max_server_list_snapshots
      → length (store_list key servers now lists).0 ≤ max_server_list_snapshots
  unfolding store_list
  length-store_list key [] now lists h = h
  length-store_list key (s ∷ servers) now lists h =
      omega (
        arith,
        length-put-le same_request key _ (room_for_list lists),
        length-room_for_list lists h,
      )

  length-stabilize_provider :
      (key : ProviderRequestKey) (servers : List (Server A)) (allow : Bool) (now : ℕ)
      (providers : Providers A)
      → length providers ≤ max_provider_snapshots
      → length (stabilize_provider key servers allow now providers).0 ≤ max_provider_snapshots
  unfolding stabilize_provider
  length-stabilize_provider key [] allow now providers h =
      ground (arith, h, length-remove-le same_provider_request key providers)
  length-stabilize_provider key (s ∷ servers) allow now providers h = omega (
    arith,
    length-put-le same_provider_request key _ (room_for_provider providers),
    length-room_for_provider providers h,
  )

  length-load_list :
      (key : ServerRequestKey) (now : ℕ) (lists : Lists A)
      → length (load_list key now lists).0 ≤ length lists
  unfolding load_list
  length-load_list key now lists = ground (arith, length-remove-le same_request key lists)

  -- No operation takes the table of lists over 256 entries or the table of providers over 2048.
  pub stability_bounds :
      (key : ServerRequestKey) (provider_key : ProviderRequestKey) (servers : List (Server A))
      (allow : Bool) (now : ℕ) (lists : Lists A) (providers : Providers A)
      → length lists ≤ max_server_list_snapshots
      → length providers ≤ max_provider_snapshots
      → (length (store_list key servers now lists).0 ≤ max_server_list_snapshots)
        × (length (load_list key now lists).0 ≤ max_server_list_snapshots)
        × (length (stabilize_provider provider_key servers allow now providers).0
            ≤ max_provider_snapshots)
  stability_bounds key provider_key servers allow now lists providers hl hp = (
    length-store_list key servers now lists hl,
    omega (arith, length-load_list key now lists),
    length-stabilize_provider provider_key servers allow now providers hp,
  )
