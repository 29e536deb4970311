-- ===== src/Proxy/Allowlist/Bounded.antt =====
-- The bounds of the hosts that the proxy learns (internal/api/v1/proxy_allowlist.go).
use aniraku_backend.Base.{
  leb, if◌then◌else◌, Bool-cases, length, All, Text, text_eq, text_eq_iff, Dict, insert, IsDict,
  All-insert, insert-IsDict, length-insert-le, retain, evict_oldest-IsDict, All-evict_oldest,
  evict_oldest_lem, All-retain, retain-IsDict, length-retain-le, ℕ, ◌-◌, ◌≤◌, ◌<◌, ◌≡◌, refl, ◌≢◌,
  inl, inr, Bool, true, false, ◌||◌, Option, none, some, [], ◌∷◌, arith,
}
use aniraku_backend.Net.Ip.{Ip}
use aniraku_backend.Proxy.Allowlist.{
  Learned, max_dynamic_entries, dynamic_entry_ttl, added_at, add_saved, restore,
  ensure_dynamic_cdn_loaded, persist_dynamic_cdn_entries, restart, cleanup_dynamic_cdn_entries,
  room_for_host, clean, is_nuisance_proxy_host, is_allowed_proxy_host, is_private_literal,
  learn_new, learn_host_from_playlist,
}

pub nonempty : (m : Dict ℕ) → leb max_dynamic_entries (length m) ≡ true → m ≢ []
nonempty m full e = ground arith

module _ (lower_other : ℕ → ℕ) where
  -- Distinct, non-empty hosts, at most 500 of them, none of them on the nuisance list.
  pub record IsValid (m : Dict ℕ) : Type 0 where
    pub distinct : IsDict m
    pub named : All (λ (e : Text × ℕ). e.0 ≢ []) m
    pub bounded : length m ≤ max_dynamic_entries
    pub decent : All (λ (e : Text × ℕ). is_nuisance_proxy_host lower_other e.0 ≡ false) m

  abbrev pub Saved : Option (Dict ℕ) → Type 0
  Saved none = Unit {0}
  Saved (some m) = IsValid m

  insert-IsValid :
      (host : Text) (at : ℕ) (m : Dict ℕ)
      → IsValid m
      → host ≢ []
      → is_nuisance_proxy_host lower_other host ≡ false
      → length m < max_dynamic_entries
      → IsValid (insert host at m)
  insert-IsValid host at m v named decent room = record {
    distinct = insert-IsDict host at m v.distinct;
    named = All-insert (λ (e : Text × ℕ). e.0 ≢ []) host at m v.named named;
    bounded = omega (arith, length-insert-le host at m, room);
    decent =
        All-insert (λ (e : Text × ℕ). is_nuisance_proxy_host lower_other e.0 ≡ false) host at m
          v.decent decent;
  }

  length-room_for_host-lt :
      (m : Dict ℕ) → IsValid m → length (room_for_host m) < max_dynamic_entries
  unfolding room_for_host
  length-room_for_host-lt m v = elim (Bool-cases (leb max_dynamic_entries (length m))) [
    | inl full ↦
        let (_, _, _, _, _, shorter) =
          evict_oldest_lem added_at m v.distinct v.named (nonempty m full) in
        rw full (ground arith)
    | inr room ↦ rw room (ground arith)
  ]

  room_for_host-IsValid : (m : Dict ℕ) → IsValid m → IsValid (room_for_host m)
  unfolding room_for_host
  room_for_host-IsValid m v = elim (Bool-cases (leb max_dynamic_entries (length m))) [
    | inl full ↦ rw full (record {
      distinct = evict_oldest-IsDict added_at m v.distinct;
      named = All-evict_oldest (λ (e : Text × ℕ). e.0 ≢ []) added_at m v.named;
      bounded = ground (arith, length-room_for_host-lt m v, full);
      decent =
          All-evict_oldest (λ (e : Text × ℕ). is_nuisance_proxy_host lower_other e.0 ≡ false)
            added_at m v.decent;
    })
    | inr room ↦ rw room v
  ]

  add_saved-IsValid :
      (now : ℕ) (host : Text) (at : ℕ) (m : Dict ℕ)
      → IsValid m
      → is_nuisance_proxy_host lower_other host ≡ false
      → length m < max_dynamic_entries
      → IsValid (add_saved now host at m)
  unfolding add_saved
  add_saved-IsValid now host at m v h room = elim (Bool-cases (text_eq host [])) [
    | inl blank ↦ rw blank v
    | inr named ↦ ground (
      arith,
      v,
      insert-IsValid host at m v (λ e. ground (arith, named, e, text_eq_iff host [])) h room,
    )
  ]

  restore-IsValid :
      (now : ℕ) (m saved : Dict ℕ)
      → IsValid m
      → All (λ (e : Text × ℕ). is_nuisance_proxy_host lower_other e.0 ≡ false) saved
      → IsValid (restore now m saved)
  unfolding restore
  restore-IsValid now m [] v h = v
  restore-IsValid now m ((host, at) ∷ saved) v h =
      elim (Bool-cases (leb max_dynamic_entries (length m))) [
        | inl full ↦ rw full v
        | inr room ↦ rw room (
            restore-IsValid now (add_saved now host at m) saved
              (add_saved-IsValid now host at m v h.0 (ground (arith, room))) h.1)
      ]

  empty-IsValid : IsValid []
  empty-IsValid = record { distinct = _; named = _; bounded = omega arith; decent = _ }

  -- The learned hosts and the file that keeps them.
  pub record IsSound (s : Learned) : Type 0 where
    pub live : IsValid s.dynamic
    pub kept : Saved s.file

  load-IsValid :
      (now : ℕ) (file : Option (Dict ℕ)) (m : Dict ℕ)
      → Saved file
      → IsValid m
      → IsValid (elim file [ none ↦ m | some saved ↦ restore now m saved ])
  load-IsValid now none m k v = v
  load-IsValid now (some saved) m k v = restore-IsValid now m saved v k.decent

  if-IsSound :
      (b : Bool) (s r : Learned)
      → (b ≡ true → IsSound s)
      → (b ≡ false → IsSound r)
      → IsSound (if b then s else r)
  if-IsSound true s r h k = h refl
  if-IsSound false s r h k = k refl

  ensure-IsSound : (now : ℕ) (s : Learned) → IsSound s → IsSound (ensure_dynamic_cdn_loaded now s)
  unfolding ensure_dynamic_cdn_loaded
  ensure-IsSound now s v =
      if-IsSound s.loaded s _ (λ _. v)
        (λ _. record { live = load-IsValid now s.file s.dynamic v.kept v.live; kept = v.kept })

  All-kept {κ} :
      (P : Text × ℕ → Type κ) (now : ℕ) (m : Dict ℕ)
      → All P m
      → All P (retain (λ at. leb (now - at) dynamic_entry_ttl) m)
  All-kept P now m h = All-retain P (λ at. leb (now - at) dynamic_entry_ttl) m h

  cleanup-IsSound :
      (now : ℕ) (s : Learned) → IsSound s → IsSound (cleanup_dynamic_cdn_entries now s)
  unfolding cleanup_dynamic_cdn_entries
  cleanup-IsSound now s v = record {
    live = record {
      distinct = retain-IsDict (λ at. leb (now - at) dynamic_entry_ttl) s.dynamic v.live.distinct;
      named = All-kept (λ (e : Text × ℕ). e.0 ≢ []) now s.dynamic v.live.named;
      bounded = omega (
        arith,
        length-retain-le (λ (at : ℕ). leb (now - at) dynamic_entry_ttl) s.dynamic,
        v.live.bounded,
      );
      decent =
          All-kept (λ (e : Text × ℕ). is_nuisance_proxy_host lower_other e.0 ≡ false) now s.dynamic
            v.live.decent;
    };
    kept = v.kept;
  }

  persist-IsSound :
      (writable : Bool) (s : Learned) → IsSound s → IsSound (persist_dynamic_cdn_entries writable s)
  unfolding persist_dynamic_cdn_entries
  persist-IsSound true s v = record { live = v.live; kept = v.live }
  persist-IsSound false s v = v

  module _ (parse_ip : Text → Option Ip) (env : Text) where
    checked-IsSound :
        (host : Text) (now : ℕ) (s : Learned)
        → IsSound s
        → IsSound (is_allowed_proxy_host lower_other parse_ip env host now s).0
    unfolding is_allowed_proxy_host
    checked-IsSound host now s v = ensure-IsSound now s v

    learn_new-IsSound :
        (writable : Bool) (host : Text) (now : ℕ) (s : Learned)
        → IsSound s
        → text_eq host [] ≡ false
        → is_nuisance_proxy_host lower_other host ≡ false
        → IsSound (learn_new lower_other parse_ip env writable host now s)
    unfolding learn_new
    learn_new-IsSound writable host now s v named decent =
        if-IsSound (is_private_literal lower_other parse_ip env host) s _ (λ _. v)
          (λ _. persist-IsSound writable _ (record {
            live =
                insert-IsValid host now (room_for_host s.dynamic)
                  (room_for_host-IsValid s.dynamic v.live)
                  (λ e. ground (arith, named, e, text_eq_iff host [])) decent
                  (length-room_for_host-lt s.dynamic v.live);
            kept = v.kept;
          }))

    learn-IsSound :
        (writable : Bool) (host : Text) (now : ℕ) (s : Learned)
        → IsSound s
        → IsSound (learn_host_from_playlist lower_other parse_ip env writable host now s)
    unfolding learn_host_from_playlist
    learn-IsSound writable host now s v =
        let bare = clean lower_other host in
        elim (Bool-cases (text_eq bare [] || is_nuisance_proxy_host lower_other bare)) [
          | inl refused ↦ rw refused v
          | inr fine ↦
              let checked = is_allowed_proxy_host lower_other parse_ip env bare now s in
              let sound = checked-IsSound bare now s v in
              rw fine (
                if-IsSound checked.1 checked.0 _ (λ _. sound)
                  (λ _.
                    learn_new-IsSound writable bare now checked.0 sound (ground (arith, fine))
                      (ground (arith, fine))))
        ]

    -- The hosts that the proxy learns, and the file that keeps them, stay within their bounds
    -- through every operation: distinct, non-empty hosts, at most 500, none of them on the nuisance
    -- list.
    pub learned-IsSound :
        (writable : Bool) (host : Text) (now : ℕ) (s : Learned)
        → IsSound s
        → IsSound (learn_host_from_playlist lower_other parse_ip env writable host now s)
          × IsSound (is_allowed_proxy_host lower_other parse_ip env host now s).0
          × IsSound (cleanup_dynamic_cdn_entries now s)
          × IsSound (restart s)
    unfolding restart
    learned-IsSound writable host now s v = (
      learn-IsSound writable host now s v,
      checked-IsSound host now s v,
      cleanup-IsSound now s v,
      record { live = empty-IsValid; kept = v.kept },
    )
