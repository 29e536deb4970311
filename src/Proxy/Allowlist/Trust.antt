-- ===== src/Proxy/Allowlist/Trust.antt =====
-- How far a playlist's word widens what the proxy may fetch.
use aniraku_backend.Base.{
  leb, if◌then◌else◌, Bool-cases, length, All, Text, text_eq, text_eq_iff, text_eq_refl, lower,
  Dict, insert, IsDict, lookup-delete, evict_oldest_lem, ℕ, ◌+◌, ◌≤◌, ◌≡◌, ap, subst, ◌∙◌, ◌≢◌, ◌⊎◌,
  inl, inr, Bool, true, false, ◌||◌, Option, [], map, arith,
}
use aniraku_backend.Net.Ip.{Ip}
use aniraku_backend.Proxy.Allowlist.{
  Learned, max_dynamic_entries, dynamic_entry_ttl, added_at, entry_live, ensure_dynamic_cdn_loaded,
  persist_dynamic_cdn_entries, room_for_host, clean, is_nuisance_proxy_host, allowed,
  is_allowed_proxy_host, is_private_literal, learn_new, learn_host_from_playlist,
  validate_proxy_target, gate, host_gate,
}
use aniraku_backend.Proxy.Allowlist.Restart.{entry_live-insert}
use aniraku_backend.Proxy.Allowlist.Bounded.{nonempty, IsSound}

entry_live-room_for_host :
    (host : Text) (now : ℕ) (m : Dict ℕ)
    → IsDict m
    → All (λ (e : Text × ℕ). e.0 ≢ []) m
    → entry_live host now (room_for_host m) ≡ true
    → entry_live host now m ≡ true
unfolding entry_live room_for_host
entry_live-room_for_host host now m d named h =
    elim (Bool-cases (leb max_dynamic_entries (length m))) [
      | inl full ↦
          let (k, _, gone, _, _, _) = evict_oldest_lem added_at m d named (nonempty m full) in
          ground (arith, full, gone, lookup-delete k host m, h)
      | inr room ↦ ground (arith, room, h)
    ]

entry_live_added :
    (host : Text) (now later : ℕ) (m : Dict ℕ)
    → later ≤ now + dynamic_entry_ttl
    → entry_live host later (insert host now m) ≡ true
entry_live_added host now later m k =
    rw (entry_live-insert host host now later m, text_eq_refl host) (ground (arith, k))

module _ (lower_other : ℕ → ℕ) (parse_ip : Text → Option Ip) (env : Text) where
  learned_hosts : Text → ℕ → Dict ℕ → Dict ℕ
  learned_hosts bare now m =
      if text_eq bare []
        || is_nuisance_proxy_host lower_other bare
        || allowed lower_other parse_ip env bare now m
        || is_private_literal lower_other parse_ip env bare
      then m
      else insert bare now (room_for_host m)

  learn_dynamic :
      (writable : Bool) (host : Text) (now : ℕ) (s : Learned)
      → s.loaded ≡ true
      → (learn_host_from_playlist lower_other parse_ip env writable host now s).dynamic
        ≡ learned_hosts (clean lower_other host) now s.dynamic
  unfolding learn_host_from_playlist is_allowed_proxy_host learn_new persist_dynamic_cdn_entries
      ensure_dynamic_cdn_loaded learned_hosts
  learn_dynamic writable host now s done = ground (arith, done)

  learned-allowed :
      (bare other : Text) (now later : ℕ) (m : Dict ℕ)
      → IsDict m
      → All (λ (e : Text × ℕ). e.0 ≢ []) m
      → allowed lower_other parse_ip env other later (learned_hosts bare now m) ≡ true
      → (allowed lower_other parse_ip env other later m ≡ true) ⊎ (clean lower_other other ≡ bare)
  unfolding allowed learned_hosts
  learned-allowed bare other now later m d named h = ground (
    arith,
    h,
    entry_live-insert (clean lower_other other) bare now later (room_for_host m),
    entry_live-room_for_host (clean lower_other other) later m d named,
    text_eq_iff bare (clean lower_other other),
  )

  -- Once the file is loaded and the learned hosts are sound, what a playlist's word allows that was
  -- not allowed is nothing but the host that it names: never a subdomain of it or another host.
  pub learn-allowed :
      (writable : Bool) (host other : Text) (now later : ℕ) (s : Learned)
      → IsSound lower_other s
      → s.loaded ≡ true
      → allowed lower_other parse_ip env other later
          (learn_host_from_playlist lower_other parse_ip env writable host now s).dynamic
        ≡ true
      → (allowed lower_other parse_ip env other later s.dynamic ≡ true)
        ⊎ (clean lower_other other ≡ clean lower_other host)
  learn-allowed writable host other now later s v done h =
      learned-allowed (clean lower_other host) other now later s.dynamic v.live.distinct
        v.live.named
        (subst (λ (m : Dict ℕ). allowed lower_other parse_ip env other later m ≡ true)
          (learn_dynamic writable host now s done) h)

  learn_loaded :
      (writable : Bool) (host : Text) (now : ℕ) (s : Learned)
      → s.loaded ≡ true
      → (learn_host_from_playlist lower_other parse_ip env writable host now s).loaded ≡ true
  unfolding learn_host_from_playlist is_allowed_proxy_host learn_new persist_dynamic_cdn_entries
      ensure_dynamic_cdn_loaded
  learn_loaded writable host now s done = ground (arith, done)

  gate_loaded :
      (host : Text) (later : ℕ) (s : Learned)
      → s.loaded ≡ true
      → is_nuisance_proxy_host lower_other host ≡ false
      → validate_proxy_target lower_other parse_ip env host ≡ true
      → (gate lower_other parse_ip env host later s).1
        ≡ allowed lower_other parse_ip env host later s.dynamic
  unfolding gate is_allowed_proxy_host ensure_dynamic_cdn_loaded
  gate_loaded host later s done decent valid = ground (arith, done, decent, valid)

  public_literal :
      (host : Text)
      → validate_proxy_target lower_other parse_ip env host ≡ true
      → is_private_literal lower_other parse_ip env (clean lower_other host) ≡ false
  unfolding validate_proxy_target clean
  public_literal host valid = ground (arith, valid)

  learned_hosts_new :
      (host : Text) (now : ℕ) (m : Dict ℕ)
      → host ≢ []
      → is_nuisance_proxy_host lower_other host ≡ false
      → allowed lower_other parse_ip env host now m ≡ false
      → is_private_literal lower_other parse_ip env host ≡ false
      → learned_hosts host now m ≡ insert host now (room_for_host m)
  unfolding learned_hosts
  learned_hosts_new host now m named decent new literal =
      ground (arith, text_eq_iff host [], named, decent, new, literal)

  allowed_live :
      (host : Text) (later : ℕ) (m : Dict ℕ)
      → text_eq (clean lower_other host) [] ≡ false
      → entry_live (clean lower_other host) later m ≡ true
      → allowed lower_other parse_ip env host later m ≡ true
  unfolding allowed
  allowed_live host later m named live = ground (arith, named, live)

  allowed-insert :
      (host : Text) (now later : ℕ) (m : Dict ℕ)
      → clean lower_other host ≡ host
      → host ≢ []
      → later ≤ now + dynamic_entry_ttl
      → allowed lower_other parse_ip env host later (insert host now m) ≡ true
  allowed-insert host now later m bare named k =
      allowed_live host later (insert host now m)
        (rw bare (ground (arith, named, text_eq_iff host [])))
        (rw bare (entry_live_added host now later m k))

  -- Once the file is loaded, a host that is not allowed yet and that neither the nuisance list nor
  -- `validateProxyTarget` refuses passes the proxy's gate, when a playlist has named it, for as
  -- long as an entry lives; the host is not empty and is as gate and learner read it, in lower case
  -- with no brackets.
  pub learn-host_gate :
      (writable : Bool) (host : Text) (now later : ℕ) (s : Learned)
      → s.loaded ≡ true
      → allowed lower_other parse_ip env host now s.dynamic ≡ false
      → clean lower_other host ≡ host
      → map (lower lower_other) host ≡ host
      → host ≢ []
      → is_nuisance_proxy_host lower_other host ≡ false
      → validate_proxy_target lower_other parse_ip env host ≡ true
      → later ≤ now + dynamic_entry_ttl
      → (host_gate lower_other parse_ip env host later
          (learn_host_from_playlist lower_other parse_ip env writable host now s)).1
        ≡ true
  unfolding host_gate
  learn-host_gate writable host now later s done new bare low named decent valid k =
      let after = learn_host_from_playlist lower_other parse_ip env writable host now s in
      let literal =
        subst (λ (x : Text). is_private_literal lower_other parse_ip env x ≡ false) bare
          (public_literal host valid) in
      ap (λ (x : Text). (gate lower_other parse_ip env x later after).1) low
      ∙ gate_loaded host later after (learn_loaded writable host now s done) decent valid
      ∙ ap (allowed lower_other parse_ip env host later) (
          learn_dynamic writable host now s done
          ∙ ap (λ (x : Text). learned_hosts x now s.dynamic) bare
          ∙ learned_hosts_new host now s.dynamic named decent new literal)
      ∙ allowed-insert host now later (room_for_host s.dynamic) bare named k
