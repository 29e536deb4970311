-- ===== src/Proxy/Allowlist.antt =====
-- internal/api/v1/proxy_allowlist.go and ssrf.go, and the gates of `Proxy` and `Download` that call them.
-- Lower case outside ASCII and `net.ParseIP` are parameters, and so is the environment's list. The file
-- of learned hosts is the map that its JSON holds; `none` is a missing or corrupt one.
pub mod Bounded
pub mod Restart
pub mod Trust
use aniraku_backend.Base.{
  leb, ◌==◌, if◌then◌else◌, length, any, Text, codes, text_eq, trim_left, trim_right, trim_space,
  lower, has_suffix, split, Dict, lookup, insert, evict_oldest, retain, ℕ, ◌-◌, ◌*◌, Bool, true,
  false, not, ◌&&◌, ◌||◌, Option, none, some, List, [], ◌∷◌, ◌++◌, map,
}
use aniraku_backend.Net.Ip.{Ip}
use aniraku_backend.Netguard.PublicIp.{is_public_ip}
use aniraku_backend.Proxy.Hosts.{default_cdn_suffixes, nuisance_proxy_host_suffixes}

-- The state behind the two locks.
pub record Learned : Type 0 where
  pub loaded : Bool
  pub dynamic : Dict ℕ
  pub file : Option (Dict ℕ)

abbrev pub max_dynamic_entries : ℕ
max_dynamic_entries = 500

abbrev pub dynamic_entry_ttl : ℕ
dynamic_entry_ttl = 24 * 3_600_000_000_000

abbrev pub added_at : ℕ → ℕ
added_at t = t

unfoldable pub entry_live : Text → ℕ → Dict ℕ → Bool
entry_live host now m = elim (lookup host m) [
  | none ↦ false
  | some at ↦ leb (now - at) dynamic_entry_ttl
]

-- `host == s || strings.HasSuffix(host, "."+s)`
unfoldable pub under : Text → Text → Bool
under host s = text_eq host s || has_suffix host (b'.' ∷ s)

-- A turn of the loop of `ensureDynamicCDNLoaded`, where there is room.
unfoldable pub add_saved : ℕ → Text → ℕ → Dict ℕ → Dict ℕ
add_saved now host at m =
    if not (text_eq host []) && leb (now - at) dynamic_entry_ttl
    then elim (lookup host m) [ none ↦ insert host at m | some t ↦ m ]
    else m

-- The loop over the saved hosts.
unfoldable pub restore : ℕ → Dict ℕ → Dict ℕ → Dict ℕ
unfolding add_saved
restore now m [] = m
restore now m ((host, at) ∷ saved) =
    let rest = restore now (add_saved now host at m) saved in
    if leb max_dynamic_entries (length m) then m else rest

unfoldable pub ensure_dynamic_cdn_loaded : ℕ → Learned → Learned
unfolding restore
ensure_dynamic_cdn_loaded now s = if s.loaded then s else record s {
  loaded = true;
  dynamic = elim s.file [ none ↦ s.dynamic | some saved ↦ restore now s.dynamic saved ];
}

-- `writable` is whether the disk takes the file.
unfoldable pub persist_dynamic_cdn_entries : Bool → Learned → Learned
persist_dynamic_cdn_entries writable s = if writable then record s { file = some s.dynamic } else s

-- The process starts again with the file it left.
unfoldable pub restart : Learned → Learned
restart s = record { loaded = false; dynamic = []; file = s.file }

unfoldable pub cleanup_dynamic_cdn_entries : ℕ → Learned → Learned
cleanup_dynamic_cdn_entries now s = record s {
  dynamic = retain (λ at. leb (now - at) dynamic_entry_ttl) s.dynamic;
}

unfoldable pub room_for_host : Dict ℕ → Dict ℕ
room_for_host m = if leb max_dynamic_entries (length m) then evict_oldest added_at m else m

module _ (lower_other : ℕ → ℕ) where
  unfoldable pub trim_lower : Text → Text
  unfolding lower
  trim_lower s = map (lower lower_other) (trim_space s)

  -- The host as each gate reads it.
  unfoldable pub clean : Text → Text
  unfolding trim_lower
  clean host =
      let brackets : ℕ → Bool = λ c. c == b'[' || c == b']' in
      trim_right brackets (trim_left brackets (trim_lower host))

  unfoldable pub is_nuisance_proxy_host : Text → Bool
  unfolding clean under
  is_nuisance_proxy_host host =
      let host = clean host in
      if text_eq host []
      then false
      else any (λ s. under host (codes s)) nuisance_proxy_host_suffixes

  -- The loop of `add` over a list.
  unfoldable pub add_all : List Text → List Text → List Text
  unfolding trim_lower
  add_all list [] = list
  add_all list (v ∷ vs) =
      let v = trim_lower v in
      add_all (if text_eq v [] || any (text_eq v) list then list else list ++ v ∷ []) vs

  -- The list, for a value of ANIRAKU_PROXY_CDN_ALLOWLIST.
  unfoldable pub proxy_cdn_suffixes : Text → List Text
  unfolding add_all
  proxy_cdn_suffixes env =
      add_all (add_all [] (map (λ s. codes s) default_cdn_suffixes)) (split b',' env)

  module _ (parse_ip : Text → Option Ip) (env : Text) where
    -- The two loops over the static list.
    unfoldable pub listed : Text → Bool
    unfolding under proxy_cdn_suffixes
    listed host = elim (parse_ip host) [
      | some ip ↦ any (text_eq host) (proxy_cdn_suffixes env)
      | none ↦ any (under host) (proxy_cdn_suffixes env)
    ]

    -- `isAllowedProxyHost`, once the file is loaded.
    unfoldable pub allowed : Text → ℕ → Dict ℕ → Bool
    unfolding clean listed entry_live
    allowed host now m =
        let host = clean host in
        if text_eq host [] then false else if listed host then true else entry_live host now m

    unfoldable pub is_allowed_proxy_host : Text → ℕ → Learned → Learned × Bool
    unfolding allowed ensure_dynamic_cdn_loaded
    is_allowed_proxy_host host now s =
        let s = ensure_dynamic_cdn_loaded now s in (s, allowed host now s.dynamic)

    -- `ip != nil && !netguard.IsPublicIP(ip)`
    unfoldable pub is_private_literal : Text → Bool
    is_private_literal host = elim (parse_ip host) [
      | none ↦ false
      | some ip ↦ not (is_public_ip ip)
    ]

    -- `LearnHostFromPlaylist` after its test of the host that is not allowed yet.
    unfoldable pub learn_new : Bool → Text → ℕ → Learned → Learned
    unfolding is_private_literal room_for_host persist_dynamic_cdn_entries
    learn_new writable host now s =
        if is_private_literal host
        then s
        else persist_dynamic_cdn_entries writable
            (record s { dynamic = insert host now (room_for_host s.dynamic) })

    unfoldable pub learn_host_from_playlist : Bool → Text → ℕ → Learned → Learned
    unfolding clean is_nuisance_proxy_host is_allowed_proxy_host learn_new
    learn_host_from_playlist writable host now s =
        let host = clean host in
        let checked = is_allowed_proxy_host host now s in
        if text_eq host [] || is_nuisance_proxy_host host
        then s
        else if checked.1
        then checked.0
        else learn_new writable host now checked.0

    -- `validateProxyTarget(host) == nil`
    unfoldable pub validate_proxy_target : Text → Bool
    unfolding trim_lower is_private_literal
    validate_proxy_target host =
        let host = trim_lower host in
        let brackets : ℕ → Bool = λ c. c == b'[' || c == b']' in
        let bare = trim_right brackets (trim_left brackets host) in
        if text_eq host []
        then false
        else if any (text_eq bare)
            (codes "localhost" ∷ codes "metadata.google.internal" ∷ codes "metadata.goog" ∷ [])
        then false
        else if has_suffix bare (codes ".localhost") || has_suffix bare (codes ".internal")
        then false
        else not (is_private_literal bare)

    -- The host tests that `Proxy` and `Download` share: whether the fetch goes on.
    unfoldable pub gate : Text → ℕ → Learned → Learned × Bool
    unfolding is_nuisance_proxy_host validate_proxy_target is_allowed_proxy_host
    gate host now s =
        if is_nuisance_proxy_host host
        then (s, false)
        else if not (validate_proxy_target host)
        then (s, false)
        else is_allowed_proxy_host host now s

    -- `host := strings.ToLower(parsed.Hostname())` before them.
    unfoldable pub host_gate : Text → ℕ → Learned → Learned × Bool
    unfolding gate
    host_gate hostname now s = gate (map (lower lower_other) hostname) now s
