-- ===== src/Proxy/Tests.antt =====
-- Runs of the proxy's host gates.
use aniraku_backend.Base.{
  Text, codes, text_eq, is_space, trim_left, trim_right, trim_space, lower, starts_with, has_suffix,
  split_from, split, digits, atoi, lookup, insert, ℕ, ◌≤◌, ◌≡◌, refl, ◌≢◌, ◌⊎◌, true, Option, none,
  [], ◌∷◌, arith,
}
use aniraku_backend.Net.Ip.{Ip}
use aniraku_backend.Proxy.Allowlist.Bounded.{IsSound, learned-IsSound}
use aniraku_backend.Proxy.Allowlist.Restart.{allowed-restart}
use aniraku_backend.Proxy.Allowlist.Trust.{learn-allowed}
use aniraku_backend.Proxy.FillLimiter.{
  limiter_default_cap, parse_fill_cap, FillLimiter, new_fill_limiter, enters, queues, Reachable,
  start, next, running-le,
}
use aniraku_backend.Proxy.Allowlist.{
  Learned, entry_live, under, ensure_dynamic_cdn_loaded, persist_dynamic_cdn_entries, restart,
  cleanup_dynamic_cdn_entries, room_for_host, trim_lower, clean, is_nuisance_proxy_host, add_all,
  proxy_cdn_suffixes, listed, allowed, is_allowed_proxy_host, is_private_literal, learn_new,
  learn_host_from_playlist,
}

abbrev plain : ℕ → ℕ
plain c = c

-- A reader that takes no literal.
abbrev no_ip : Text → Option Ip
no_ip s = none

abbrev edge : Text
edge = codes "p1.edge"

abbrev cold : Learned
cold = record { loaded = true; dynamic = []; file = none }

abbrev day : ℕ
day = 86_400_000_000_000

abbrev taught : Learned
taught = learn_host_from_playlist plain no_ip [] true edge 5 cold

subdomain_of_listed : allowed plain no_ip [] (codes "a.kwik.cx") 0 [] ≡ true
unfolding allowed listed clean trim_lower lower trim_left trim_right trim_space text_eq has_suffix
    starts_with under proxy_cdn_suffixes add_all split split_from is_space
subdomain_of_listed = refl

cold-IsSound : IsSound plain cold
cold-IsSound = record {
  live = record { distinct = tt; named = tt; bounded = omega arith; decent = tt };
  kept = tt;
}

-- `cold` holds no host, so each law is also run where one host is known.
abbrev known : Learned
known = record { loaded = true; dynamic = (edge, 5) ∷ []; file = none }

blank_edge : edge ≢ []
blank_edge e = cc

known-IsSound : IsSound plain known
unfolding is_nuisance_proxy_host clean trim_lower lower trim_left trim_right trim_space text_eq
    has_suffix starts_with under is_space
known-IsSound = record {
  live = record {
    distinct = (tt, tt);
    named = (blank_edge, tt);
    bounded = omega arith;
    decent = (refl, tt);
  };
  kept = tt;
}

learned-IsSound_example :
    IsSound plain (learn_host_from_playlist plain no_ip [] true (codes "p2.edge") 9 known)
    × IsSound plain (is_allowed_proxy_host plain no_ip [] (codes "p2.edge") 9 known).0
    × IsSound plain (cleanup_dynamic_cdn_entries 9 known)
    × IsSound plain (restart known)
learned-IsSound_example =
    learned-IsSound plain no_ip [] true (codes "p2.edge") 9 known known-IsSound

allowed-restart_example :
    allowed plain no_ip [] edge 9
      (ensure_dynamic_cdn_loaded 7 (restart (persist_dynamic_cdn_entries true known))).dynamic
    ≡ allowed plain no_ip [] edge 9 known.dynamic
allowed-restart_example = allowed-restart plain no_ip [] edge 7 9 known known-IsSound (omega arith)

learn-allowed_example :
    (allowed plain no_ip [] edge 9 cold.dynamic ≡ true) ⊎ (clean plain edge ≡ clean plain edge)
unfolding learn_host_from_playlist is_nuisance_proxy_host is_allowed_proxy_host
    ensure_dynamic_cdn_loaded learn_new is_private_literal persist_dynamic_cdn_entries room_for_host
    insert lookup entry_live allowed listed clean trim_lower lower trim_left trim_right trim_space
    text_eq has_suffix starts_with under proxy_cdn_suffixes add_all split split_from is_space
learn-allowed_example = learn-allowed plain no_ip [] true edge edge 5 9 cold cold-IsSound refl refl

abbrev one_slot : FillLimiter
one_slot = record { cap = 1; slots = 0; running = 0; waiting = 0 }

abbrev busy : FillLimiter
busy = record { cap = 1; slots = 1; running = 1; waiting = 0 }

abbrev queued : FillLimiter
queued = record { cap = 1; slots = 1; running = 1; waiting = 1 }

caps :
    (parse_fill_cap (codes " 1 ") ≡ 1)
    × (parse_fill_cap (codes "-4") ≡ 0)
    × (parse_fill_cap (codes "4x") ≡ limiter_default_cap)
    × (parse_fill_cap (codes "99999999999999999999") ≡ limiter_default_cap)
unfolding parse_fill_cap atoi digits text_eq trim_space
caps = (refl, refl, refl, refl)

one_waits : Reachable one_slot queued
one_waits =
    next busy queued (next one_slot busy start (enters (omega arith) (omega arith)))
      (queues (omega arith) refl)

running-le_example : queued.running ≤ parse_fill_cap (codes "1")
unfolding new_fill_limiter parse_fill_cap atoi digits text_eq trim_space
running-le_example = running-le (codes "1") queued one_waits (omega arith)
