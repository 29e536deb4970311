-- ===== src/Middleware/RealIp.antt =====
-- internal/api/middleware/realip.go. `net.ParseIP` and `net.ParseCIDR` are parameters: what is proved
-- holds for every way to read an address.
pub mod Spoofing
pub mod Tests
use aniraku_backend.Base.{
  ltb, if◌then◌else◌, length, any, Text, text_eq, trim_space, split, Bool, false, not, ◌&&◌, Option,
  none, some, List, [], ◌∷◌,
}
use aniraku_backend.Net.HostPort.{split_host_port, join_host_port}
use aniraku_backend.Net.Ip.{Ip, IpNet, contains_ip}
use mathlib.Core.List.{reverse}

-- The entries of ANIRAKU_TRUSTED_PROXY_CIDRS that parse.
parse_entries : (Text → Option IpNet) → List Text → List IpNet
parse_entries parse_cidr [] = []
parse_entries parse_cidr (c ∷ cs) =
    let rest = parse_entries parse_cidr cs in
    let entry = trim_space c in
    if text_eq entry [] then rest else elim (parse_cidr entry) [ none ↦ rest | some n ↦ n ∷ rest ]

pub trusted_proxy_cidrs : (Text → Option IpNet) → Text → List IpNet
unfolding parse_entries split trim_space
trusted_proxy_cidrs parse_cidr env = parse_entries parse_cidr (split b',' env)

-- The host of `r.RemoteAddr`, or all of it where it does not split.
unfoldable pub peer_of : Text → Text
peer_of remote = elim (split_host_port remote) [ none ↦ remote | some (host, port) ↦ host ]

module _ (parse_ip : Text → Option Ip) (trusted : List IpNet) where
  unfoldable pub is_trusted : Ip → Bool
  is_trusted ip = any (λ n. contains_ip n ip) trusted

  unfoldable pub peer_trusted : Text → Bool
  unfolding is_trusted
  peer_trusted peer = elim (parse_ip peer) [ none ↦ false | some ip ↦ is_trusted ip ]

  -- An entry at which the loop stops: one that parses and is no trusted proxy.
  unfoldable pub names_client : Text → Bool
  unfolding is_trusted
  names_client entry =
      let ip = trim_space entry in
      if text_eq ip []
      then false
      else elim (parse_ip ip) [ none ↦ false | some parsed ↦ not (is_trusted parsed) ]

  -- The loop over the entries from the right; without a stop the peer stays.
  unfoldable pub rightmost : Text → List Text → Text
  unfolding names_client
  rightmost peer [] = peer
  rightmost peer (entry ∷ entries) =
      let rest = rightmost peer entries in if names_client entry then trim_space entry else rest

  unfoldable pub forwarded : Text → Text → Text
  unfolding rightmost peer_trusted
  forwarded peer xff =
      if ltb 0 (length trusted) && peer_trusted peer && not (text_eq xff [])
      then rightmost peer (reverse (split b',' xff))
      else peer

  -- The new `r.RemoteAddr`, from the old one and the X-Forwarded-For header.
  unfoldable pub real_ip : Text → Text → Text
  unfolding peer_of forwarded
  real_ip remote xff =
      let peer = forwarded (peer_of remote) xff in
      if text_eq peer [] then remote else join_host_port peer (b'0' ∷ [])
