-- ===== src/Netguard/PublicIp.antt =====
-- `IsPublicIP` of internal/netguard/ssrf.go.
pub mod Blocks
pub mod Wrapped
use aniraku_backend.Base.{
  leb, ◌==◌, if◌then◌else◌, length, ◌≡◌, Bool, true, false, not, ◌&&◌, ◌||◌, none, some, arith,
}
use aniraku_backend.Net.Ip.{
  Ip, byte, to4, is_loopback, is_unspecified, is_link_local_unicast, is_link_local_multicast,
  is_interface_local_multicast, is_multicast, is_private, ipv4, to4-ipv4,
}

-- The ranges of IPv4 that the net package's methods leave open.
extra_v4 : Ip → Bool
extra_v4 ip4 =
    (byte ip4 0 == 100 && leb 64 (byte ip4 1) && leb (byte ip4 1) 127)
    || (byte ip4 0 == 169 && byte ip4 1 == 254)
    || byte ip4 0 == 0
    || leb 240 (byte ip4 0)

-- 64:ff9b::/96
is_nat64 : Ip → Bool
is_nat64 ip =
    length ip == 16
    && byte ip 0 == 0x00
    && byte ip 1 == 0x64
    && byte ip 2 == 0xFF
    && byte ip 3 == 0x9B
    && byte ip 4 == 0
    && byte ip 5 == 0
    && byte ip 6 == 0
    && byte ip 7 == 0
    && byte ip 8 == 0
    && byte ip 9 == 0
    && byte ip 10 == 0
    && byte ip 11 == 0

special : Ip → Bool
special ip =
    is_loopback ip
    || is_unspecified ip
    || is_link_local_unicast ip
    || is_link_local_multicast ip
    || is_interface_local_multicast ip
    || is_multicast ip

-- The body, with its call of itself as an argument.
pub check : (Ip → Bool) → Ip → Bool
unfolding extra_v4 is_nat64 special
check recur ip = if special ip then false else if is_private ip then false else elim (to4 ip) [
  | some ip4 ↦ not (extra_v4 ip4)
  | none ↦
      if is_nat64 ip then recur (ipv4 (byte ip 12) (byte ip 13) (byte ip 14) (byte ip 15)) else true
]

-- The call is on a wrapped IPv4 address, and that makes no further call.
unfoldable pub is_public_ip : Ip → Bool
unfolding check
is_public_ip ip = check (check (λ ip. false)) ip

-- So two rounds are enough: the function satisfies the source's recursive equation.
pub is_public_ip_fixed : (ip : Ip) → is_public_ip ip ≡ check is_public_ip ip
unfolding is_public_ip
is_public_ip_fixed ip = ground (arith, to4-ipv4 (byte ip 12) (byte ip 13) (byte ip 14) (byte ip 15))
