-- ===== src/Net/Ip.antt =====
-- `net.IP`: four or sixteen bytes, and the classes of addresses that its methods tell apart. A mask
-- such as `x & 0xc0 == 0x80` on a byte is written as the quotient that it fixes.
use Prim.Native.Nat.{bit_and}
use aniraku_backend.Base.{
  ◌==◌, if◌then◌else◌, length, take, drop, get_elem?, ℕ, ◌/◌, ◌%◌, ◌≡◌, refl, Bool, true, false,
  ◌&&◌, ◌||◌, Option, none, some, List, [], ◌∷◌,
}

abbrev pub Ip : Type 0
Ip = List ℕ

-- `ip[i]`; the callers index within the length that they have tested.
unfoldable pub byte : Ip → ℕ → ℕ
byte ip i = elim (get_elem? ip i) [ none ↦ 0 | some b ↦ b ]

zeros : Ip → Bool
zeros [] = true
zeros (b ∷ ip) = b == 0 && zeros ip

-- `ip.To4()`
unfoldable pub to4 : Ip → Option Ip
unfolding zeros byte
to4 ip =
    if length ip == 4
    then some ip
    else if length ip == 16 && zeros (take 10 ip) && byte ip 10 == 255 && byte ip 11 == 255
    then some (drop 12 ip)
    else none

abbrev pub is_ipv6 : Ip → Bool
is_ipv6 ip = length ip == 16

-- A method by its answers on four bytes and on the rest.
abbrev by_kind : (Ip → Bool) → (Ip → Bool) → Ip → Bool
by_kind four other ip = elim (to4 ip) [ none ↦ other ip | some ip4 ↦ four ip4 ]

unfoldable pub is_loopback : Ip → Bool
unfolding to4 byte zeros
is_loopback =
    by_kind (λ ip4. byte ip4 0 == 127) (λ ip. is_ipv6 ip && zeros (take 15 ip) && byte ip 15 == 1)

unfoldable pub is_unspecified : Ip → Bool
unfolding to4 byte zeros
is_unspecified = by_kind (λ ip4. zeros ip4) (λ ip. is_ipv6 ip && zeros ip)

unfoldable pub is_link_local_unicast : Ip → Bool
unfolding to4 byte
is_link_local_unicast =
    by_kind (λ ip4. byte ip4 0 == 169 && byte ip4 1 == 254)
      (λ ip. is_ipv6 ip && byte ip 0 == 0xFE && byte ip 1 / 64 == 2)

unfoldable pub is_link_local_multicast : Ip → Bool
unfolding to4 byte
is_link_local_multicast =
    by_kind (λ ip4. byte ip4 0 == 224 && byte ip4 1 == 0 && byte ip4 2 == 0)
      (λ ip. is_ipv6 ip && byte ip 0 == 0xFF && byte ip 1 % 16 == 2)

unfoldable pub is_interface_local_multicast : Ip → Bool
unfolding byte
is_interface_local_multicast ip = is_ipv6 ip && byte ip 0 == 0xFF && byte ip 1 % 16 == 1

unfoldable pub is_multicast : Ip → Bool
unfolding to4 byte
is_multicast = by_kind (λ ip4. byte ip4 0 / 16 == 14) (λ ip. is_ipv6 ip && byte ip 0 == 0xFF)

unfoldable pub is_private : Ip → Bool
unfolding to4 byte
is_private =
    by_kind
      (λ ip4.
        byte ip4 0 == 10
        || (byte ip4 0 == 172 && byte ip4 1 / 16 == 1)
        || (byte ip4 0 == 192 && byte ip4 1 == 168))
      (λ ip. is_ipv6 ip && byte ip 0 / 2 == 126)

-- `net.IPv4(a, b, c, d)`: the sixteen-byte form.
unfoldable pub ipv4 : ℕ → ℕ → ℕ → ℕ → Ip
ipv4 a b c d = 0 ∷ 0 ∷ 0 ∷ 0 ∷ 0 ∷ 0 ∷ 0 ∷ 0 ∷ 0 ∷ 0 ∷ 255 ∷ 255 ∷ a ∷ b ∷ c ∷ d ∷ []

pub to4-four : (a b c d : ℕ) → to4 (a ∷ b ∷ c ∷ d ∷ []) ≡ some (a ∷ b ∷ c ∷ d ∷ [])
unfolding to4
to4-four a b c d = refl

pub to4-ipv4 : (a b c d : ℕ) → to4 (ipv4 a b c d) ≡ some (a ∷ b ∷ c ∷ d ∷ [])
unfolding to4 ipv4
to4-ipv4 a b c d = refl

-- `net.IPNet` as `ParseCIDR` makes it: a network number and a mask of the same length.
pub record IpNet : Type 0 where
  pub number : Ip
  pub mask : Ip

same_network : Ip → Ip → Ip → Bool
same_network [] [] [] = true
same_network (a ∷ number) (m ∷ mask) (b ∷ ip) =
    bit_and a m == bit_and b m && same_network number mask ip
same_network _ _ _ = false

-- `n.Contains(ip)`
unfoldable pub contains_ip : IpNet → Ip → Bool
unfolding same_network to4
contains_ip n ip = same_network n.number n.mask (elim (to4 ip) [ none ↦ ip | some ip4 ↦ ip4 ])
