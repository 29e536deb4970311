-- ===== src/Netguard/PublicIp/Wrapped.antt =====
-- What the guard makes of the other forms of an address.
use aniraku_backend.Base.{length, ℕ, ◌/◌, ◌≡◌, refl, ◌≢◌, ◌⊎◌, true, false, none, [], ◌∷◌, arith}
use aniraku_backend.Net.Ip.{
  Ip, to4, is_ipv6, is_loopback, is_unspecified, is_link_local_unicast, is_link_local_multicast,
  is_interface_local_multicast, is_multicast, is_private, ipv4,
}
use aniraku_backend.Netguard.PublicIp.{check, is_public_ip, is_public_ip_fixed}

-- The NAT64 form of an IPv4 address.
abbrev pub nat64 : ℕ → ℕ → ℕ → ℕ → Ip
nat64 a b c d = 0 ∷ 0x64 ∷ 0xFF ∷ 0x9B ∷ 0 ∷ 0 ∷ 0 ∷ 0 ∷ 0 ∷ 0 ∷ 0 ∷ 0 ∷ a ∷ b ∷ c ∷ d ∷ []

-- An IPv4 address wrapped by NAT64 passes the guard exactly when the bare address does.
pub is_public_ip-nat64 : (a b c d : ℕ) → is_public_ip (nat64 a b c d) ≡ is_public_ip (ipv4 a b c d)
unfolding is_loopback is_unspecified is_link_local_unicast is_link_local_multicast
    is_interface_local_multicast is_multicast is_private check
is_public_ip-nat64 a b c d = rw is_public_ip_fixed refl

to4-none : (x y : ℕ) (rest : Ip) → x ≢ 0 → length rest ≡ 14 → to4 (x ∷ y ∷ rest) ≡ none
unfolding to4
to4-none x y rest h len = ground arith

abbrev pub IsLocal : ℕ → ℕ → Type 0
IsLocal x y = (x / 2 ≡ 126) ⊎ ((x ≡ 0xFE) × (y / 64 ≡ 2)) ⊎ (x ≡ 0xFF)

ipv6_shape : (x y : ℕ) (rest : Ip) → length rest ≡ 14 → is_ipv6 (x ∷ y ∷ rest) ≡ true
ipv6_shape x y rest len = ground arith

-- No unique local, link-local or multicast IPv6 address passes: fc00::/7, fe80::/10 and ff00::/8.
pub is_public_ip_local :
    (x y : ℕ) (rest : Ip) → length rest ≡ 14 → IsLocal x y → is_public_ip (x ∷ y ∷ rest) ≡ false
unfolding is_public_ip is_link_local_unicast is_multicast is_private
is_public_ip_local x y rest len h =
    let none4 = to4-none x y rest (λ e. ground arith) len in
    ground (arith, none4, ipv6_shape x y rest len)
