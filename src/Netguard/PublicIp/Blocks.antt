-- ===== src/Netguard/PublicIp/Blocks.antt =====
-- The guard against the registry: which IPv4 addresses pass, as CIDR blocks.
use aniraku_backend.Base.{
  ltb, leb, ◌==◌, any, ℕ, ◌+◌, ◌*◌, ◌/◌, ◌^◌, ◌<◌, ◌≡◌, Bool, not, ◌&&◌, ◌||◌, List, [], ◌∷◌, arith,
}
use aniraku_backend.Net.Ip.{
  is_loopback, is_unspecified, is_link_local_unicast, is_link_local_multicast,
  is_interface_local_multicast, is_multicast, is_private, ipv4,
}
use aniraku_backend.Netguard.PublicIp.{is_public_ip}

-- An address as a number, and a block as its first address and prefix length.
abbrev pub address : ℕ → ℕ → ℕ → ℕ → ℕ
address a b c d = a * 0x1000000 + b * 0x10000 + c * 0x100 + d

abbrev pub in_block : ℕ → ℕ × ℕ → Bool
in_block n (base, size) = leb base n && ltb n (base + size)

-- 0/8, 10/8, 100.64/10, 127/8, 169.254/16, 172.16/12, 192.168/16, 224/4 and 240/4.
abbrev pub blocks : List (ℕ × ℕ)
blocks =
    (address 0 0 0 0, 2 ^ 24)
    ∷ (address 10 0 0 0, 2 ^ 24)
    ∷ (address 100 64 0 0, 2 ^ 22)
    ∷ (address 127 0 0 0, 2 ^ 24)
    ∷ (address 169 254 0 0, 2 ^ 16)
    ∷ (address 172 16 0 0, 2 ^ 20)
    ∷ (address 192 168 0 0, 2 ^ 16)
    ∷ (address 224 0 0 0, 2 ^ 28)
    ∷ (address 240 0 0 0, 2 ^ 28)
    ∷ []

-- The tests of the source on the first two bytes, in one.
blocked : ℕ → ℕ → Bool
blocked a b =
    a == 0
    || a == 10
    || (a == 100 && leb 64 b && leb b 127)
    || a == 127
    || (a == 169 && b == 254)
    || (a == 172 && b / 16 == 1)
    || (a == 192 && b == 168)
    || leb 224 a

is_public_ip-blocked :
    (a b c d : ℕ) → a < 256 → is_public_ip (a ∷ b ∷ c ∷ d ∷ []) ≡ not (blocked a b)
unfolding is_public_ip is_loopback is_unspecified is_link_local_unicast is_link_local_multicast
    is_interface_local_multicast is_multicast is_private blocked
is_public_ip-blocked a b c d h = ground arith

is_public_ip_mapped : (a b c d : ℕ) → a < 256 → is_public_ip (ipv4 a b c d) ≡ not (blocked a b)
unfolding is_public_ip is_loopback is_unspecified is_link_local_unicast is_link_local_multicast
    is_interface_local_multicast is_multicast is_private blocked ipv4
is_public_ip_mapped a b c d h = ground arith

module _ (a b c d : ℕ) (ha : a < 256) (hb : b < 256) (hc : c < 256) (hd : d < 256) where
  octet_block : (k : ℕ) → in_block (address a b c d) (address k 0 0 0, 2 ^ 24) ≡ (a == k)
  octet_block k = ground arith

  pair_block :
      (k m : ℕ)
      → m < 256
      → in_block (address a b c d) (address k m 0 0, 2 ^ 16) ≡ (a == k && b == m)
  pair_block k m h = ground arith

  shared_block :
      in_block (address a b c d) (address 100 64 0 0, 2 ^ 22) ≡ (a == 100 && leb 64 b && leb b 127)
  shared_block = ground arith

  private_block :
      in_block (address a b c d) (address 172 16 0 0, 2 ^ 20) ≡ (a == 172 && b / 16 == 1)
  private_block = ground arith

  multicast_block :
      in_block (address a b c d) (address 224 0 0 0, 2 ^ 28) ≡ (leb 224 a && ltb a 240)
  multicast_block = ground arith

  reserved_block : in_block (address a b c d) (address 240 0 0 0, 2 ^ 28) ≡ leb 240 a
  reserved_block = ground arith

  blocked-blocks : blocked a b ≡ any (in_block (address a b c d)) blocks
  unfolding blocked
  blocked-blocks =
      rw
        (
          octet_block 0,
          octet_block 10,
          shared_block,
          octet_block 127,
          pair_block 169 254 (omega arith),
          private_block,
          pair_block 192 168 (omega arith),
          multicast_block,
          reserved_block,
        )
        (ground arith)

  -- An IPv4 address of four bytes passes the guard exactly when it lies in none of the nine
  -- reserved blocks, whether it comes as four bytes or as sixteen.
  pub is_public_ip-blocks :
      (is_public_ip (a ∷ b ∷ c ∷ d ∷ []) ≡ not (any (in_block (address a b c d)) blocks))
      × (is_public_ip (ipv4 a b c d) ≡ not (any (in_block (address a b c d)) blocks))
  is_public_ip-blocks = (
    rw (← blocked-blocks) (is_public_ip-blocked a b c d ha),
    rw (← blocked-blocks) (is_public_ip_mapped a b c d ha),
  )
