-- ===== src/Netguard/Tests.antt =====
-- Runs of the dial guard.
use aniraku_backend.Base.{
  if◌then◌else◌, any, Text, codes, text_eq, trim_space, split, ◌≡◌, refl, ◌↔◌, not, Option, none,
  some, [], ◌∷◌, arith,
}
use aniraku_backend.Net.HostPort.{
  has, split_host_port, join_host_port, split_host_port-join_host_port,
}
use aniraku_backend.Net.Ip.{Ip, ipv4}
use aniraku_backend.Netguard.PublicIp.{is_public_ip}
use aniraku_backend.Netguard.PublicIp.Blocks.{address, in_block, blocks, is_public_ip-blocks}
use aniraku_backend.Netguard.PublicIp.Wrapped.{nat64, is_public_ip-nat64}
use aniraku_backend.Netguard.Dial.{
  dial, cannot_parse, initial_bridges, parse_bridges, allowed_bridge, control_public, IsCurrent,
  Passes, control_public-dial_iff,
}

abbrev read_ip : Text → Option Ip
read_ip s =
    if text_eq s (codes "10.0.0.7")
    then some (ipv4 10 0 0 7)
    else if text_eq s (codes "8.8.8.8")
    then some (ipv4 8 8 8 8)
    else none

abbrev canonical : Text → Option Text
canonical s = some s

abbrev bridged_env : Text
bridged_env = codes " 10.0.0.7:8080 ,"

bridge_dialled :
    (control_public canonical read_ip initial_bridges bridged_env (codes "10.0.0.7:8080")).1 ≡ dial
unfolding initial_bridges control_public allowed_bridge parse_bridges split_host_port text_eq
    trim_space split is_public_ip
bridge_dialled = refl

neighbour_refused :
    (control_public canonical read_ip initial_bridges bridged_env (codes "8.8.8.8")).1
    ≡ cannot_parse
unfolding control_public split_host_port
neighbour_refused = refl

control_public-dial_iff_example :
    IsCurrent canonical
      (control_public canonical read_ip initial_bridges bridged_env (codes "10.0.0.7:8080")).0
    × (((control_public canonical read_ip initial_bridges bridged_env (codes "10.0.0.7:8080")).1
          ≡ dial)
        ↔ Passes canonical read_ip bridged_env (codes "10.0.0.7:8080"))
unfolding initial_bridges parse_bridges text_eq
control_public-dial_iff_example =
    control_public-dial_iff canonical read_ip initial_bridges bridged_env (codes "10.0.0.7:8080")
      refl

is_public_ip-blocks_example :
    (is_public_ip (172 ∷ 32 ∷ 0 ∷ 1 ∷ []) ≡ not (any (in_block (address 172 32 0 1)) blocks))
    × (is_public_ip (ipv4 172 32 0 1) ≡ not (any (in_block (address 172 32 0 1)) blocks))
is_public_ip-blocks_example =
    is_public_ip-blocks 172 32 0 1 (omega arith) (omega arith) (omega arith) (omega arith)

split_host_port-join_host_port_example :
    split_host_port (join_host_port (codes "::1") (codes "443")) ≡ some (codes "::1", codes "443")
unfolding has
split_host_port-join_host_port_example =
    split_host_port-join_host_port (codes "::1") (codes "443") refl refl refl refl refl

is_public_ip-nat64_example : is_public_ip (nat64 10 0 0 7) ≡ is_public_ip (ipv4 10 0 0 7)
is_public_ip-nat64_example = is_public_ip-nat64 10 0 0 7
