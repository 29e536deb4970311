-- ===== src/Middleware/RealIp/Tests.antt =====
-- Runs of the client address.
use aniraku_backend.Base.{
  if◌then◌else◌, Text, codes, text_eq, trim_space, split, ◌≡◌, refl, Option, none, some, List, [],
  ◌∷◌, ◌++◌,
}
use aniraku_backend.Net.HostPort.{split_host_port, join_host_port}
use aniraku_backend.Net.Ip.{Ip, ipv4, IpNet, contains_ip}
use aniraku_backend.Middleware.RealIp.{peer_of, names_client, real_ip}
use aniraku_backend.Middleware.RealIp.Spoofing.{real_ip_forged}

abbrev read_ip : Text → Option Ip
read_ip s =
    if text_eq s (codes "10.0.0.1")
    then some (ipv4 10 0 0 1)
    else if text_eq s (codes "8.8.8.8")
    then some (ipv4 8 8 8 8)
    else none

-- 10.0.0.0/8.
abbrev proxies : List IpNet
proxies = record { number = 10 ∷ 0 ∷ 0 ∷ 0 ∷ []; mask = 255 ∷ 0 ∷ 0 ∷ 0 ∷ [] } ∷ []

forwarded_client :
    real_ip read_ip proxies (codes "10.0.0.1:99") (codes "1.1.1.1, 8.8.8.8") ≡ codes "8.8.8.8:0"
unfolding real_ip peer_of split_host_port join_host_port text_eq trim_space split names_client
    contains_ip ipv4
forwarded_client = refl

real_ip_forged_example :
    real_ip read_ip proxies (codes "10.0.0.1:99") (codes "6.6.6.6" ++ b',' ∷ codes "8.8.8.8")
    ≡ real_ip read_ip proxies (codes "10.0.0.1:99") (codes "8.8.8.8")
unfolding names_client text_eq trim_space split contains_ip ipv4
real_ip_forged_example =
    real_ip_forged read_ip proxies (codes "10.0.0.1:99") (codes "6.6.6.6") (codes "8.8.8.8") refl
