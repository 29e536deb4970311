-- ===== src/Middleware/RealIp/Spoofing.antt =====
-- What a client can and cannot choose of the address by which it is limited.
use mathlib.Core.List.{reverse, reverse-append, reverse-cons}
use aniraku_backend.Base.{
  any, any-append, All, Text, text_eq, trim_space, split, split-append, ◌≡◌, refl, ◌∙◌, Bool, true,
  false, Option, List, [], ◌∷◌, ◌++◌, arith,
}
use aniraku_backend.Net.Ip.{Ip, IpNet}
use aniraku_backend.Middleware.RealIp.{
  peer_of, peer_trusted, names_client, rightmost, forwarded, real_ip,
}

any-reverse {ℓ} : {A : Type ℓ} (test : A → Bool) (xs : List A) → any test (reverse xs) ≡ any test xs
any-reverse test [] = refl
any-reverse test (x ∷ xs) =
    rw (reverse-cons x xs, any-append test (reverse xs) (x ∷ []), any-reverse test xs)
      (ground arith)

module _ (parse_ip : Text → Option Ip) (trusted : List IpNet) where
  -- A peer that is no trusted proxy is known by the same address whatever header it sends.
  pub real_ip_direct :
      (remote xff : Text)
      → peer_trusted parse_ip trusted (peer_of remote) ≡ false
      → real_ip parse_ip trusted remote xff ≡ real_ip parse_ip trusted remote []
  unfolding real_ip
  real_ip_direct remote xff h = rw (direct xff, direct [])
    where
      direct : (xff : Text) → forwarded parse_ip trusted (peer_of remote) xff ≡ peer_of remote
      direct xff = ground arith

  rightmost-append :
      (peer : Text) (es fs : List Text)
      → any (names_client parse_ip trusted) es ≡ true
      → rightmost parse_ip trusted peer (es ++ fs) ≡ rightmost parse_ip trusted peer es
  unfolding rightmost
  rightmost-append peer [] fs h = cc
  rightmost-append peer (e ∷ es) fs h = ground (arith, rightmost-append peer es fs)

  blank_entry : any (names_client parse_ip trusted) (split b',' []) ≡ false
  unfolding names_client split trim_space text_eq
  blank_entry = refl

  nonblank :
      (xff : Text)
      → any (names_client parse_ip trusted) (split b',' xff) ≡ true
      → text_eq xff [] ≡ false
  unfolding text_eq
  nonblank [] h = cc (blank_entry)
  nonblank (c ∷ s) h = refl

  nonblank-append : (forged xff : Text) → text_eq (forged ++ b',' ∷ xff) [] ≡ false
  unfolding text_eq
  nonblank-append [] xff = refl
  nonblank-append (c ∷ s) xff = refl

  -- What a client writes in front of the part of the header that the proxies appended changes
  -- nothing, as long as that part names one address that is no proxy.
  pub real_ip_forged :
      (remote forged xff : Text)
      → any (names_client parse_ip trusted) (split b',' xff) ≡ true
      → real_ip parse_ip trusted remote (forged ++ b',' ∷ xff) ≡ real_ip parse_ip trusted remote xff
  unfolding real_ip forwarded
  real_ip_forged remote forged xff h =
      let same : rightmost parse_ip trusted (peer_of remote)
            (reverse (split b',' (forged ++ b',' ∷ xff)))
          ≡ rightmost parse_ip trusted (peer_of remote) (reverse (split b',' xff)) =
        rw (split-append b',' forged xff, reverse-append (split b',' forged) (split b',' xff))
          (rightmost-append (peer_of remote) (reverse (split b',' xff))
            (reverse (split b',' forged))
            (any-reverse (names_client parse_ip trusted) (split b',' xff) ∙ h)) in
      let same' : forwarded parse_ip trusted (peer_of remote) (forged ++ b',' ∷ xff)
          ≡ forwarded parse_ip trusted (peer_of remote) xff =
        ground (arith, same, nonblank-append forged xff, nonblank xff h) in
      rw same'

  -- The answer of the loop: the peer, if no entry names a client, and otherwise the rightmost entry
  -- that does.
  pub data Answer (peer : Text) (entries : List Text) (answer : Text) : Type 0 where
    peer_kept :
        All (λ e. names_client parse_ip trusted e ≡ false) entries
        → answer ≡ peer
        → Answer peer entries answer
    client_found :
        (skipped : List Text) (entry : Text) (rest : List Text)
        → entries ≡ skipped ++ entry ∷ rest
        → All (λ e. names_client parse_ip trusted e ≡ false) skipped
        → names_client parse_ip trusted entry ≡ true
        → answer ≡ trim_space entry
        → Answer peer entries answer
