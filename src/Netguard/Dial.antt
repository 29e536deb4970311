-- ===== src/Netguard/Dial.antt =====
-- `Control`, `allowedBridge` and `parseBridges` of internal/netguard/ssrf.go, and `control` of
-- client.go. `net.ParseIP`, `netip.ParseAddrPort` (with its canonical text) and `strconv.ParseBool`
-- are parameters, and so is the environment, which each call reads anew.
use aniraku_backend.Base.{
  if◌then◌else◌, Bool-cases, Option-cases, any, Text, text_eq, text_eq_iff, trim_space, split, ◌≡◌,
  refl, ap, ◌↔◌, inl, inr, Bool, true, false, not, ◌&&◌, ◌||◌, Option, none, some, List, [], ◌∷◌,
  arith,
}
use aniraku_backend.Net.HostPort.{split_host_port}
use aniraku_backend.Net.Ip.{Ip}
use aniraku_backend.Netguard.PublicIp.{is_public_ip}

pub data Verdict : Type 0 where
  dial cannot_parse unresolved non_public : Verdict

-- `bridgeRaw` and `bridgeSet`, a set as the list of its members.
pub record Bridges : Type 0 where
  pub raw : Text
  pub members : List Text

unfoldable pub initial_bridges : Bridges
initial_bridges = record { raw = []; members = [] }

module _ (parse_addr_port : Text → Option Text) where
  bridge_entries : List Text → List Text
  bridge_entries [] = []
  bridge_entries (h ∷ hs) =
      let rest = bridge_entries hs in
      let entry = trim_space h in
      if text_eq entry []
      then rest
      else elim (parse_addr_port entry) [ none ↦ rest | some canonical ↦ canonical ∷ rest ]

  unfoldable pub parse_bridges : Text → List Text
  unfolding bridge_entries split trim_space
  parse_bridges raw = bridge_entries (split b',' raw)

  -- The set is derived anew when the variable has changed.
  unfoldable pub allowed_bridge : Bridges → Text → Text → Bridges × Bool
  allowed_bridge b env address =
      let b' = if text_eq b.raw env then b else record { raw = env; members = parse_bridges env } in
      (b', any (text_eq address) b'.members)

  module _ (parse_ip : Text → Option Ip) where
    control_public_after : Bridges → Text → Text → Ip → Bridges × Verdict
    control_public_after b env address ip =
        let (b', bridged) = allowed_bridge b env address in
        (b', if bridged then dial else if is_public_ip ip then dial else non_public)

    -- `Control`
    unfoldable pub control_public : Bridges → Text → Text → Bridges × Verdict
    unfolding control_public_after allowed_bridge
    control_public b env address = elim (split_host_port address) [
      | none ↦ (b, cannot_parse)
      | some (host, port) ↦ elim (parse_ip host) [
        | none ↦ (b, unresolved)
        | some ip ↦ control_public_after b env address ip
      ]
    ]

    -- `control`: the hook that is installed.
    unfoldable pub control : (Text → Option Bool) → Text → Bridges → Text → Text → Bridges × Verdict
    unfolding control_public
    control parse_bool private_env b env address =
        if not (text_eq private_env [])
          && elim (parse_bool private_env) [ none ↦ false | some allowed ↦ allowed ]
        then (b, dial)
        else control_public b env address

  -- The cached set is that of the variable's value that it was derived from.
  abbrev pub IsCurrent : Bridges → Type 0
  IsCurrent b = b.members ≡ parse_bridges b.raw

  initial-IsCurrent : IsCurrent initial_bridges
  unfolding initial_bridges parse_bridges text_eq
  initial-IsCurrent = refl

  allowed_bridge_lem :
      (b : Bridges) (env address : Text)
      → IsCurrent b
      → IsCurrent (allowed_bridge b env address).0
        × ((allowed_bridge b env address).1 ≡ any (text_eq address) (parse_bridges env))
  unfolding allowed_bridge
  allowed_bridge_lem b env address h = elim (Bool-cases (text_eq b.raw env)) [
    | inl same ↦ rw same (h, rw (← (text_eq_iff b.raw env).0 same) (ap (any (text_eq address)) h))
    | inr other ↦ rw other (refl, refl)
  ]

  module _ (parse_ip : Text → Option Ip) where
    control_public_after_lem :
        (b : Bridges) (env address : Text) (ip : Ip)
        → IsCurrent b
        → IsCurrent (control_public_after parse_ip b env address ip).0
          × (((control_public_after parse_ip b env address ip).1 ≡ dial)
              ↔ ((is_public_ip ip || any (text_eq address) (parse_bridges env)) ≡ true))
    unfolding control_public_after
    control_public_after_lem b env address ip h =
        let (current, answer) = allowed_bridge_lem b env address h in
        (current, ((λ d. ground (arith, answer)), (λ d. ground (arith, answer))))

    -- The pair splits into an address and a port, and the address is public or the pair is listed as
    -- a bridge in the environment's present value.
    pub record Passes (env address : Text) : Type 0 where
      pub host : Text
      pub port : Text
      pub ip : Ip
      pub splits : split_host_port address ≡ some (host, port)
      pub parses : parse_ip host ≡ some ip
      pub permitted : (is_public_ip ip || any (text_eq address) (parse_bridges env)) ≡ true

    control_public_cases :
        (b : Bridges) (env address : Text) (split_at : Option (Text × Text))
        → IsCurrent b
        → split_host_port address ≡ split_at
        → IsCurrent (control_public parse_ip b env address).0
          × (((control_public parse_ip b env address).1 ≡ dial) ↔ Passes env address)
    unfolding control_public
    control_public_cases b env address none h e =
        rw (e, control_public) (h, ((λ d. cc), (λ p. cc (p.splits, e))))
    control_public_cases b env address (some (host, port)) h e =
        elim (Option-cases (parse_ip host)) [
          | inl e' ↦
              rw (e, control_public) (rw e' (h, ((λ d. cc), (λ p. cc (p.splits, p.parses, e, e')))))
          | inr (ip, e') ↦
              let (current, answer) = control_public_after_lem b env address ip h in
              rw (e, control_public)
                (rw e' (
                  current,
                  (
                    (λ d. record {
                      host = host;
                      port = port;
                      ip = ip;
                      splits = e;
                      parses = e';
                      permitted = answer.0 d;
                    }),
                    (λ p. answer.1 (ground (arith, p.splits, p.parses, p.permitted, e, e'))),
                  ),
                ))
        ]

    -- Where the cached bridges belong to the value they were read from, a socket is dialled exactly
    -- when its address splits, its host parses, and it is public or listed as a bridge in the
    -- environment's present value; and the cache still belongs to the value it was read from.
    pub control_public-dial_iff :
        (b : Bridges) (env address : Text)
        → IsCurrent b
        → IsCurrent (control_public parse_ip b env address).0
          × (((control_public parse_ip b env address).1 ≡ dial) ↔ Passes env address)
    control_public-dial_iff b env address h =
        control_public_cases b env address (split_host_port address) h refl
