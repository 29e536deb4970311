-- ===== src/Proxy/Hosts.antt =====
-- The two host lists of internal/api/v1/proxy_allowlist.go.
use aniraku_backend.Base.{List, [], ◌∷◌}
use Prim.Native.String.{String}

-- `defaultCDNSuffixes`, repeated entries included.
abbrev pub default_cdn_suffixes : List String
default_cdn_suffixes =
    "akirax.buzz" ∷ "shiora.site" ∷ "anidb.app" ∷ "uwucdn.com" ∷ "owocdn.com" ∷ "kwik.cx"
    ∷ "ninstream.com" ∷ "ninstream.co" ∷ "flixcloud.cc" ∷ "flixcloud.com" ∷ "fetch8.flixcloud.cc"
    ∷ "fetch9.flixcloud.cc" ∷ "fetch10.flixcloud.cc" ∷ "vault-95.atomic4cdn.top" ∷ "animegg.org"
    ∷ "vidcache.net" ∷ "aniwaves.ru" ∷ "echovideo.to" ∷ "echovideo.ru" ∷ "savedly.net"
    ∷ "megavid.buzz" ∷ "megavid.se" ∷ "vidnest.fun" ∷ "new.vidnest.fun" ∷ "megaplay.shiora.top"
    ∷ "stellarfrontier.world" ∷ "hls.dramahot.top" ∷ "wixmp.com" ∷ "wixstatic.com" ∷ "anv.to"
    ∷ "anixo.buzz" ∷ "miruro.tv" ∷ "miruro.cc" ∷ "miruro.be" ∷ "ani.pm" ∷ "settlar.io"
    ∷ "cloudfront.net" ∷ "akamaized.net" ∷ "storage.googleapis.com" ∷ "googleapis.com"
    ∷ "bunnycdn.com" ∷ "fastly.net" ∷ "fastlylb.net" ∷ "gogocdn.net" ∷ "streamani.net"
    ∷ "vidtub.akirax.buzz" ∷ "vidtub.shiora.site" ∷ "hls.anidb.app" ∷ "vidcloud.net"
    ∷ "vidstreaming.io" ∷ "streamtape.net" ∷ "rapidvideo.com" ∷ "mp4upload.com" ∷ "vidhide.net"
    ∷ "norami.top" ∷ "fetch.nexabloom.top" ∷ "aniwatchtv.uk" ∷ "novuscloud.buzz" ∷ "aniwatchtv.site"
    ∷ "fast4speed.rsvp" ∷ "animeapps.top" ∷ "xanivsrc.org" ∷ "xanivsrc10.org" ∷ "animeparadise.moe"
    ∷ "ans-bio-video.com" ∷ "ans-bio-video.net" ∷ "ans-bio-video.org" ∷ "bio-video.net"
    ∷ "bio-video.org" ∷ "bio-video.com" ∷ "ans-bio-video.s3.amazonaws.com"
    ∷ "ans-bio-video.s3.us-east-1.amazonaws.com" ∷ "streamtape.to" ∷ "streamtape.cc"
    ∷ "megaplay.live" ∷ "megaplay.site" ∷ "megaplay.top" ∷ "megaplay.xyz" ∷ "megaplay.pro"
    ∷ "megaplay.club" ∷ "megaplay.cc" ∷ "mikora.top" ∷ "uwucdn.net" ∷ "owocdn.net" ∷ "kotocdn.net"
    ∷ "kotocdn.site" ∷ "kotocdn.top" ∷ "vivibebe.net" ∷ "vivibebe.site" ∷ "vivibebe.top"
    ∷ "vivibebe.com" ∷ "nekostream.net" ∷ "nekostream.site" ∷ "nekostream.top" ∷ "nekostream.com"
    ∷ "watching.onl" ∷ "watching.site" ∷ "krussdomi.net" ∷ "krussdomi.site" ∷ "krussdomi.com"
    ∷ "mewstream.net" ∷ "mewstream.site" ∷ "mewstream.com" ∷ "fast4speed.net" ∷ "fast4speed.site"
    ∷ "fast4speed.top" ∷ "fast4speed.com" ∷ "anikototv.to" ∷ "megaplay.buzz" ∷ "supaplay.fun"
    ∷ "kryntal.top" ∷ "cdn.kryntal.top" ∷ "atomic4cdn.top" ∷ "vault-97.atomic4cdn.top"
    ∷ "vault-98.atomic4cdn.top" ∷ "mikora.top" ∷ "mikora.site" ∷ "mikora.buzz" ∷ "vidtub.mikora.top"
    ∷ "uwucdn.top" ∷ "uwucdn.site" ∷ "workers.dev" ∷ "pages.dev" ∷ "185.237.106.79"
    ∷ "203.188.166.228" ∷ []

-- `nuisanceProxyHostSuffixes`.
abbrev pub nuisance_proxy_host_suffixes : List String
nuisance_proxy_host_suffixes =
    "doubleclick.net" ∷ "googlesyndication.com" ∷ "googleadservices.com" ∷ "adnxs.com"
    ∷ "adskeeper.co.uk" ∷ "adsterra.com" ∷ "exoclick.com" ∷ "popads.net" ∷ "popcash.net"
    ∷ "propellerads.com" ∷ "trafficjunky.net" ∷ "hilltopads.net" ∷ "onclicka.com" ∷ "clickadu.com"
    ∷ "monetag.com" ∷ "ad-maven.com" ∷ "juicyads.com" ∷ "push.house" ∷ "richpush.com"
    ∷ "tsyndicate.com" ∷ []
