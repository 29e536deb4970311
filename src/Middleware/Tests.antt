-- ===== src/Middleware/Tests.antt =====
-- Runs of the cross-origin headers.
use aniraku_backend.Base.{Text, codes, text_eq, trim_space, split, ◌≡◌, refl, none}
use aniraku_backend.Middleware.Cors.{extra_origins, allowed_origins, is_allowed_origin, cors}

abbrev extra : Text
extra = codes " , https://a.example "

abbrev site : Text
site = codes "https://a.example"

stranger : (cors extra (codes "GET") (codes "https://b.example")).allow_origin ≡ none
unfolding cors is_allowed_origin allowed_origins extra_origins text_eq trim_space split
stranger = refl
