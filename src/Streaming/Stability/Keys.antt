-- ===== src/Streaming/Stability/Keys.antt =====
-- The text of a provider's key in the snapshot file, written and read.
pub mod RoundTrip
use aniraku_backend.Base.{
  ltb, leb, ◌==◌, if◌then◌else◌, Free, Text, codes, text_eq, decimal_from, ℕ, zero, suc, ◌+◌, ◌-◌,
  ◌*◌, ◌%◌, ◌^◌, ◌<◌, ◌≡◌, Bool, true, false, not, ◌&&◌, Option, none, some, List, [], ◌∷◌, ◌++◌,
}
use aniraku_backend.Streaming.Stability.{SignedInt, ProviderRequestKey}
use mathlib.Core.List.{append-nil, append_assoc, reverse, reverse-cons}

-- The loop of `atoiDefault`, modulo 2^64; `none` is its return of 0.
unfoldable pub wrapped_digits : ℕ → Text → Option ℕ
wrapped_digits n [] = some n
wrapped_digits n (c ∷ s) =
    let rest = wrapped_digits ((n * 10 + (c - b'0')) % 2 ^ 64) s in
    if leb b'0' c && leb c b'9' then rest else none

-- The integer of a word.
unfoldable pub signed : ℕ → SignedInt
signed w =
    if ltb w (2 ^ 63)
    then record { negative = false; size = w }
    else record { negative = true; size = 2 ^ 64 - w }

abbrev pub zero_signed : SignedInt
zero_signed = record { negative = false; size = 0 }

unfoldable pub unsigned_digits : Bool → Text → SignedInt
unfolding wrapped_digits signed
unsigned_digits negative s = elim (wrapped_digits 0 s) [
  | none ↦ zero_signed
  | some w ↦ signed (if negative then (2 ^ 64 - w) % 2 ^ 64 else w)
]

unfoldable pub atoi_default : Text → SignedInt
unfolding unsigned_digits
atoi_default [] = unsigned_digits false []
atoi_default (c ∷ s) = if c == b'-' then unsigned_digits true s else unsigned_digits false (c ∷ s)

-- `-n` of the least integer is below 0 again, so its loop writes no digit.
unfoldable pub itoa_default : SignedInt → Text
unfolding decimal_from
itoa_default n =
    if n.size == 0
    then b'0' ∷ []
    else if not n.negative
    then decimal_from n.size n.size []
    else if n.size == 2 ^ 63
    then b'-' ∷ []
    else b'-' ∷ decimal_from n.size n.size []

-- The fields at the first four slashes, and what is left.
unfoldable pub split_key_from : ℕ → Text → Text → List Text
split_key_from zero cur s = (reverse cur ++ s) ∷ []
split_key_from (suc n) cur [] = reverse cur ∷ []
split_key_from (suc n) cur (c ∷ s) =
    let closed = reverse cur ∷ split_key_from n [] s in
    let longer = split_key_from (suc n) (c ∷ cur) s in if c == b'/' then closed else longer

unfoldable pub split_stability_key : Text → List Text
unfolding split_key_from
split_stability_key k = split_key_from 4 [] k

unfoldable pub stability_key_string : ProviderRequestKey → Text
unfolding itoa_default
stability_key_string k =
    itoa_default k.request.anime_id
    ++ b'/'
      ∷ (itoa_default k.request.episode
          ++ b'/'
            ∷ (k.request.lang
                ++ b'/'
                  ∷ (itoa_default
                        (record { negative = false; size = if k.request.hentai then 1 else 0 })
                      ++ b'/' ∷ k.provider)))

-- The key that a text names: five fields, or none.
unfoldable pub key_of_parts : List Text → Option ProviderRequestKey
unfolding atoi_default text_eq
key_of_parts (anime ∷ episode ∷ lang ∷ hentai ∷ provider ∷ []) = some (record {
  request = record {
    anime_id = atoi_default anime;
    episode = atoi_default episode;
    lang = lang;
    hentai = text_eq hentai (codes "1");
  };
  provider = provider;
})
key_of_parts parts = none

unfoldable pub restore_key : Text → Option ProviderRequestKey
unfolding key_of_parts split_stability_key
restore_key k = key_of_parts (split_stability_key k)

-- An integer that is not the least one, and has one sign where it is 0.
pub record IsSigned (n : SignedInt) : Type 0 where
  pub small : n.size < 2 ^ 63
  pub one_zero : n.size ≡ 0 → n.negative ≡ false

pub record IsKey (k : ProviderRequestKey) : Type 0 where
  pub anime_id : IsSigned k.request.anime_id
  pub episode : IsSigned k.request.episode
  pub lang : Free b'/' k.request.lang
