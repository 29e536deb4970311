-- ===== src/Streaming/Stability/Keys/RoundTrip.antt =====
-- A provider's key reads back from its text.
use aniraku_backend.Base.{
  ltb, leb, ◌==◌, if◌then◌else◌, ==→eq, Bool-cases, Free, Text, codes, text_eq, decimal_from, ℕ,
  zero, suc, ◌+◌, ◌-◌, ◌*◌, ◌/◌, ◌%◌, ◌^◌, ◌≤◌, ◌<◌, ◌≡◌, refl, sym, ap, subst, ◌∙◌, inl, inr, Bool,
  true, false, not, ◌&&◌, some, List, [], ◌∷◌, ◌++◌, arith,
}
use aniraku_backend.Streaming.Stability.{SignedInt, ProviderRequestKey}
use mathlib.Core.List.{append-nil, append_assoc, reverse, reverse-cons}
use aniraku_backend.Streaming.Stability.Keys.{
  wrapped_digits, signed, zero_signed, unsigned_digits, atoi_default, itoa_default, split_key_from,
  split_stability_key, stability_key_string, key_of_parts, restore_key, IsSigned, IsKey,
}

wrapped_digits-decimal_from :
    (fuel n : ℕ) (s : Text)
    → n ≤ fuel
    → n < 2 ^ 63
    → wrapped_digits 0 (decimal_from fuel n s) ≡ wrapped_digits n s
unfolding wrapped_digits decimal_from
wrapped_digits-decimal_from zero n s enough small = ap (λ (k : ℕ). wrapped_digits k s) (omega arith)
wrapped_digits-decimal_from (suc fuel) n s enough small = elim (Bool-cases (n == 0)) [
  | inl none_left ↦ rw none_left (ap (λ (k : ℕ). wrapped_digits k s) (ground (arith, none_left)))
  | inr more ↦ rw more (
      wrapped_digits-decimal_from fuel (n / 10) ((b'0' + n % 10) ∷ s) (ground (arith, more))
        (omega arith)
      ∙ (let digit : (leb b'0' (b'0' + n % 10) && leb (b'0' + n % 10) b'9') ≡ true = ground arith in
          let value : (n / 10 * 10 + (b'0' + n % 10 - b'0')) % 2 ^ 64 ≡ n = omega arith in
          rw digit (ap (λ (k : ℕ). wrapped_digits k s) value)))
]

Free-decimal_from :
    (sep fuel n : ℕ) (s : Text) → sep < b'0' → Free sep s → Free sep (decimal_from fuel n s)
unfolding decimal_from
Free-decimal_from sep zero n s low h = h
Free-decimal_from sep (suc fuel) n s low h = elim (Bool-cases (n == 0)) [
  | inl none_left ↦ rw none_left h
  | inr more ↦
      rw more
        (Free-decimal_from sep fuel (n / 10) ((b'0' + n % 10) ∷ s) low (ground (arith, h, low)))
]

atoi_default-Free : (s : Text) → Free b'-' s → atoi_default s ≡ unsigned_digits false s
unfolding atoi_default
atoi_default-Free [] h = refl
atoi_default-Free (c ∷ s) h = let plain : (c == b'-') ≡ false = ground (arith, h) in rw plain

signed_lem :
    (negative : Bool) (n : ℕ)
    → 0 < n
    → n < 2 ^ 63
    → signed (if negative then (2 ^ 64 - n) % 2 ^ 64 else n)
      ≡ record { negative = negative; size = n }
unfolding signed
signed_lem true n pos small =
    let high : ltb ((2 ^ 64 - n) % 2 ^ 64) (2 ^ 63) ≡ false = ground arith in
    let size : 2 ^ 64 - (2 ^ 64 - n) % 2 ^ 64 ≡ n = omega arith in
    rw high (λ i. record { negative = true; size = size i })
signed_lem false n pos small = let low : ltb n (2 ^ 63) ≡ true = ground arith in rw low

unsigned_digits_lem :
    (negative : Bool) (n : ℕ)
    → 0 < n
    → n < 2 ^ 63
    → unsigned_digits negative (decimal_from n n []) ≡ record { negative = negative; size = n }
unfolding unsigned_digits wrapped_digits
unsigned_digits_lem negative n pos small =
    rw (wrapped_digits-decimal_from n n [] (omega arith) small, unsigned_digits)
      (signed_lem negative n pos small)

SignedInt_path : (a b : SignedInt) → a.negative ≡ b.negative → a.size ≡ b.size → a ≡ b
SignedInt_path a b p q = λ i. record { negative = p i; size = q i }

zero_back : atoi_default (b'0' ∷ []) ≡ zero_signed
unfolding atoi_default unsigned_digits wrapped_digits signed
zero_back = refl

minus : (s : Text) → atoi_default (b'-' ∷ s) ≡ unsigned_digits true s
unfolding atoi_default
minus s = refl

-- A number in range is read back.
pub atoi_default-itoa_default : (n : SignedInt) → IsSigned n → atoi_default (itoa_default n) ≡ n
unfolding itoa_default
atoi_default-itoa_default n v = elim (Bool-cases (n.size == 0)) [
  | inl empty ↦ rw empty (
      zero_back
      ∙ SignedInt_path zero_signed n (sym (v.one_zero (==→eq n.size 0 empty)))
          (sym (==→eq n.size 0 empty)))
  | inr some_digit ↦ elim (Bool-cases n.negative) [
    | inl below ↦
        let inside : (n.size == 2 ^ 63) ≡ false = ground (arith, v.small) in
        subst
          (λ (b : Bool).
            atoi_default (
              if n.size == 0
              then b'0' ∷ []
              else if not b
              then decimal_from n.size n.size []
              else if n.size == 2 ^ 63
              then b'-' ∷ []
              else b'-' ∷ decimal_from n.size n.size [])
            ≡ n)
          (sym below)
          (rw (some_digit, inside)
            (minus (decimal_from n.size n.size [])
              ∙ unsigned_digits_lem true n.size (ground (arith, some_digit)) v.small
              ∙ SignedInt_path (record { negative = true; size = n.size }) n (sym below) refl))
    | inr above ↦
        subst
          (λ (b : Bool).
            atoi_default (
              if n.size == 0
              then b'0' ∷ []
              else if not b
              then decimal_from n.size n.size []
              else if n.size == 2 ^ 63
              then b'-' ∷ []
              else b'-' ∷ decimal_from n.size n.size [])
            ≡ n)
          (sym above)
          (rw some_digit (
            atoi_default-Free (decimal_from n.size n.size [])
              (Free-decimal_from b'-' n.size n.size [] (omega arith) refl)
            ∙ unsigned_digits_lem false n.size (ground (arith, some_digit)) v.small
            ∙ SignedInt_path (record { negative = false; size = n.size }) n (sym above) refl))
  ]
]

split_key_from_field :
    (n : ℕ) (cur front rest : Text)
    → Free b'/' front
    → split_key_from (suc n) cur (front ++ b'/' ∷ rest)
      ≡ (reverse cur ++ front) ∷ split_key_from n [] rest
unfolding split_key_from
split_key_from_field n cur [] rest h =
    ap (λ (f : Text). f ∷ split_key_from n [] rest) (sym (append-nil (reverse cur)))
split_key_from_field n cur (c ∷ front) rest h =
    let inside : (c == b'/') ≡ false = ground (arith, h) in
    rw inside (
      split_key_from_field n (c ∷ cur) front rest (ground (arith, h))
      ∙ ap (λ (f : Text). (f ++ front) ∷ split_key_from n [] rest) (reverse-cons c cur)
      ∙ ap (λ (f : Text). f ∷ split_key_from n [] rest) (append_assoc (reverse cur) (c ∷ []) front))

Free-itoa_default : (n : SignedInt) → Free b'/' (itoa_default n)
unfolding itoa_default
Free-itoa_default n = ground (arith, Free-decimal_from b'/' n.size n.size [])

abbrev flag : Bool → SignedInt
flag hentai = record { negative = false; size = if hentai then 1 else 0 }

flag_back : (hentai : Bool) → text_eq (itoa_default (flag hentai)) (codes "1") ≡ hentai
unfolding itoa_default text_eq decimal_from
flag_back true = refl
flag_back false = refl

-- A key whose numbers are in range and whose language has no slash is what its text reads back as.
pub restore_key-stability_key_string :
    (k : ProviderRequestKey) → IsKey k → restore_key (stability_key_string k) ≡ some k
unfolding restore_key stability_key_string split_stability_key
restore_key-stability_key_string k v =
    ap key_of_parts (
      split_key_from_field 3 [] (itoa_default k.request.anime_id) _
        (Free-itoa_default k.request.anime_id)
      ∙ ap (λ (t : List Text). itoa_default k.request.anime_id ∷ t)
          (split_key_from_field 2 [] (itoa_default k.request.episode) _
              (Free-itoa_default k.request.episode)
            ∙ ap (λ (t : List Text). itoa_default k.request.episode ∷ t)
                (split_key_from_field 1 [] k.request.lang _ v.lang
                  ∙ ap (λ (t : List Text). k.request.lang ∷ t)
                      (split_key_from_field 0 [] (itoa_default (flag k.request.hentai)) k.provider
                        (Free-itoa_default (flag k.request.hentai))))))
    ∙ (λ i. some (record {
      request = record {
        anime_id = atoi_default-itoa_default k.request.anime_id v.anime_id i;
        episode = atoi_default-itoa_default k.request.episode v.episode i;
        lang = k.request.lang;
        hentai = flag_back k.request.hentai i;
      };
      provider = k.provider;
    }))
