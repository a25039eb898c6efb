-- ===== src/Accordion/Common/Encoding.antt =====
-- accordion_V10.X/common.cpp: what `urlEncode` makes can be read back, and stands in a request line.
use cproject.Base.{
  ℕ, ◌+◌, ◌-◌, ◌*◌, ◌/◌, ◌%◌, ◌<◌, ◌≡◌, refl, ap, ◌∙◌, Bool, true, false, ◌||◌, ◌==◌, leb, ◌&&◌,
  if◌then◌else◌, if-known, if-both, if-related, [], ◌∷◌, ◌++◌, All, All-append, arith,
}
use cproject.Base.Below.{passes_below, passes_at}
use cproject.Base.Text.{Text, codes, c_str}
use cproject.Accordion.Common.{is_plain, hex_digit, percent, encode_byte, url_encode}

-- The value of a hexadecimal digit, in capitals.
abbrev pub hex_value : ℕ → ℕ
hex_value c = if leb 65 c then c - 55 else c - 48

-- A reader as RFC 3986 describes it: a percent sign and two digits stand for a byte, any other byte
-- for itself.
unfoldable pub url_decode : Text → Text
url_decode [] = []
url_decode (c ∷ []) = c ∷ []
url_decode (c ∷ d ∷ []) = c ∷ d ∷ []
url_decode (c ∷ d ∷ e ∷ s) =
    let plain = url_decode (d ∷ e ∷ s) in
    let byte = url_decode s in
    if c == percent then (hex_value d * 16 + hex_value e) ∷ byte else c ∷ plain

hex_value_lem : (n : ℕ) → n < 16 → hex_value (hex_digit n) ≡ n
hex_value_lem n h = ground arith

percent-plain : (c : ℕ) → is_plain c ≡ true → (c == percent) ≡ false
percent-plain c h = ground arith

-- A byte that is not a percent sign stands for itself.
decode_plain : (c : ℕ) (s : Text) → (c == percent) ≡ false → url_decode (c ∷ s) ≡ c ∷ url_decode s
unfolding url_decode
decode_plain c [] h = refl
decode_plain c (d ∷ []) h = refl
decode_plain c (d ∷ e ∷ s) h = rw h refl

decode_byte : (c : ℕ) (s : Text) → c < 256 → url_decode (encode_byte c ++ s) ≡ c ∷ url_decode s
unfolding url_decode
decode_byte c s h =
    if-known (λ (t : Text). url_decode (t ++ s) ≡ c ∷ url_decode s) (is_plain c)
      (λ e. decode_plain c s (percent-plain c e))
      (λ _.
        ap (λ n. n ∷ url_decode s)
          (ap (λ n. n * 16 + hex_value (hex_digit (c % 16))) (hex_value_lem (c / 16) (omega arith))
            ∙ ap (λ n. c / 16 * 16 + n) (hex_value_lem (c % 16) (omega arith))
            ∙ omega arith))

-- Every text of bytes is read back from its encoding, up to its first byte 0, where the encoding stops.
pub url_decode-url_encode : (s : Text) → All (λ c. c < 256) s → url_decode (url_encode s) ≡ c_str s
unfolding url_encode c_str
url_decode-url_encode [] h = unfold url_decode in refl
url_decode-url_encode (c ∷ s) h =
    if-related (λ (t u : Text). url_decode t ≡ u) (c == 0) (λ _. unfold url_decode in refl)
      (λ _. decode_byte c (url_encode s) h.0 ∙ ap (λ t. c ∷ t) (url_decode-url_encode s h.1))

-- The unreserved characters of RFC 3986, and the percent sign.
abbrev pub unreserved : Text
unreserved =
    codes "ABCDEFGHIJKLMNOPQRSTUVWXYZ"
    ++ codes "abcdefghijklmnopqrstuvwxyz"
    ++ codes "0123456789-_.~%"

abbrev pub stands_in : Text → ℕ → Bool
stands_in [] c = false
stands_in (d ∷ ds) c = c == d || stands_in ds c

-- Whether each byte of a text is one of them.
abbrev pub all_unreserved : Text → Bool
all_unreserved [] = true
all_unreserved (c ∷ s) = stands_in unreserved c && all_unreserved s

all_unreserved-All :
    (s : Text) → all_unreserved s ≡ true → All (λ d. stands_in unreserved d ≡ true) s
all_unreserved-All [] h = tt
all_unreserved-All (c ∷ s) h = (ground arith, all_unreserved-All s (ground arith))

-- All 256 bytes are tried.
encode_byte-All : (c : ℕ) → c < 256 → All (λ d. stands_in unreserved d ≡ true) (encode_byte c)
encode_byte-All c h =
    all_unreserved-All (encode_byte c)
      (passes_at (λ d. all_unreserved (encode_byte d)) 256 c h (unfold passes_below in refl))

-- The encoding of a text of bytes has no byte but `A` to `Z`, `a` to `z`, `0` to `9`, `-`, `_`, `.`, `~`
-- and the percent sign.
pub url_encode-All :
    (s : Text) → All (λ c. c < 256) s → All (λ d. stands_in unreserved d ≡ true) (url_encode s)
unfolding url_encode
url_encode-All [] h = tt
url_encode-All (c ∷ s) h = if-both (All (λ d. stands_in unreserved d ≡ true)) (c == 0) tt (
    All-append (λ d. stands_in unreserved d ≡ true) (encode_byte c) (url_encode s)
      (encode_byte-All c h.0) (url_encode-All s h.1))
