-- ===== src/Accordion/Url/RoundTrip.antt =====
-- accordion_V10.X/url.cpp: an address that is written out of its parts is parsed into them.
use cproject.Base.{
  ℕ, ◌≡◌, ◌≢◌, refl, ap, ◌∙◌, false, ◌==◌, [], ◌∷◌, ◌++◌, length, take, All, arith, length-append,
  take-length-append,
}
use cproject.Base.Int.{pos}
use cproject.Base.Text.{Text, atoi}
use cproject.Accordion.Url.{colon, slash, question, find, between}

-- No byte of the text is `c`.
abbrev pub Lacks : ℕ → Text → Type 0
Lacks c s = All (λ x. (x == c) ≡ false) s

pub find_past : (c : ℕ) (xs ys : Text) → Lacks c xs → find c (xs ++ ys) ≡ find c ys
unfolding find
find_past c [] ys h = refl
find_past c (x ∷ xs) ys h = rw h.0 (find_past c xs ys h.1)

pub find_here : (c : ℕ) (s : Text) → find c (c ∷ s) ≡ c ∷ s
unfolding find
find_here c s = ground arith

pub between-append : (xs ys : Text) → between (xs ++ ys) ys ≡ xs
between-append xs ys =
    ap (λ n. take n (xs ++ ys)) {y = length xs} (omega (arith, length-append xs ys))
    ∙ take-length-append xs ys

pub data IsQuery : Text → Type 0 where
  no_query : IsQuery []
  with_query : (s : Text) → IsQuery (question ∷ s)

module _ (protocol host digits path query : Text) where
  -- The text from the path, from the host and from the start on.
  abbrev from_path : Text
  from_path = slash ∷ (path ++ query)

  abbrev from_host : Text
  from_host = host ++ (colon ∷ (digits ++ from_path))

  abbrev pub address : Text
  address = protocol ++ (colon ∷ slash ∷ slash ∷ from_host)

  -- Each part has none of the delimiters that end it.
  pub record IsAddress : Type 0 where
    pub protocol_colon : Lacks colon protocol
    pub protocol_question : Lacks question protocol
    pub host_colon : Lacks colon host
    pub host_slash : Lacks slash host
    pub host_question : Lacks question host
    pub digits_slash : Lacks slash digits
    pub digits_question : Lacks question digits
    pub path_question : Lacks question path
    pub is_query : IsQuery query
    pub has_port : atoi digits ≢ pos 0
