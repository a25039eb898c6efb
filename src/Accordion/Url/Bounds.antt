-- ===== src/Accordion/Url/Bounds.antt =====
-- accordion_V10.X/url.cpp: the addresses that `Parse` and `get_query` cannot take.
use cproject.Base.{
  ℕ, ◌+◌, ◌≤◌, ◌<◌, ◌≡◌, ◌≢◌, ◌↔◌, suc, refl, ap, sym, subst, ◌∙◌, ◌==◌, >>=-ne-stuck, true, ltb,
  if◌then◌else◌, if-both, if-known, [], ◌∷◌, ◌++◌, length, arith, Outcome, done, crash, stuck,
  ◌>>=◌, done-ne-stuck, length-append, crash-ne-stuck,
}
use cproject.Base.Text.{Text, codes, text_eq}
use cproject.Accordion.Url.{
  Url, colon, slash, question, find, default_port, range, between, protocol_of, port_of, path_of,
  host_end_of, parse_host, parse, request, get_query,
}
use cproject.Accordion.Url.RoundTrip.{Lacks, find_past, find_here, between-append}

-- What fails behind every result fails.
crashes {ℓ κ} :
    {A : Type ℓ} {B : Type κ} (m : Outcome A) (f : A → Outcome B)
    → m ≢ stuck
    → ((a : A) → f a ≡ crash)
    → (m >>= f) ≡ crash
crashes (done a) f h k = k a
crashes crash f h k = refl
crashes stuck f h k = absurd (h refl)

range-ne-stuck : (a b : Text) → range a b ≢ stuck
unfolding range
range-ne-stuck a b =
    if-both (λ m. m ≢ stuck) (ltb (length a) (length b)) crash-ne-stuck
      (done-ne-stuck (between a b))

port_of-ne-stuck : (a b : Text) → port_of a b ≢ stuck
unfolding port_of
port_of-ne-stuck [] b = done-ne-stuck default_port
port_of-ne-stuck (c ∷ s) b =
    if-both (λ m. m ≢ stuck) (c == colon)
      (>>=-ne-stuck (range s b) _ (range-ne-stuck s b) (λ digits _. done-ne-stuck _))
      (done-ne-stuck default_port)

parse_host-crash :
    (protocol host query : Text) (c : ℕ) (s : Text)
    → length (c ∷ s) < length query
    → parse_host protocol host query (c ∷ s) ≡ crash
unfolding parse_host path_of range
parse_host-crash protocol host query c s less =
    crashes (range host (c ∷ s)) _ (range-ne-stuck host (c ∷ s)) (λ text.
      crashes (range host (host_end_of text host)) _ (range-ne-stuck host (host_end_of text host))
        (λ name.
          crashes (port_of (host_end_of text host) (c ∷ s)) _
            (port_of-ne-stuck (host_end_of text host) (c ∷ s))
            (λ port. rw (wrong (length (c ∷ s)) (length query) less) refl)))
  where
    wrong : (m n : ℕ) → m < n → ltb m n ≡ true
    wrong m n h = ground arith

-- Where a question mark stands before the first slash behind the protocol.
crash_before :
    (uri protocol host : Text) (c : ℕ) (s : Text)
    → protocol_of uri (find colon uri) ≡ (protocol, host)
    → find slash host ≡ c ∷ s
    → length (find slash host) < length (find question uri)
    → parse uri ≡ crash
unfolding parse
crash_before uri protocol host c s e f less =
    ap (λ (x : Text × Text). parse_host x.0 x.1 (find question uri) (find slash x.1)) e
    ∙ rw f (
        parse_host-crash protocol host (find question uri) c s
          (subst (λ t. length t < length (find question uri)) f less))

-- An address without a path, and with a query that has a slash: the iterators of the path stand in the
-- wrong order, and `Parse` runs into undefined behaviour.
pub parse-crash :
    (protocol host before behind : Text)
    → Lacks colon protocol
    → Lacks question protocol
    → Lacks slash host
    → Lacks question host
    → Lacks slash before
    → parse
        (protocol ++ (colon ∷ slash ∷ slash ∷ (host ++ (question ∷ (before ++ (slash ∷ behind))))))
      ≡ crash
unfolding protocol_of text_eq
parse-crash protocol host before behind no_colon no_question host_slash host_question no_slash =
    crash_before uri protocol from_host slash behind has_protocol at_slash (
      subst (λ t. length t < length (find question uri)) (sym at_slash)
        (subst (λ t. length (slash ∷ behind) < length t) (sym at_question)
          (omega (arith, length-append before (slash ∷ behind)))))
  where
    query : Text
    query = question ∷ (before ++ (slash ∷ behind))

    from_host : Text
    from_host = host ++ query

    uri : Text
    uri = protocol ++ (colon ∷ slash ∷ slash ∷ from_host)

    at_colon : find colon uri ≡ colon ∷ slash ∷ slash ∷ from_host
    at_colon =
        find_past colon protocol (colon ∷ slash ∷ slash ∷ from_host) no_colon
        ∙ find_here colon (slash ∷ slash ∷ from_host)

    at_question : find question uri ≡ query
    at_question =
        find_past question protocol (colon ∷ slash ∷ slash ∷ from_host) no_question
        ∙ find_past question (colon ∷ slash ∷ slash ∷ []) from_host (refl, (refl, (refl, tt)))
        ∙ find_past question host query host_question
        ∙ find_here question (before ++ (slash ∷ behind))

    at_slash : find slash from_host ≡ slash ∷ behind
    at_slash =
        find_past slash host query host_slash
        ∙ find_past slash (question ∷ before) (slash ∷ behind) (refl, no_slash)
        ∙ find_here slash behind

    long :
        length from_host ≡ length host + suc (length (before ++ (slash ∷ behind)))
        → ltb 3 (length (colon ∷ slash ∷ slash ∷ from_host)) ≡ true
    long e = ground arith

    has_protocol : protocol_of uri (find colon uri) ≡ (protocol, from_host)
    has_protocol =
        rw (at_colon, long (length-append host query))
          (ap (λ t. (t, from_host)) (between-append protocol (colon ∷ slash ∷ slash ∷ from_host)))

-- What follows the host.
abbrev closing : Text
closing =
    13
    ∷ 10
    ∷ (codes "User_Agent: radio-accordion"
        ++ (13 ∷ 10 ∷ (codes "Accept-Language: en-us" ++ (13 ∷ 10 ∷ 13 ∷ 10 ∷ []))))

-- The request fits the buffer if, and only if, the path and the host have at most 1971 bytes together.
pub get_query_fits :
    (u : Url) → (get_query u ≡ done (request u)) ↔ (length u.path + length u.host ≤ 1971)
unfolding get_query
get_query_fits u = (
  if-known (λ m. m ≡ done (request u) → length u.path + length u.host ≤ 1971)
      (ltb 2048 (length (request u))) (λ _ e. absurd (crash-ne-done (request u) e))
      (λ h _. ground (arith, size)),
  λ h. fits (length (request u)) (omega (arith, size)),
)
  where
    crash-ne-done : (t : Text) → crash ≢ done t
    crash-ne-done t e = cc

    fits : (n : ℕ) → n ≤ 2048 → (if ltb 2048 n then crash else done (request u)) ≡ done (request u)
    fits n h = ground arith

    size : length (request u) ≡ length u.path + length u.host + 77
    size = omega (
      arith,
      length-append u.path (codes " HTTP/1.1" ++ (10 ∷ (codes "Host: " ++ (u.host ++ closing)))),
      length-append u.host closing,
    )
