-- ===== src/Accordion/Url.antt =====
-- accordion_V10.X/url.cpp and accordion_V10.X/url.h: `turl`, the parts of an address and the request that is
-- sent for it. An iterator of the text is the text from it on, `[]` is `end()`.
pub mod RoundTrip
pub mod Bounds
mod Examples
use cproject.Base.{
  ℕ, zero, suc, ◌+◌, ◌-◌, Bool, true, false, not, ◌&&◌, ◌==◌, ltb, if◌then◌else◌, List, [], ◌∷◌,
  ◌++◌, length, take, drop, Outcome, done, crash, ◌>>=◌,
}
use cproject.Base.Int.{ℤ, pos}
use cproject.Base.Text.{Text, codes, text_eq, atoi}

abbrev pub colon : ℕ
colon = 58

abbrev pub slash : ℕ
slash = 47

abbrev pub question : ℕ
question = 63

-- `find(it, uriEnd, c)`
unfoldable pub find : ℕ → Text → Text
find c [] = []
find c (x ∷ s) = let rest = find c s in if x == c then x ∷ s else rest

-- The text between two iterators, the second one not before the first.
abbrev pub between : Text → Text → Text
between a b = take (length a - length b) a

-- `std::string(a, b)` and the range of `find(a, b, c)`: of iterators in the wrong order they have no meaning.
unfoldable pub range : Text → Text → Outcome Text
range a b = if ltb (length a) (length b) then crash else done (between a b)

-- `url_data`
pub record Url : Type 0 where
  pub protocol : Text
  pub host : Text
  pub path : Text
  pub query : Text
  pub port : ℤ

abbrev pub default_port : ℤ
default_port = pos 80

-- The protocol and the iterator behind it, from the first colon on.
unfoldable pub protocol_of : Text → Text → Text × Text
protocol_of uri at_colon =
    if ltb 3 (length at_colon) && text_eq (take 3 at_colon) (colon ∷ slash ∷ slash ∷ [])
    then (between uri at_colon, drop 3 at_colon)
    else ([], uri)

-- The port up to `stop`, if a colon ends the host.
unfoldable pub port_of : Text → Text → Outcome ℤ
unfolding range
port_of [] stop = done default_port
port_of (c ∷ s) stop =
    if c == colon
    then (range s stop >>= λ digits. done (elim (atoi digits) [ pos zero ↦ default_port | n ↦ n ]))
    else done default_port

-- `(pathStart != uriEnd) ? pathStart : queryStart`
abbrev pub stop_of : Text → Text → Text
stop_of query [] = query
stop_of query (c ∷ s) = c ∷ s

unfoldable pub path_of : Text → Text → Outcome Text
unfolding range
path_of query [] = done []
path_of query (c ∷ s) = range (c ∷ s) query

-- `find(a, b, ':')`, where `text` stands from `a` to `b`.
unfoldable pub host_end_of : Text → Text → Text
unfolding find
host_end_of text a = drop (length text - length (find colon text)) a

-- Behind the protocol: `query` is `queryStart`, `path` is `pathStart`.
unfoldable pub parse_host : Text → Text → Text → Text → Outcome Url
unfolding range port_of path_of host_end_of
parse_host protocol host query path = do
  text ← range host (stop_of query path)
  name ← range host (host_end_of text host)
  port ← port_of (host_end_of text host) (stop_of query path)
  file ← path_of query path
  done (record { protocol = protocol; host = name; path = file; query = query; port = port })

-- `Parse`, of a text that is not empty.
unfoldable pub parse : Text → Outcome Url
unfolding parse_host
parse uri =
    let (protocol, host) = protocol_of uri (find colon uri) in
    parse_host protocol host (find question uri) (find slash host)

-- The request of `get_query`, which `sprintf` writes with its end into `MAX_URL + 1` bytes.
abbrev pub request : Url → Text
request u =
    codes "GET "
    ++ (u.path
        ++ (codes " HTTP/1.1"
            ++ (10
                ∷ (codes "Host: "
                    ++ (u.host
                        ++ (13
                            ∷ 10
                            ∷ (codes "User_Agent: radio-accordion"
                                ++ (13
                                    ∷ 10
                                    ∷ (codes "Accept-Language: en-us"
                                        ++ (13 ∷ 10 ∷ 13 ∷ 10 ∷ []))))))))))

unfoldable pub get_query : Url → Outcome Text
get_query u = if ltb 2048 (length (request u)) then crash else done (request u)
