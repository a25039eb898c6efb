-- ===== src/Accordion/Url/Examples.antt =====
-- Addresses, run through accordion_V10.X/url.cpp, and the theorems at them.
use cproject.Base.{◌+◌, ◌≤◌, ◌≡◌, ◌↔◌, refl, [], length, done, crash}
use cproject.Base.Int.{pos}
use cproject.Base.Text.{Text, codes, atoi, digits_value, text_eq}
use cproject.Accordion.Url.{
  Url, find, range, protocol_of, port_of, path_of, host_end_of, parse_host, parse, request,
  get_query,
}
use cproject.Accordion.Url.RoundTrip.{address}
use cproject.Accordion.Url.Bounds.{parse-crash, get_query_fits}

abbrev station : Text
station = address (codes "http") (codes "h") (codes "8000") (codes "live") (codes "?a=/")

station_test : station ≡ codes "http://h:8000/live?a=/"
station_test = refl

port_test : atoi (codes "8000") ≡ pos 8000
unfolding atoi digits_value
port_test = refl

-- Without a port it is 80, and without a path it is empty.
plain_test :
    parse (codes "http://h")
    ≡ done
        (record { protocol = codes "http"; host = codes "h"; path = []; query = []; port = pos 80 })
unfolding parse parse_host protocol_of port_of path_of host_end_of range find text_eq
plain_test = refl

parse-crash_example : parse (codes "http://h?u=/x") ≡ crash
parse-crash_example =
    parse-crash (codes "http") (codes "h") (codes "u=") (codes "x")
      (refl, (refl, (refl, (refl, tt)))) (refl, (refl, (refl, (refl, tt)))) (refl, tt) (refl, tt)
      (refl, (refl, tt))

abbrev target : Url
target = record {
  protocol = codes "http";
  host = codes "h";
  path = codes "/live";
  query = [];
  port = pos 80;
}

get_query_fits_example :
    (get_query target ≡ done (request target)) ↔ (length target.path + length target.host ≤ 1971)
get_query_fits_example = get_query_fits target
