-- ===== src/Http/Headers/Tests.antt =====
-- Headers of src/http/http.cc at work.
use co_lib.Prelude.{◌≢◌, ◌⊎◌, true, ◌≡◌, ◌↔◌, refl, [], ◌∷◌, none, false, if◌then◌else◌, codes}
use co_lib.Http.Headers.{
  new_request, find, seen, is_equivalent, case_insensitive_less, HttpRequest, get_header, get_param,
  get_cookie, set_header, set_param, set_cookie, has_header, has_param, has_cookie, del_header,
  del_param, del_cookie,
}
use co_lib.Http.Headers.Order.{case_insensitive_less_lem}
use co_lib.Http.Headers.Laws.{is_equivalent_iff, get-set, has-del}

abbrev request : HttpRequest
request = record (new_request 17 true) {
  headers = (codes "Accept", codes "text/html") ∷ ((codes "Host", codes "a.b") ∷ []);
  params = (codes "id", codes "7") ∷ [];
  cookies = [];
}

host_is_found : get_header (codes "hOST") [] request ≡ codes "a.b"
unfolding get_header find
host_is_found = refl

is_equivalent_iff_test :
    (is_equivalent (codes "Host") (codes "hOST") ≡ true)
    ↔ (seen (codes "Host") ≡ seen (codes "hOST"))
is_equivalent_iff_test = is_equivalent_iff (codes "Host") (codes "hOST")

get-set_example :
    (get_header (codes "host") [] (set_header (codes "HOST") (codes "c") request) ≡ (
      if is_equivalent (codes "host") (codes "HOST")
      then codes "c"
      else get_header (codes "host") [] request))
    × (get_param (codes "host") [] (set_param (codes "HOST") (codes "c") request) ≡ (
        if is_equivalent (codes "host") (codes "HOST")
        then codes "c"
        else get_param (codes "host") [] request))
    × (get_cookie (codes "host") [] (set_cookie (codes "HOST") (codes "c") request) ≡ (
        if is_equivalent (codes "host") (codes "HOST")
        then codes "c"
        else get_cookie (codes "host") [] request))
get-set_example = get-set (codes "HOST") (codes "host") request (codes "c") []

has-del_example :
    (has_header (codes "host") (del_header (codes "HOST") request) ≡ (
      if is_equivalent (codes "host") (codes "HOST")
      then (false, none)
      else has_header (codes "host") request))
    × (has_param (codes "host") (del_param (codes "HOST") request) ≡ (
        if is_equivalent (codes "host") (codes "HOST")
        then (false, none)
        else has_param (codes "host") request))
    × (has_cookie (codes "host") (del_cookie (codes "HOST") request) ≡ (
        if is_equivalent (codes "host") (codes "HOST")
        then (false, none)
        else has_cookie (codes "host") request))
has-del_example = has-del (codes "HOST") (codes "host") request

case_insensitive_less_lem_example :
    (case_insensitive_less (codes "accept") (codes "Host") ≡ true)
    × (((case_insensitive_less (codes "HOST") (codes "host") ≡ true)
          × (case_insensitive_less (codes "host") (codes "HOST") ≡ false)
          × (seen (codes "HOST") ≢ seen (codes "host")))
        ⊎ ((case_insensitive_less (codes "host") (codes "HOST") ≡ true)
            × (case_insensitive_less (codes "HOST") (codes "host") ≡ false)
            × (seen (codes "HOST") ≢ seen (codes "host")))
        ⊎ ((case_insensitive_less (codes "HOST") (codes "host") ≡ false)
            × (case_insensitive_less (codes "host") (codes "HOST") ≡ false)
            × (seen (codes "HOST") ≡ seen (codes "host"))))
case_insensitive_less_lem_example =
    case_insensitive_less_lem (codes "accept") (codes "Cookie") (codes "Host") (codes "HOST")
      (codes "host") refl refl
