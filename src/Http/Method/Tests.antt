-- ===== src/Http/Method/Tests.antt =====
-- Names of methods of src/http/http.cc, and the theorems at some of them.
use co_lib.Prelude.{◌≡◌, refl, ◌++◌, arith, codes}
use co_lib.Http.Method.{string_to_http_method, chars_to_http_method, http_method_to_string}
use co_lib.Http.Method.Names.{
  chars_to_http_method-name, string_to_http_method-name, string_to_http_method_sound,
}

-- A longer token counts as the method that it begins with.
getx_is_get : chars_to_http_method (codes "GETX /") ≡ 1
unfolding chars_to_http_method
getx_is_get = refl

chars_to_http_method-name_example :
    chars_to_http_method (http_method_to_string 31 ++ codes " / HTTP/1.1") ≡ 31
chars_to_http_method-name_example = chars_to_http_method-name 31 (omega arith) (codes " / HTTP/1.1")

string_to_http_method-name_test : string_to_http_method (http_method_to_string 24) ≡ 24
string_to_http_method-name_test = string_to_http_method-name 24 (omega arith)

found_get : string_to_http_method (codes "GET") ≡ 1
unfolding string_to_http_method
found_get = refl

string_to_http_method_sound_test :
    http_method_to_string (string_to_http_method (codes "GET")) ≡ codes "GET"
string_to_http_method_sound_test =
    string_to_http_method_sound (codes "GET") (λ h. absurd (omega (arith, found_get, h)))
