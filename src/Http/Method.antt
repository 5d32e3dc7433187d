-- ===== src/Http/Method.antt =====
-- The request methods of include/http/http.h and their names in src/http/http.cc. A method is its
-- number; `HTTP_METHOD_MAP` is a table, and an expansion of it a loop over the table.
pub mod Names
mod Tests
use co_lib.Prelude.{
  ℕ, zero, suc, ◌+◌, List, [], ◌∷◌, Option, some, none, Bool, true, false, if◌then◌else◌, ltb,
  length, get_elem?, Bytes, codes, c_str, bytes_eq, is_prefix,
}

abbrev pub HttpMethod : Type 0
HttpMethod = ℕ

-- `s_method_string`: entry `n` is the name of method `n`.
abbrev pub method_strings : List Bytes
method_strings =
    codes "DELETE"
    ∷ codes "GET"
    ∷ codes "HEAD"
    ∷ codes "POST"
    ∷ codes "PUT"
    ∷ codes "CONNECT"
    ∷ codes "OPTIONS"
    ∷ codes "TRACE"
    ∷ codes "COPY"
    ∷ codes "LOCK"
    ∷ codes "MKCOL"
    ∷ codes "MOVE"
    ∷ codes "PROPFIND"
    ∷ codes "PROPPATCH"
    ∷ codes "SEARCH"
    ∷ codes "UNLOCK"
    ∷ codes "BIND"
    ∷ codes "REBIND"
    ∷ codes "UNBIND"
    ∷ codes "ACL"
    ∷ codes "REPORT"
    ∷ codes "MKACTIVITY"
    ∷ codes "CHECKOUT"
    ∷ codes "MERGE"
    ∷ codes "M-SEARCH"
    ∷ codes "NOTIFY"
    ∷ codes "SUBSCRIBE"
    ∷ codes "UNSUBSCRIBE"
    ∷ codes "PATCH"
    ∷ codes "PURGE"
    ∷ codes "MKCALENDAR"
    ∷ codes "LINK"
    ∷ codes "UNLINK"
    ∷ codes "SOURCE"
    ∷ []

abbrev pub invalid_method : HttpMethod
invalid_method = 34

-- The number of the first name of a table that passes a test.
pub first_from : ℕ → (Bytes → Bool) → List Bytes → HttpMethod
first_from n test [] = invalid_method
first_from n test (s ∷ names) =
    let rest = first_from (suc n) test names in if test s then n else rest

pub string_to_http_method : Bytes → HttpMethod
unfolding first_from
string_to_http_method m = first_from 0 (λ s. bytes_eq s (c_str m)) method_strings

pub chars_to_http_method : Bytes → HttpMethod
unfolding first_from
chars_to_http_method m = first_from 0 (λ s. is_prefix s (c_str m)) method_strings

abbrev or_unknown : Option Bytes → Bytes
or_unknown none = codes "<unknow>"
or_unknown (some s) = s

-- An index past the table gives "<unknow>".
unfoldable pub http_method_to_string : HttpMethod → Bytes
http_method_to_string m = or_unknown (get_elem? method_strings m)
