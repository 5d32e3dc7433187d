-- ===== src/Http/Headers.antt =====
-- The maps of a request in src/http/http.cc: headers, parameters and cookies, by keys that are equal
-- when they differ in the case of letters only. A `std::map` is the list of its entries in the
-- order of its comparator.
pub mod Laws
pub mod Order
mod Tests
use co_lib.Prelude.{
  ℕ, ◌+◌, List, [], ◌∷◌, Option, some, none, Bool, true, false, not, ◌&&◌, ◌||◌, ltb, leb, ◌==◌,
  if◌then◌else◌, Bytes, codes, c_str,
}
use co_lib.Http.Method.{HttpMethod}

-- `tolower` of a byte, as `strcasecmp` uses it in the C locale.
abbrev pub to_lower : ℕ → ℕ
to_lower x = if leb 65 x && leb x 90 then x + 32 else x

abbrev pub fold : Bytes → Bytes
fold [] = []
fold (x ∷ xs) = to_lower x ∷ fold xs

abbrev pub lex_less : Bytes → Bytes → Bool
lex_less xs [] = false
lex_less [] (y ∷ ys) = true
lex_less (x ∷ xs) (y ∷ ys) = ltb x y || (x == y && lex_less xs ys)

-- What the comparator sees of a key.
abbrev pub seen : Bytes → Bytes
seen key = fold (c_str key)

-- `CaseInsensitiveLess`
abbrev pub case_insensitive_less : Bytes → Bytes → Bool
case_insensitive_less a b = lex_less (seen a) (seen b)

abbrev pub MapType : Type 0
MapType = List (Bytes × Bytes)

-- Two keys that the map does not tell apart.
abbrev pub is_equivalent : Bytes → Bytes → Bool
is_equivalent a b = not (case_insensitive_less a b) && not (case_insensitive_less b a)

unfoldable pub find : Bytes → MapType → Option Bytes
find key [] = none
find key ((k, v) ∷ m) = let rest = find key m in if is_equivalent key k then some v else rest

-- `m[key] = val`
pub assign : Bytes → Bytes → MapType → MapType
assign key val [] = (key, val) ∷ []
assign key val ((k, v) ∷ m) =
    let rest = assign key val m in
    if case_insensitive_less key k
    then (key, val) ∷ ((k, v) ∷ m)
    else if case_insensitive_less k key
    then (k, v) ∷ rest
    else (k, val) ∷ m

-- `m.erase(key)`
pub erase : Bytes → MapType → MapType
erase key [] = []
erase key ((k, v) ∷ m) =
    let rest = erase key m in if is_equivalent key k then rest else (k, v) ∷ rest

abbrev get_method : HttpMethod
get_method = 1

pub record HttpRequest : Type 0 where
  pub method : HttpMethod
  pub version : ℕ
  pub close : Bool
  pub path : Bytes
  pub query : Bytes
  pub fragment : Bytes
  pub body : Bytes
  pub headers : MapType
  pub params : MapType
  pub cookies : MapType

-- `HttpRequest::HttpRequest`; the method is GET.
abbrev pub new_request : ℕ → Bool → HttpRequest
new_request version close = record {
  method = get_method;
  version = version;
  close = close;
  path = codes "/";
  query = [];
  fragment = [];
  body = [];
  headers = [];
  params = [];
  cookies = [];
}

abbrev or_default : Bytes → Option Bytes → Bytes
or_default def none = def
or_default def (some v) = v

unfoldable pub get_header : Bytes → Bytes → HttpRequest → Bytes
get_header key def r = or_default def (find key r.headers)

pub get_param : Bytes → Bytes → HttpRequest → Bytes
get_param key def r = or_default def (find key r.params)

pub get_cookie : Bytes → Bytes → HttpRequest → Bytes
get_cookie key def r = or_default def (find key r.cookies)

pub set_header : Bytes → Bytes → HttpRequest → HttpRequest
set_header key val r = record r { headers = assign key val r.headers }

pub set_param : Bytes → Bytes → HttpRequest → HttpRequest
set_param key val r = record r { params = assign key val r.params }

pub set_cookie : Bytes → Bytes → HttpRequest → HttpRequest
set_cookie key val r = record r { cookies = assign key val r.cookies }

pub del_header : Bytes → HttpRequest → HttpRequest
del_header key r = record r { headers = erase key r.headers }

pub del_param : Bytes → HttpRequest → HttpRequest
del_param key r = record r { params = erase key r.params }

pub del_cookie : Bytes → HttpRequest → HttpRequest
del_cookie key r = record r { cookies = erase key r.cookies }

-- `hasHeader(key, &val)`: its result, and what `val` is set to, if it is.
abbrev has : Option Bytes → Bool × Option Bytes
has none = (false, none)
has (some v) = (true, some v)

pub has_header : Bytes → HttpRequest → Bool × Option Bytes
has_header key r = has (find key r.headers)

pub has_param : Bytes → HttpRequest → Bool × Option Bytes
has_param key r = has (find key r.params)

pub has_cookie : Bytes → HttpRequest → Bool × Option Bytes
has_cookie key r = has (find key r.cookies)
