-- ===== src/Http/Servlet.antt =====
-- Servlets and `ServletDispatch` of src/http/servlet.cc and include/http/servlet.h. The callback of a
-- servlet may change the request, the response and the socket of the session; `none` is a null pointer.
pub mod Changes
pub mod Globs
mod Tests
use co_lib.Prelude.{
  ℕ, List, [], ◌∷◌, ◌++◌, Option, some, none, Bool, true, false, if◌then◌else◌, Bytes, bytes_eq,
  codes, c_str, ℤ, pos,
}
use co_lib.Http.Headers.{HttpRequest, assign}
use co_lib.Http.Session.{Socket}
use co_lib.Http.Message.{HttpResponse}

abbrev pub Handled : Type 0
Handled = HttpRequest × HttpResponse × Socket

-- `FunctionServlet` (as any subclass of the program), and `NotFoundServlet`
pub data Servlet : Type 0 where
  function_servlet : (Handled → Handled × ℤ) → Servlet
  not_found_servlet : Servlet

abbrev pub not_found_body : Bytes
not_found_body =
    codes "<html><head><title>404 Not Found"
    ++ (codes "</title></head><body><center><h1>404 Not Found</h1></center>"
        ++ codes "<hr><center>fkyzt/1.0</center></body></html>")

-- `HttpResponse::setHeader`
abbrev pub set_response_header : Bytes → Bytes → HttpResponse → HttpResponse
set_response_header key val r = record r { headers = assign key val r.headers }

-- `NotFoundServlet::handle`
abbrev pub not_found : HttpResponse → HttpResponse
not_found r =
    let r1 : HttpResponse = record r { status = 404 } in
    let r2 = set_response_header (codes "Server") (codes "co_lib/1.0.0") r1 in
    let r3 = set_response_header (codes "Content-Type") (codes "text/html") r2 in
    record r3 { body = not_found_body }

-- `Servlet::handle`
abbrev pub handle_by : Servlet → Handled → Handled × ℤ
handle_by (function_servlet cb) h = cb h
handle_by not_found_servlet (request, response, socket) =
    ((request, not_found response, socket), pos 0)

abbrev pub Entries : Type 0
Entries = List (Bytes × Option Servlet)

-- `m_datas` by its keys, `m_globs`, `m_default`
pub record ServletDispatch : Type 0 where
  pub datas : Entries
  pub globs : Entries
  pub default : Option Servlet

-- `ServletDispatch::ServletDispatch`
abbrev pub new_dispatch : ServletDispatch
new_dispatch = record { datas = []; globs = []; default = some not_found_servlet }

-- `m_datas[uri] = slt`
pub put_entry : Bytes → Option Servlet → Entries → Entries
put_entry uri slt [] = (uri, slt) ∷ []
put_entry uri slt ((k, v) ∷ m) =
    let rest = put_entry uri slt m in if bytes_eq k uri then (k, slt) ∷ m else (k, v) ∷ rest

-- The entry of a key, as `find` and the loop of `getGloServlet` give it.
pub entry_of : Bytes → Entries → Option (Option Servlet)
entry_of uri [] = none
entry_of uri ((k, v) ∷ m) = let rest = entry_of uri m in if bytes_eq k uri then some v else rest

-- The first entry with this key is erased.
pub erase_entry : Bytes → Entries → Entries
erase_entry uri [] = []
erase_entry uri ((k, v) ∷ m) =
    let rest = erase_entry uri m in if bytes_eq k uri then m else (k, v) ∷ rest

-- `erase` of a map: the entry of the key, if there is one.
pub erase_key : Bytes → Entries → Entries
erase_key uri [] = []
erase_key uri ((k, v) ∷ m) =
    let rest = erase_key uri m in if bytes_eq k uri then rest else (k, v) ∷ rest

abbrev pub or_null : Option (Option Servlet) → Option Servlet
or_null none = none
or_null (some s) = s

-- `addServlet`, `addGloServlet`, `delServlet`, `delGloServlet`, `setDefault`
pub add_servlet : Bytes → Option Servlet → ServletDispatch → ServletDispatch
add_servlet uri slt d = record d { datas = put_entry uri slt d.datas }

pub add_glo_servlet : Bytes → Option Servlet → ServletDispatch → ServletDispatch
add_glo_servlet uri slt d = record d { globs = erase_entry uri d.globs ++ ((uri, slt) ∷ []) }

pub del_servlet : Bytes → ServletDispatch → ServletDispatch
del_servlet uri d = record d { datas = erase_key uri d.datas }

pub del_glo_servlet : Bytes → ServletDispatch → ServletDispatch
del_glo_servlet uri d = record d { globs = erase_entry uri d.globs }

pub set_default : Option Servlet → ServletDispatch → ServletDispatch
set_default slt d = record d { default = slt }

-- `getServlet` and `getGloServlet`
pub get_servlet : Bytes → ServletDispatch → Option Servlet
get_servlet uri d = or_null (entry_of uri d.datas)

pub get_glo_servlet : Bytes → ServletDispatch → Option Servlet
get_glo_servlet uri d = or_null (entry_of uri d.globs)

abbrev pub or_else : Option (Option Servlet) → Option Servlet → Option Servlet
or_else none s = s
or_else (some v) s = v

abbrev pub handle_if : Option Servlet → Handled → Handled
handle_if none h = h
handle_if (some s) h = (handle_by s h).0

-- `fnmatch pattern text` is whether the function of this name returns 0, with no flags.
module _ (fnmatch : Bytes → Bytes → Bool) where
  abbrev pub first_match : Bytes → Entries → Option (Option Servlet)
  first_match uri [] = none
  first_match uri ((k, v) ∷ m) =
      let rest = first_match uri m in if fnmatch (c_str k) (c_str uri) then some v else rest

  -- `getMatchedServlet`
  pub get_matched_servlet : Bytes → ServletDispatch → Option Servlet
  get_matched_servlet uri d =
      or_else (entry_of uri d.datas) (or_else (first_match uri d.globs) d.default)

  -- `ServletDispatch::handle`
  pub handle : ServletDispatch → Handled → Handled × ℤ
  handle d h = (handle_if (get_matched_servlet h.0.path d) h, pos 0)
