-- ===== src/Http/Status/Tests.antt =====
-- Texts of statuses of src/http/http.cc.
use co_lib.Prelude.{◌≡◌, refl, codes}
use co_lib.Http.Status.{http_status_to_string}
use co_lib.Http.Status.Texts.{http_status_to_string_entry}

http_status_to_string_entry_test : http_status_to_string 404 ≡ codes "Not Found"
http_status_to_string_entry_test = http_status_to_string_entry 25 404 (codes "Not Found") refl
