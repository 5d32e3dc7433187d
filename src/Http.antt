-- ===== src/Http.antt =====
-- The HTTP messages of src/http/http.cc and include/http/http.h.
pub mod Method
pub mod Headers
pub mod Status
pub mod Session
pub mod Message
pub mod Servlet
pub mod Receiving
