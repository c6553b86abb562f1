-- ===== src/Http.antt =====
-- Serving a request: inc/http_utility.h, src/http_utility.cpp, inc/http_request.hpp, inc/http_response.hpp.
pub mod Target
pub mod Mime
pub mod Messages
pub mod Wrapper
pub mod Handle
pub mod Server
