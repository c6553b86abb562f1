-- ===== src/Http/Wrapper.antt =====
-- inc/http_message.hpp, inc/http_request.hpp and inc/http_response.hpp: the messages that a service is
-- given, as wrappers of Boost.Beast's; their interfaces and numbers are those of inc/boost_web.h.
pub mod Numbers
pub mod Beast
pub mod Calls
pub mod RoundTrip
