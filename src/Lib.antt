-- ===== src/Lib.antt =====
-- boost_web: an HTTP and websocket server library on Boost.Asio and Boost.Beast, and its echo server.
--
-- The parts and how they interact. WebManager (src/web_manager.cpp) holds a WebManagerImpl
-- (src/web_manager_impl.cpp), which starts a Listener (src/listener.cpp) for each address that is served.
-- A Listener makes a DetectSession (src/detect_session.cpp) of each connection, which finds out
-- whether the client speaks TLS and makes an HttpSession or HttpsSession (inc/http_session_base.hpp) of
-- it. That one answers requests by handle_request (inc/http_utility.h), which serves files or calls the
-- application's WebServiceBase (inc/boost_web.h), until a request asks for a websocket: then it gives
-- the stream to a websocket session (inc/websocket_session_base.hpp), which calls the application back.
-- A connector makes such a session for a client that the application asks WebManager for.
--
-- The modules.
--   Common: tests on numbers, lists and texts; std::size_t is a number below 2^64, a std::string is the
--     list of its bytes.
--   Address (src/address.cpp), Errors (the error codes that the code tells apart, and the calls of
--     on_error), Protocol (support_protocol_t of inc/boost_web.h).
--   Websocket (inc/websocket_session_base.hpp): Session is the state of WebsocketSessionBase, Members its
--     operations that start nothing, Service the application's callbacks, Connection the operations and
--     completion handlers with what is outstanding on the stream, Events the rounds of the event loop as a
--     step relation. Frame says what a callback cannot change; SendQueue, Liveness, RecvQueue and
--     LastCallback are about the two queues and the callbacks; Channel is what the send side promises,
--     and how the rounds of the event loop keep it.
--   Echo (echo/echo_service.cpp): the echo server's callbacks as a Service; Echo.Order is about what it
--     sends, Echo.Start is its init and exit.
--   DetectSession (src/detect_session.cpp): the constructor, on_run and on_detect.
--   Handover (src/detect_session.cpp, inc/http_session_base.hpp, src/websocket_session_plain.cpp,
--     src/websocket_session_ssl.cpp and their headers): how one session is made of another; Identity is
--     what stays of a connection, Pending what is left behind.
--   HttpSession (inc/http_session_base.hpp, src/http_session_plain.cpp, src/http_session_ssl.cpp): the
--     session for both transports, Events its step relation, Gate the protocols that are switched on,
--     Silent a session that never asks the service, Pipeline the queue of responses.
--   Http (inc/http_utility.h, src/http_utility.cpp): Target the test of a request's target, Mime the table
--     of MIME types, Messages what is used of Boost.Beast and of the service, Handle handle_request, Server
--     the session with handle_request in it.
--     Wrapper (inc/http_message.hpp, inc/http_request.hpp, inc/http_response.hpp) is the messages that a
--     service is given: Numbers the enumerations of inc/boost_web.h, Beast what is wrapped, Calls the
--     methods, RoundTrip what is read of what was set.
--   Listener (src/listener.cpp), Manager (src/web_manager_impl.cpp): Manager.Init is init,
--     Manager.Lifecycle the calls of WebManager (src/web_manager.cpp).
--   Connector (src/websocket_connector_plain.cpp, src/websocket_connector_ssl.cpp): the making of a
--     connection for a client, as a state machine, for both transports.
--   TestService (test/test_service.cpp): parse_file_body; Chat is its websocket callbacks, as a Service,
--     and Chat.Conversation two of its ends that talk to each other; Request is handle_request, through the
--     wrappers; Multipart writes the bodies that parse_file_body reads, Ends and Sizes are about the loop in
--     it; Start is init and exit.
--   Examples: runs on small inputs.
--
-- How the code is modelled. A handler is a function from the state to the state; the state has, beside the
-- members, what is outstanding on the stream and a record of what was done. The handlers of one
-- connection run one after the other, as its strand makes them, in any order that the outstanding
-- operations allow; other threads may call send_buffer_fill at any time. A callback of the
-- application is any finite exchange of calls with its connection, and keeps a state of its own. The
-- loops are recursions on lists, but for that of parse_file_body, which has fuel: as each iteration
-- starts further on in the body than the one before, more fuel than the body has bytes is enough.
-- What Boost does is a parameter: messages, files, the acceptor and the certificates are records of
-- functions, with what is relied on stated as Laws. A write that ends well has written the whole
-- message, as is documented of async_write.
--
-- Not modelled: the main functions, what is printed for information, the static_asserts on the numbers
-- of methods and results, and options that only configure Boost.
pub mod Common
pub mod Address
pub mod Errors
pub mod Websocket
pub mod Echo
pub mod Protocol
pub mod DetectSession
pub mod Listener
pub mod HttpSession
pub mod Handover
pub mod Http
pub mod Manager
pub mod Connector
pub mod TestService
pub mod Examples
