-- ===== src/Websocket.antt =====
-- inc/websocket_session_base.hpp: one websocket connection and the service that it calls back.
pub mod Session
pub mod Members
pub mod Service
pub mod Connection
pub mod Events
pub mod Frame
pub mod SendQueue
pub mod Liveness
pub mod RecvQueue
pub mod LastCallback
pub mod Channel
