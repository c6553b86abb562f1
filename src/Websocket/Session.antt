-- ===== src/Websocket/Session.antt =====
-- inc/websocket_session_base.hpp: the state of WebsocketSessionBase.
-- A `void *` is the number of the address that it holds, nullptr being 0.
use boost_web.Common.{ℕ, Bool, false, List, [], Bytes}
use boost_web.Address.{Address}

pub record BufferNode : Type 0 where
  pub is_text : Bool
  pub buffer : Bytes

pub record Session : Type 0 where
  pub address : Address
  pub recv_queue : List BufferNode
  pub send_queue : List BufferNode
  pub recv_queue_size : ℕ  -- std::atomic<std::size_t>
  pub send_queue_size : ℕ  -- std::atomic<std::size_t>
  pub user_data : ℕ
  pub has_close : Bool

-- WebsocketSessionBase::WebsocketSessionBase
abbrev pub new : Address → Session
new address = record {
  address = address;
  recv_queue = [];
  send_queue = [];
  recv_queue_size = 0;
  send_queue_size = 0;
  user_data = 0;
  has_close = false;
}
