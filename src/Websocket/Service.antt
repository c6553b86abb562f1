-- ===== src/Websocket/Service.antt =====
-- inc/boost_web.h: the callbacks of WebServiceBase for websockets. The service is the application's
-- code: a callback is any finite exchange of calls with the connection that it is given, through
-- WebsocketConnectionBase, after which it answers a Boolean and the service's new state.
use boost_web.Common.{ℕ, Bool, Bytes, Option}
use boost_web.Errors.{ErrorCode}

pub data Program (W : Type 0) : Type 0 where
  answer : Bool → W → Program W
  -- assert(false)
  assertion_failed : Program W
  set_user_data : ℕ → Program W → Program W
  get_user_data : (ℕ → Program W) → Program W
  get_host_address : (Bytes → ℕ → Program W) → Program W
  get_peer_address : (Bytes → ℕ → Program W) → Program W
  recv_queue_size : (ℕ → Program W) → Program W
  recv_buffer_has_data : (Bool → Program W) → Program W
  recv_buffer_data_is_text : (Bool → Program W) → Program W
  recv_buffer_data : (Option Bytes → Program W) → Program W
  recv_buffer_size : (ℕ → Program W) → Program W
  recv_buffer_drop : (Bool → Program W) → Program W
  send_queue_size : (ℕ → Program W) → Program W
  send_buffer_fill : Bool → Bytes → (Bool → Program W) → Program W
  close : Program W → Program W

-- Which asynchronous operation an on_error callback is about.
pub data Stage : Type 0 where
  accept recv send : Stage

-- The answers of on_error and on_close are void, and so ignored.
pub record Service (W : Type 0) : Type 0 where
  pub on_connect : W → ℕ → Program W
  pub on_accept : W → ℕ → Program W
  pub on_recv : W → Program W
  pub on_send : W → Program W
  pub on_error : W → Stage → ErrorCode → Program W
  pub on_close : W → Program W

-- A callback that has been made.
pub data Callback : Type 0 where
  connected : ℕ → Callback
  accepted : ℕ → Callback
  received sent closed : Callback
  errored : Stage → ErrorCode → Callback
