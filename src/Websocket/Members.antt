-- ===== src/Websocket/Members.antt =====
-- inc/websocket_session_base.hpp: the members of the public interface WebsocketConnectionBase
-- (inc/boost_web.h) that touch the session's state alone.
use boost_web.Common.{
  ℕ, Bool, true, false, List, [], ◌∷◌, Option, none, some, not, Bytes, length, decrement,
}
use boost_web.Websocket.Session.{BufferNode, Session}

unfoldable pub set_user_data : ℕ → Session → Session
set_user_data user_data s = record s { user_data = user_data }

unfoldable pub get_user_data : Session → ℕ
get_user_data s = s.user_data

unfoldable pub get_host_address : Session → Bytes × ℕ
get_host_address s = (s.address.host_ip, s.address.host_port)

unfoldable pub get_peer_address : Session → Bytes × ℕ
get_peer_address s = (s.address.peer_ip, s.address.peer_port)

unfoldable pub recv_queue_size : Session → ℕ
recv_queue_size s = s.recv_queue_size

abbrev pub is_empty {ℓ} : {A : Type ℓ} → List A → Bool
is_empty [] = true
is_empty (_ ∷ _) = false

unfoldable pub recv_buffer_has_data : Session → Bool
recv_buffer_has_data s = not (is_empty s.recv_queue)

abbrev front_is_text : List BufferNode → Bool
front_is_text [] = false
front_is_text (node ∷ _) = node.is_text

unfoldable pub recv_buffer_data_is_text : Session → Bool
recv_buffer_data_is_text s = front_is_text s.recv_queue

abbrev front_data : List BufferNode → Option Bytes
front_data [] = none
front_data (node ∷ _) = some node.buffer

-- The memory that the pointer leads to; nullptr is `none`.
unfoldable pub recv_buffer_data : Session → Option Bytes
recv_buffer_data s = front_data s.recv_queue

abbrev front_size : List BufferNode → ℕ
front_size [] = 0
front_size (node ∷ _) = length node.buffer

unfoldable pub recv_buffer_size : Session → ℕ
recv_buffer_size s = front_size s.recv_queue

abbrev pub drop_front : Session → List BufferNode → Session × Bool
drop_front s [] = (s, false)
drop_front s (_ ∷ rest) =
    (record s { recv_queue = rest; recv_queue_size = decrement s.recv_queue_size }, true)

unfoldable pub recv_buffer_drop : Session → Session × Bool
recv_buffer_drop s = drop_front s s.recv_queue

unfoldable pub send_queue_size : Session → ℕ
send_queue_size s = s.send_queue_size

-- Dropping changes the receive queue and its size only.
pub drop_cases {ℓ} :
    (P : Session × Bool → Type ℓ) (s : Session)
    → ((dropped : Bool) (queue : List BufferNode) (size : ℕ)
        → P (record s { recv_queue = queue; recv_queue_size = size }, dropped))
    → P (recv_buffer_drop s)
unfolding recv_buffer_drop
drop_cases P s h = go s.recv_queue
  where
    go : (queue : List BufferNode) → P (drop_front s queue)
    go [] = h false s.recv_queue s.recv_queue_size
    go (_ ∷ rest) = h true rest (decrement s.recv_queue_size)
