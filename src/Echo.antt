-- ===== src/Echo.antt =====
-- echo/echo_service.cpp: a websocket service that sends back what it receives. What it prints is left
-- out.
pub mod Order
pub mod Start
use boost_web.Common.{
  ℕ, zero, suc, Bool, true, [], ◌∷◌, Option, none, some, Bytes, codes, increment, if◌then◌else◌,
}
use boost_web.Websocket.Service.{Program, Service}

-- EchoService, with the two std::atomic_long as 64-bit patterns.
pub record EchoService : Type 0 where
  pub connect_count : ℕ
  pub disconnect_count : ℕ

abbrev pub hello_data : Bytes
hello_data = codes "welcome to access ws://a.b.c.d:12345/"

-- The first `n` bytes of the memory that `content` leads to, as a std::string.
abbrev pub string_of : Option Bytes → ℕ → Bytes
string_of none n = []
string_of (some content) zero = []
string_of (some []) (suc n) = []
string_of (some (c ∷ cs)) (suc n) = c ∷ string_of (some cs) n

unfoldable pub insert_connection :
    EchoService → (EchoService → Program EchoService) → Program EchoService
insert_connection e next = Program.get_host_address λ host_ip host_port.
    Program.get_peer_address
      λ peer_ip peer_port. next (record e { connect_count = increment e.connect_count })

unfoldable pub remove_connection : EchoService → Program EchoService
remove_connection e = Program.get_host_address λ host_ip host_port.
    Program.get_peer_address λ peer_ip peer_port.
      Program.answer true (record e { disconnect_count = increment e.disconnect_count })

unfoldable pub send_message : Bool → Bytes → EchoService → Program EchoService
send_message is_text content e =
    Program.send_buffer_fill is_text content
      λ filled. if filled then Program.answer true e else Program.assertion_failed

unfoldable pub recv_message : EchoService → Program EchoService
unfolding send_message
recv_message e = Program.recv_buffer_has_data λ has_data.
    if has_data
    then (Program.recv_buffer_data_is_text λ is_text. Program.recv_buffer_data λ content.
        Program.recv_buffer_size λ size. Program.recv_buffer_drop λ dropped.
          if dropped
          then send_message is_text (string_of content size) e
          else Program.assertion_failed)
    else Program.assertion_failed

abbrev pub echo_service : Service EchoService
echo_service = record {
  on_connect = λ e identity. Program.assertion_failed;
  on_accept = λ e listener_port. insert_connection e (send_message true hello_data);
  on_recv = recv_message;
  on_send = λ e. Program.answer true e;
  on_error = λ e stage ec. Program.answer true e;
  on_close = remove_connection;
}
