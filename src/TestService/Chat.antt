-- ===== src/TestService/Chat.antt =====
-- test/test_service.cpp: the websocket callbacks of TestService, which sends messages back and forth.
-- What it prints is left out. An assert(false) ends the callback. A callback is given a connection
-- here; on_connect and on_accept answer false of a nullptr.
pub mod Blocks
pub mod Conversation
use boost_web.Common.{
  ℕ, zero, suc, ◌+◌, ◌*◌, ◌%◌, ◌==◌, leb, Bool, true, false, not, List, [], ◌∷◌, ◌++◌, Option, none,
  some, Bytes, codes, drop, increment, size_mod, if◌then◌else◌,
}
use boost_web.Http.Target.Segments.{equals}
use boost_web.TestService.{take}
use boost_web.Websocket.Service.{Program, Service}

-- The members that the callbacks use, with the three std::atomic_long as 64-bit patterns.
pub record TestService : Type 0 where
  pub text : Bool
  pub max_message_count : ℕ  -- std::size_t
  pub connect_count : ℕ
  pub disconnect_count : ℕ
  pub send_finish_count : ℕ

abbrev pub msg_blk : Bytes
msg_blk = codes "this is a message" ++ 10 ∷ []

abbrev pub msg_len : ℕ
msg_len = 18

-- `std::string(n, '\0')`
abbrev pub zeros : ℕ → Bytes
zeros zero = []
zeros (suc n) = 0 ∷ zeros n

-- memcpy of a block to the front of `data`
abbrev pub put : Bytes → Bytes → Bytes
put [] target = target
put (c ∷ cs) [] = []
put (c ∷ cs) (d ∷ ds) = c ∷ put cs ds

-- memcpy of a block to `data + offset`
abbrev pub put_at : ℕ → Bytes → Bytes → Bytes
put_at zero block target = put block target
put_at (suc n) block [] = []
put_at (suc n) block (d ∷ ds) = d ∷ put_at n block ds

-- The loop of send_message, with how many rounds are left
unfoldable pub copy_blocks : ℕ → ℕ → Bytes → Bytes
copy_blocks zero index target = target
copy_blocks (suc n) index target =
    copy_blocks n (index + 1) (put_at (msg_len * index) msg_blk target)

-- `data` of send_message
unfoldable pub message : ℕ → Bytes
unfolding copy_blocks
message count = copy_blocks count 0 (zeros ((msg_len * count) % size_mod))

abbrev pub bytes_at : Option Bytes → Bytes
bytes_at none = []
bytes_at (some content) = content

-- The loop of check_message: whether no assertion fails in it
unfoldable pub blocks_match : ℕ → Bytes → Bool
unfolding take equals
blocks_match zero target = true
blocks_match (suc n) target =
    let later = blocks_match n (drop msg_len target) in
    if equals (take msg_len target) msg_blk then later else false

unfoldable pub insert_connection :
    TestService → (TestService → Program TestService) → Program TestService
insert_connection t next = Program.get_host_address λ host_ip host_port.
    Program.get_peer_address λ peer_ip peer_port.
      Program.set_user_data 0 (next (record t { connect_count = increment t.connect_count }))

unfoldable pub remove_connection : TestService → Program TestService
remove_connection t = Program.get_host_address λ host_ip host_port.
    Program.get_peer_address λ peer_ip peer_port.
      Program.get_user_data
        λ count. Program.answer true (record t { disconnect_count = increment t.disconnect_count })

-- The end of send_message, of the count that it has raised
unfoldable pub send_count : TestService → ℕ → Program TestService
unfolding message
send_count t count = Program.set_user_data count (
    Program.send_buffer_fill t.text (message count)
      λ filled. if filled then Program.answer true t else Program.assertion_failed)

unfoldable pub send_finish : TestService → Program TestService
send_finish t = Program.get_host_address λ host_ip host_port.
    Program.get_peer_address λ peer_ip peer_port.
      Program.answer false (record t { send_finish_count = increment t.send_finish_count })

unfoldable pub send_message : TestService → Program TestService
unfolding send_count send_finish
send_message t =
    if t.max_message_count == 0
    then Program.answer true t
    else Program.get_user_data λ count.
      if leb t.max_message_count count then send_finish t else send_count t (increment count)

-- The answer of check_message, or that an assertion of it fails, of the raised count.
unfoldable pub is_expected : ℕ → Option Bytes → ℕ → Bool
unfolding blocks_match
is_expected count content size =
    if (msg_len * count) % size_mod == size then blocks_match count (bytes_at content) else false

unfoldable pub check_message :
    TestService → Option Bytes → ℕ → Program TestService → Program TestService
unfolding is_expected
check_message t content size next = Program.get_user_data λ count.
    if leb t.max_message_count count
    then Program.assertion_failed
    else Program.set_user_data (increment count)
        (if is_expected (increment count) content size then next else Program.assertion_failed)

abbrev pub same_kind : Bool → Bool → Bool
same_kind true b = b
same_kind false b = not b

-- The end of recv_message, once the message is checked
unfoldable pub drop_and_send : TestService → Program TestService
unfolding send_message
drop_and_send t = Program.recv_buffer_drop λ dropped.
    if dropped then (Program.get_user_data λ count. send_message t) else Program.assertion_failed

unfoldable pub recv_message : TestService → Program TestService
unfolding check_message drop_and_send
recv_message t =
    if t.max_message_count == 0
    then Program.assertion_failed
    else Program.recv_buffer_has_data λ has_data.
      if has_data
      then (Program.recv_buffer_data_is_text λ is_text.
          if same_kind is_text t.text
          then (Program.recv_buffer_data λ content.
              Program.recv_buffer_size λ size. check_message t content size (drop_and_send t))
          else Program.assertion_failed)
      else Program.assertion_failed

abbrev pub test_service : Service TestService
test_service = record {
  on_connect = λ t identity. insert_connection t send_message;
  on_accept = λ t listener_port. insert_connection t (Program.answer true);
  on_recv = recv_message;
  on_send = λ t. Program.answer true t;
  on_error = λ t stage ec. Program.answer true t;
  on_close = remove_connection;
}
