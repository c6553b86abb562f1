-- ===== src/Examples/Websocket.antt =====
-- A connection to the echo server (echo/echo_service.cpp, inc/websocket_session_base.hpp).
use boost_web.Common.{
  arith, ◌≤◌, length, ◌-◌, ◌≡◌, refl, true, false, List, [], ◌∷◌, ◌++◌, some, codes, ◌⊎◌, size_mod,
  none,
}
use boost_web.Address.{Address}
use boost_web.Errors.{success, websocket_closed, other_error}
use boost_web.Websocket.Session.{BufferNode, Session}
use boost_web.Websocket.Session
use boost_web.Websocket.Members
use boost_web.Websocket.Service.{Callback, Stage}
use boost_web.Websocket.Connection.{
  Connection, start, accept, on_accept, on_post, on_recv, call, perform, then_recv, recv,
  send_buffer_fill, enqueue, send, start_write, on_send,
}
use boost_web.Websocket.Events.{
  Reachable, Step, end_read, server, next, accepted, posted, read, deliver,
}
use boost_web.Websocket.SendQueue.{SendInv}
use boost_web.Websocket.SendQueue.Handlers.{Reachable-SendInv}
use boost_web.Websocket.Liveness.{never_stalls}
use boost_web.Websocket.RecvQueue.Handlers.{RecvInv}
use boost_web.Websocket.RecvQueue.Steps.{
  Disciplined, Reachable-RecvInv, pending_read_looks_like_data,
}
use boost_web.Websocket.Channel.{Acts, empty, channel}
use boost_web.Websocket.Channel.Refines.{refines-Channel}
use boost_web.Websocket.LastCallback.{on_error_after_on_close}
use boost_web.Echo.{EchoService, echo_service, insert_connection, send_message, remove_connection}
use boost_web.Echo.Order.{hello, Serving, start_serving, serve, echoes_in_order}

abbrev nobody : EchoService
nobody = record { connect_count = 0; disconnect_count = 0 }

abbrev local : Address
local = record {
  host_ip = codes "127.0.0.1";
  host_port = 12345;
  peer_ip = codes "127.0.0.1";
  peer_port = 50000;
}

-- The connection waits for the handshake.
abbrev waiting : Connection EchoService
waiting = accept (start nobody (Session.new local))

waiting-Reachable : Reachable echo_service waiting
waiting-Reachable = server nobody local

-- It is accepted, and the greeting is on its way.
abbrev greeted : Connection EchoService
greeted = on_accept echo_service success (record waiting { accepting = false })

greeted-Step : Step echo_service waiting greeted
unfolding accept
greeted-Step = accepted success refl

-- The greeting is being written.
abbrev greeting : Connection EchoService
greeting = on_post hello (record greeted { posted = [] })

greeting-Step : Step echo_service greeted greeting
unfolding accept on_accept call perform insert_connection send_message send_buffer_fill then_recv
    recv
greeting-Step = posted hello [] refl

greeting-Reachable : Reachable echo_service greeting
greeting-Reachable = next (next waiting-Reachable greeted-Step) greeting-Step

greeting_written : greeting.writing ≡ some hello
unfolding accept on_accept call perform insert_connection send_message send_buffer_fill then_recv
    recv on_post enqueue send start_write
greeting_written = refl

greeting_read : greeting.reading ≡ true
unfolding accept on_accept call perform insert_connection send_message send_buffer_fill then_recv
    recv on_post enqueue send start_write
greeting_read = refl

greeting_open : greeting.session.has_close ≡ false
unfolding accept on_accept call perform insert_connection send_message send_buffer_fill then_recv
    recv on_post enqueue send start_write
greeting_open = refl

greeting_not_closing : greeting.closing ≡ 0
unfolding accept on_accept call perform insert_connection send_message send_buffer_fill then_recv
    recv on_post enqueue send start_write
greeting_not_closing = refl

greeting_queue : greeting.session.send_queue ≡ hello ∷ []
unfolding accept on_accept call perform insert_connection send_message send_buffer_fill then_recv
    recv on_post enqueue send start_write
greeting_queue = refl

Reachable-SendInv_example : SendInv greeting
Reachable-SendInv_example = Reachable-SendInv echo_service greeting greeting-Reachable

never_stalls_example : greeting.writing ≡ some hello
never_stalls_example =
    never_stalls echo_service greeting hello [] greeting-Reachable greeting_open
      greeting_not_closing greeting_queue

on_error_after_on_close_example :
    let k₁ = on_recv echo_service websocket_closed true (end_read [] greeting) in
    let k₂ = on_send echo_service (other_error 125) 0 (record k₁ { writing = none }) in
    (k₁.writing ≡ greeting.writing)
    × (k₁.callbacks ≡ Callback.closed ∷ greeting.callbacks)
    × (k₂.callbacks
        ≡ Callback.errored Stage.send (other_error 125) ∷ Callback.closed ∷ greeting.callbacks)
on_error_after_on_close_example =
    on_error_after_on_close echo_service greeting true [] (other_error 125) 0 greeting_open refl
      refl

echo_service-Disciplined : Disciplined echo_service
unfolding remove_connection
echo_service-Disciplined = record {
  sends = λ w. tt;
  errors = λ w stage ec. tt;
  closes = λ w host_ip host_port peer_ip peer_port. tt;
}

Reachable-RecvInv_example : RecvInv greeting
Reachable-RecvInv_example =
    Reachable-RecvInv echo_service echo_service-Disciplined greeting greeting-Reachable

greeting_uncounted : Members.recv_queue_size greeting.session ≡ 0
unfolding accept on_accept call perform insert_connection send_message send_buffer_fill then_recv
    recv on_post enqueue send start_write Members.recv_queue_size
greeting_uncounted = refl

greeting_fits : length greeting.session.recv_queue ≤ size_mod
unfolding accept on_accept call perform insert_connection send_message send_buffer_fill then_recv
    recv on_post enqueue send start_write
greeting_fits = omega arith

pending_read_looks_like_data_example :
    let dropped = Members.recv_buffer_drop greeting.session in
    (node : BufferNode) × (greeting.session.recv_queue ≡ node ∷ [])
    × ((end_read (codes "hi") greeting).session.recv_queue
        ≡ record node { buffer = codes "hi" } ∷ [])
    × (Members.recv_buffer_has_data greeting.session ≡ true)
    × (dropped.1 ≡ true)
    × (dropped.0.recv_queue ≡ [])
    × (dropped.0.recv_queue_size ≡ size_mod - 1)
pending_read_looks_like_data_example =
    pending_read_looks_like_data echo_service echo_service-Disciplined greeting (codes "hi")
      greeting-Reachable greeting_read greeting_uncounted greeting_fits

-- A message has arrived.
abbrev answered : Connection EchoService
answered = on_recv echo_service success false (deliver false (codes "hi") greeting)

answered-Serving : Serving answered
unfolding greeted-Step greeting-Step
answered-Serving =
    serve (serve (serve (start_serving nobody local) greeted-Step refl) greeting-Step refl)
      (read false (codes "hi") greeting_read) refl

echoes_in_order_example :
    ((answered.written ++ (answered.session.send_queue ++ answered.posted) ≡ [])
        × (answered.arrived ≡ [])
      ⊎ (answered.written ++ (answered.session.send_queue ++ answered.posted)
          ≡ hello ∷ answered.arrived))
    × (answered.aborted ≡ false)
echoes_in_order_example = echoes_in_order answered answered-Serving

refines-Channel_example :
    Acts empty greeting.filled (channel greeting)
    × ((k' : Connection EchoService)
        → Step echo_service greeting k'
        → (taken : List BufferNode) × (k'.filled ≡ greeting.filled ++ taken)
          × Acts (channel greeting) taken (channel k'))
refines-Channel_example = refines-Channel echo_service greeting greeting-Reachable
