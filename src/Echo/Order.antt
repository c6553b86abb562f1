-- ===== src/Echo/Order.antt =====
-- What the service of echo/echo_service.cpp sends on a connection of inc/websocket_session_base.hpp.
use mathlib.Core.Bool.{true≢false}
use boost_web.Address.{Address}
use boost_web.Common.{sym, ◌∙◌, ◌++◌}
use boost_web.Common.{
  sym, ◌∙◌, ℕ, ◌≡◌, refl, ◌∙◌, Bool, true, false, List, [], ◌∷◌, none, length, if_cases, ap, inl,
  Bytes, ◌⊎◌, inr, ltb, some, Option, ◌==◌,
}
use boost_web.Errors.{ErrorCode, success, stream_truncated, websocket_closed, failed}
use boost_web.Websocket.Session.{BufferNode, Session}
use boost_web.Websocket.Session
use boost_web.Websocket.Service.{Stage, Callback}
use boost_web.Websocket.Connection.{
  Connection, start, accept, call, report, on_accept, message_received, received_into, recv_failed,
  on_recv, send_failed, node_sent, sent_from, on_send, on_close, pop_sent, partly_sent, on_post,
  start_write, then_send, send_next, perform, enqueue, send, then_recv,
}
use boost_web.Websocket.Events.{
  Step, accepted, read, read_failed, wrote, write_failed, closed, posted, filled_outside, Reachable,
  server, next, end_read, deliver, end_write, end_read, deliver,
}
use mathlib.Core.Bool.{true≢false}
use boost_web.Echo.{
  EchoService, hello_data, string_of, insert_connection, remove_connection, send_message,
  recv_message, echo_service,
}
use boost_web.Websocket.Events.{is_inside}
use boost_web.Websocket.SendQueue.Handlers.{Reachable-SendInv}

abbrev pub hello : BufferNode
hello = record { is_text = true; buffer = hello_data }

-- The states of a connection that a client made to the echo server, where no other thread sends.
pub data Serving : Connection EchoService → Type 0 where
  start_serving :
      (e : EchoService) (address : Address) → Serving (accept (start e (Session.new address)))
  serve :
      {k k' : Connection EchoService}
      → Serving k
      → (st : Step echo_service k k') → is_inside echo_service st ≡ true
      → Serving k'

pub Serving-Reachable : (k : Connection EchoService) → Serving k → Reachable echo_service k
Serving-Reachable k (start_serving e address) = server e address
Serving-Reachable k (serve {k = k₀} r st inside) = next (Serving-Reachable k₀ r) st

abbrev One : List BufferNode → Type 0
One [] = ⊥
One (_ ∷ []) = Unit
One (_ ∷ _ ∷ _) = ⊥

abbrev pub Echoes : Connection EchoService → Type 0
Echoes k = record {
  echoes : ((k.filled ≡ []) × (k.arrived ≡ [])) ⊎ (k.filled ≡ hello ∷ k.arrived);
  reads : k.reading ≡ true → (k.filled ≡ hello ∷ k.arrived) × One k.session.recv_queue;
  accepts : k.accepting ≡ true → (k.filled ≡ []) × (k.arrived ≡ []) × (k.session.recv_queue ≡ []);
  exclusive : (k.accepting ≡ false) ⊎ (k.reading ≡ false);
  calm : k.aborted ≡ false;
}

on_close-Echoes :
    (ec : ErrorCode) (k : Connection EchoService) → Echoes k → Echoes (on_close echo_service ec k)
unfolding on_close call perform remove_connection
on_close-Echoes ec k v = if_cases Echoes k.session.has_close k _ (λ _. v) (λ _. v)

start_write-Echoes :
    (k : Connection EchoService) (w : Option BufferNode) (q : List BufferNode)
    → Echoes k
    → Echoes (start_write k w q)
unfolding start_write
start_write-Echoes k w [] v = v
start_write-Echoes k none (_ ∷ _) v = v
start_write-Echoes k (some _) (_ ∷ _) v = v

send_next-Echoes :
    (k : Connection EchoService) (q : List BufferNode) → Echoes k → Echoes (send_next q k)
unfolding send_next
send_next-Echoes k [] v = v
send_next-Echoes k (_ ∷ _) v = start_write-Echoes k k.writing k.session.send_queue v

on_post-Echoes :
    (node : BufferNode) (k : Connection EchoService) → Echoes k → Echoes (on_post node k)
unfolding on_post
on_post-Echoes node k v =
    let k' = enqueue node k in
    if_cases Echoes (length k'.session.send_queue == 1) (send k') k'
      (λ _. start_write-Echoes k' k'.writing k'.session.send_queue v) (λ _. v)

sent_from-Echoes :
    (bytes : ℕ) (k : Connection EchoService) (q : List BufferNode)
    → Echoes k
    → Echoes (sent_from echo_service bytes k q)
unfolding sent_from node_sent partly_sent then_send call perform
sent_from-Echoes bytes k [] v = v
sent_from-Echoes bytes k (node ∷ rest) v =
    if_cases Echoes (ltb bytes (length node.buffer)) (partly_sent bytes k node rest)
      (node_sent echo_service k rest) (λ _. v)
      λ _.
        send_next-Echoes (record (pop_sent k rest) { callbacks = Callback.sent ∷ k.callbacks }) rest
          v

string_of_all : (content : Bytes) → string_of (some content) (length content) ≡ content
string_of_all [] = refl
string_of_all (c ∷ cs) = ap (◌∷◌ c) (string_of_all cs)

on_send-Echoes :
    (ec : ErrorCode) (bytes : ℕ) (k : Connection EchoService)
    → Echoes k
    → Echoes (on_send echo_service ec bytes k)
unfolding on_send send_failed report call perform
on_send-Echoes success bytes k v = sent_from-Echoes bytes k k.session.send_queue v
on_send-Echoes stream_truncated bytes k v = on_close-Echoes stream_truncated k v
on_send-Echoes ec bytes k v = on_close-Echoes ec (report echo_service Stage.send ec k) v

on_accept-Echoes :
    (ec : ErrorCode) (k : Connection EchoService)
    → k.accepting ≡ true
    → Echoes k
    → Echoes (on_accept echo_service ec (record k { accepting = false }))
unfolding on_accept report call perform insert_connection send_message then_recv
on_accept-Echoes success k e v =
    let (f, a, q) = v.accepts e in
    record {
      echoes = inr (rw (f, a) refl);
      reads = λ _. (rw (f, a) refl, rw q tt);
      accepts = λ e. cc;
      exclusive = inl refl;
      calm = v.calm;
    }
on_accept-Echoes stream_truncated k e v = record {
  echoes = v.echoes;
  reads = v.reads;
  accepts = λ e. cc;
  exclusive = inl refl;
  calm = v.calm;
}
on_accept-Echoes ec k e v = record {
  echoes = v.echoes;
  reads = v.reads;
  accepts = λ e. cc;
  exclusive = inl refl;
  calm = v.calm;
}

-- The connection `k` with another receive queue.
abbrev with_recv : Connection EchoService → List BufferNode → Connection EchoService
with_recv k q = record k { session = record k.session { recv_queue = q } }

not_accepting : (k : Connection EchoService) → k.reading ≡ true → Echoes k → k.accepting ≡ false
not_accepting k e v = elim v.exclusive [ inl a ↦ a | inr r ↦ absurd (true≢false (sym e ∙ r)) ]

read-Echoes :
    (got_text : Bool) (content : Bytes) (k : Connection EchoService) (q : List BufferNode)
    → k.reading ≡ true
    → Echoes (with_recv k q)
    → Echoes (on_recv echo_service success got_text (deliver got_text content (with_recv k q)))
unfolding on_recv received_into message_received call perform recv_message send_message then_recv
read-Echoes got_text content k [] e v = absurd (v.reads e).1
read-Echoes got_text content k (x ∷ []) e v =
    let (f, _) = v.reads e in
    record {
      echoes = inr (again f);
      reads = λ _. (again f, tt);
      accepts = λ a. absurd (true≢false (sym a ∙ not_accepting (with_recv k (x ∷ [])) e v));
      exclusive = inl (not_accepting (with_recv k (x ∷ [])) e v);
      calm = v.calm;
    }
  where
    again :
        k.filled ≡ hello ∷ k.arrived
        → k.filled
            ++ record { is_text = got_text; buffer = string_of (some content) (length content) }
              ∷ []
          ≡ hello ∷ (k.arrived ++ record { is_text = got_text; buffer = content } ∷ [])
    again f = rw (string_of_all content, f)
read-Echoes got_text content k (x ∷ y ∷ q) e v = absurd (v.reads e).1

end_read-Echoes :
    (content : Bytes) (k : Connection EchoService)
    → k.reading ≡ true
    → Echoes k
    → Echoes (end_read content k)
end_read-Echoes content k e v = record {
  echoes = v.echoes;
  reads = λ r. cc;
  accepts = λ a. absurd (true≢false (sym a ∙ not_accepting k e v));
  exclusive = inr refl;
  calm = v.calm;
}

read_failed-Echoes :
    (ec : ErrorCode) (got_text : Bool) (k : Connection EchoService)
    → failed ec ≡ true
    → Echoes k
    → Echoes (on_recv echo_service ec got_text k)
unfolding on_recv recv_failed report call perform
read_failed-Echoes success got_text k bad v = cc
read_failed-Echoes stream_truncated got_text k bad v = on_close-Echoes stream_truncated k v
read_failed-Echoes websocket_closed got_text k bad v = on_close-Echoes websocket_closed k v
read_failed-Echoes ec got_text k bad v = on_close-Echoes ec (report echo_service Stage.recv ec k) v

Step-Echoes :
    (k k' : Connection EchoService) (st : Step echo_service k k')
    → is_inside echo_service st ≡ true
    → Echoes k
    → Echoes k'
Step-Echoes k k' (accepted ec e) inside v = on_accept-Echoes ec k e v
Step-Echoes k k' (read got_text content e) inside v =
    read-Echoes got_text content k k.session.recv_queue e v
Step-Echoes k k' (read_failed ec got_text content bad e) inside v =
    read_failed-Echoes ec got_text (end_read content k) bad (end_read-Echoes content k e v)
Step-Echoes k k' (wrote node bytes e whole) inside v =
    on_send-Echoes success bytes (end_write node k) v
Step-Echoes k k' (write_failed ec node bytes bad e) inside v =
    on_send-Echoes ec bytes (record k { writing = none }) v
Step-Echoes k k' (closed ec n e) inside v = on_close-Echoes ec (record k { closing = n }) v
Step-Echoes k k' (posted node rest e) inside v = on_post-Echoes node (record k { posted = rest }) v
Step-Echoes k k' (filled_outside is_text content) inside v = cc

Serving-Echoes : (k : Connection EchoService) → Serving k → Echoes k
unfolding accept
Serving-Echoes k (start_serving e address) = record {
  echoes = inl (refl, refl);
  reads = λ r. cc;
  accepts = λ _. (refl, refl, refl);
  exclusive = inr refl;
  calm = refl;
}
Serving-Echoes k (serve {k = k₀} r st inside) = Step-Echoes k₀ k st inside (Serving-Echoes k₀ r)

-- On a connection of the echo server on which no other thread sends, either nothing has been received,
-- written, queued or posted yet, or the messages written, queued and posted are, in this order, the
-- greeting and then each message received so far, with its kind, once each and in the order of
-- arrival. No assertion of the service has failed.
pub echoes_in_order :
    (k : Connection EchoService)
    → Serving k
    → ((k.written ++ (k.session.send_queue ++ k.posted) ≡ []) × (k.arrived ≡ [])
        ⊎ (k.written ++ (k.session.send_queue ++ k.posted) ≡ hello ∷ k.arrived))
      × (k.aborted ≡ false)
echoes_in_order k r =
    let v = Serving-Echoes k r in
    let sent_so_far = (Reachable-SendInv echo_service k (Serving-Reachable k r)).ordered in
    (rw (← sent_so_far) v.echoes, v.calm)
