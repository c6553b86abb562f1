-- ===== src/Websocket/SendQueue.antt =====
-- The send side of inc/websocket_session_base.hpp: one write at a time, in the order of the calls of
-- send_buffer_fill, with no assertion of send or on_send failing.
pub mod Handlers
use boost_web.Common.{
  ℕ, suc, ◌==◌, Bytes, ◌%◌, ◌≤◌, ◌≡◌, refl, ◌∙◌, inl, inr, Bool, true, false, List, [], ◌∷◌, ◌++◌,
  Option, none, some, length, ltb, length-append, append_assoc, arith, Bool-cases, size_mod,
  if◌then◌else◌,
}
use boost_web.Errors.{ErrorCode, success, stream_truncated, websocket_closed, failed}
use boost_web.Websocket.Session.{BufferNode, Session}
use boost_web.Websocket.Session
use boost_web.Websocket.Service.{
  Program, Service, Stage, Callback, received, sent, connected, errored,
}
use boost_web.Websocket.Connection.{
  Connection, start, accept, enqueue, call, perform, report, then_recv, run, on_accept,
  message_received, received_into, recv_failed, on_recv, send_failed, send_next, then_send,
  node_sent, sent_from, on_send, on_close, on_post, send_buffer_fill, count_received, pop_sent,
  mark_closed,
}
use boost_web.Websocket.Frame.{Frame, perform-Frame}
use boost_web.Websocket.Events.{
  Step, accepted, read, read_failed, wrote, write_failed, closed, posted, filled_outside, Reachable,
  server, client, next, end_read, deliver, end_write, end_read, deliver,
}

-- What is being written is the front of the send queue.
abbrev pub InFlight : Option BufferNode → List BufferNode → Type 0
InFlight none queue = Unit
InFlight (some node) [] = ⊥
InFlight (some node) (front ∷ _) = node ≡ front

pub two_left :
    (q : List BufferNode) (node : BufferNode) → (suc (length (q ++ node ∷ [])) == 1) ≡ false
two_left q node = ground (arith, length-append q (node ∷ []))

InFlight-append :
    (w : Option BufferNode) (front node : BufferNode) (q : List BufferNode)
    → InFlight w (front ∷ q)
    → InFlight w (front ∷ q ++ node ∷ [])
InFlight-append none front node q h = tt
InFlight-append (some n) front node q h = h

abbrev pub is_close : Callback → Bool
is_close Callback.closed = true
is_close _ = false

-- How many on_close callbacks have been made.
abbrev pub closes : List Callback → ℕ
closes [] = 0
closes (c ∷ cs) = if is_close c then suc (closes cs) else closes cs

-- A write of all of the front node is not taken for a part of it.
pub whole_write :
    (node written front : BufferNode) (bytes : ℕ)
    → some written ≡ some node
    → written ≡ front
    → length node.buffer ≤ bytes
    → ltb bytes (length front.buffer) ≡ false
whole_write node written front bytes e same whole =
    let it : node ≡ front = ground arith in rw (← it) (ground arith)

module _ {W : Type 0} where
  abbrev pub SendInv : Connection W → Type 0
  SendInv k = record {
    counted : k.session.send_queue_size ≡ length k.session.send_queue % size_mod;
    in_flight : InFlight k.writing k.session.send_queue;
    ordered : k.filled ≡ k.written ++ (k.session.send_queue ++ k.posted);
    sound : k.send_fault ≡ false;
    closed_once : closes k.callbacks ≡ (if k.session.has_close then 1 else 0);
  }

  Frame-SendInv : (k k' : Connection W) → Frame k k' → SendInv k → SendInv k'
  Frame-SendInv k k' f v = record {
    counted = rw (f.send_queue, f.send_queue_size) v.counted;
    in_flight = rw (f.send_queue, f.writing) v.in_flight;
    ordered = simp (f.filled, f.written, f.send_queue, f.posted, v.ordered, append_assoc);
    sound = f.send_fault ∙ v.sound;
    closed_once = rw (f.callbacks, f.has_close) v.closed_once;
  }

  pub call-SendInv :
      (c : Callback) (p : Program W) (k : Connection W)
      → is_close c ≡ false
      → SendInv k
      → SendInv (call c p k).1
  unfolding call
  call-SendInv c p k other v =
      let k₁ = record k { callbacks = c ∷ k.callbacks } in
      Frame-SendInv k₁ (perform p k₁).1 (perform-Frame p k₁) (record {
        counted = v.counted;
        in_flight = v.in_flight;
        ordered = v.ordered;
        sound = v.sound;
        closed_once = rw other v.closed_once;
      })

  pub call_closed-SendInv :
      (p : Program W) (k : Connection W)
      → k.session.has_close ≡ false
      → SendInv k
      → SendInv (call Callback.closed p (mark_closed k)).1
  unfolding call
  call_closed-SendInv p k first v =
      let k₁ = record (mark_closed k) { callbacks = Callback.closed ∷ k.callbacks } in
      Frame-SendInv k₁ (perform p k₁).1 (perform-Frame p k₁) (record {
        counted = v.counted;
        in_flight = v.in_flight;
        ordered = v.ordered;
        sound = v.sound;
        closed_once = ground (arith, v.closed_once);
      })

  -- The connection `k` with other contents of the two fields.
  abbrev pub on_wire : Connection W → Option BufferNode → List BufferNode → Connection W
  on_wire k w q = record k { writing = w; session = record k.session { send_queue = q } }

  enqueue-SendInv :
      (node : BufferNode) (rest : List BufferNode) (k : Connection W) (front : BufferNode)
      (q : List BufferNode)
      → k.posted ≡ node ∷ rest
      → SendInv (on_wire k k.writing (front ∷ q))
      → SendInv (enqueue node (record (on_wire k k.writing (front ∷ q)) { posted = rest }))
  unfolding enqueue
  enqueue-SendInv node rest k front q e v = record {
    counted = omega (arith, v.counted, length-append q (node ∷ []));
    in_flight = InFlight-append k.writing front node q v.in_flight;
    ordered = simp (v.ordered, e, append_assoc);
    sound = v.sound;
    closed_once = v.closed_once;
  }

  on_post-SendInv_of :
      (node : BufferNode) (rest : List BufferNode) (k : Connection W) (w : Option BufferNode)
      (q : List BufferNode)
      → k.posted ≡ node ∷ rest
      → SendInv (on_wire k w q)
      → SendInv (on_post node (record (on_wire k w q) { posted = rest }))
  unfolding on_post
  on_post-SendInv_of node rest k none [] e v = record {
    counted = omega arith;
    in_flight = refl;
    ordered = rw (← e) v.ordered;
    sound = v.sound;
    closed_once = v.closed_once;
  }
  on_post-SendInv_of node rest k (some n) [] e v = absurd v.in_flight
  on_post-SendInv_of node rest k w (front ∷ q) e v =
      rw (two_left q node, on_post)
        (enqueue-SendInv node rest (on_wire k w (front ∷ q)) front q e v)

  pub on_post-SendInv :
      (node : BufferNode) (rest : List BufferNode) (k : Connection W)
      → k.posted ≡ node ∷ rest
      → SendInv k
      → SendInv (on_post node (record k { posted = rest }))
  on_post-SendInv node rest k e v =
      on_post-SendInv_of node rest k k.writing k.session.send_queue e v

  pub send_buffer_fill-SendInv :
      (is_text : Bool) (content : Bytes) (k : Connection W)
      → SendInv k
      → SendInv (send_buffer_fill is_text content k).0
  unfolding send_buffer_fill
  send_buffer_fill-SendInv is_text content k v = record {
    counted = v.counted;
    in_flight = v.in_flight;
    ordered = simp (v.ordered, append_assoc);
    sound = v.sound;
    closed_once = v.closed_once;
  }

  then_recv-SendInv : (r : Bool × Connection W) → SendInv r.1 → SendInv (then_recv r)
  unfolding then_recv
  then_recv-SendInv (true, k) v = v
  then_recv-SendInv (false, k) v = v

  pub called_then_recv-SendInv :
      (c : Callback) (p : Program W) (k : Connection W)
      → is_close c ≡ false
      → SendInv k
      → SendInv (then_recv (call c p k))
  called_then_recv-SendInv c p k other v =
      then_recv-SendInv (call c p k) (call-SendInv c p k other v)

  send_next-SendInv :
      (k : Connection W) (w : Option BufferNode) (q : List BufferNode)
      → w ≡ none
      → SendInv (on_wire k w q)
      → SendInv (send_next q (on_wire k w q))
  unfolding send_next
  send_next-SendInv k w [] e v = v
  send_next-SendInv k none (node ∷ q) e v = record {
    counted = v.counted;
    in_flight = refl;
    ordered = v.ordered;
    sound = v.sound;
    closed_once = v.closed_once;
  }
  send_next-SendInv k (some n) (node ∷ q) e v = cc

  pub then_send-SendInv :
      (r : Bool × Connection W) → r.1.writing ≡ none → SendInv r.1 → SendInv (then_send r)
  unfolding then_send
  then_send-SendInv (true, k) e v = send_next-SendInv k k.writing k.session.send_queue e v
  then_send-SendInv (false, k) e v = v
