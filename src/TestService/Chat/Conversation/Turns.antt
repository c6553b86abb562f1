-- ===== src/TestService/Chat/Conversation/Turns.antt =====
-- One turn of a conversation of two ends of TestService (test/test_service.cpp).
use boost_web.Common.{
  ℕ, ◌+◌, ◌*◌, ◌==◌, ◌<◌, ◌≤◌, ◌≡◌, refl, leb, decrement, ◌||◌, ltb, Bool, true, false, List, [],
  ◌∷◌, ◌++◌, none, some, length, increment, size_mod, arith,
}
use boost_web.Websocket.Members
use boost_web.Websocket.Session.{BufferNode}
use boost_web.Websocket.Service.{sent, received}
use boost_web.Websocket.Connection.{
  Connection, on_recv, on_send, on_post, perform, call, then_recv, message_received, recv, eof,
  send_buffer_fill,
}
use boost_web.TestService.Chat.{
  TestService, test_service, message, msg_len, send_message, send_count, send_finish, recv_message,
  check_message, drop_and_send, same_kind, is_expected,
}
use boost_web.TestService.Chat.Blocks.{is_expected-message}
use boost_web.TestService.Chat.Conversation.{transmit, hear, node_of, placeholder, Calm, Closes}

ltb-same : (n : ℕ) → ltb n n ≡ false
ltb-same n = ground arith

same_kind-same : (b : Bool) → same_kind b b ≡ true
same_kind-same true = refl
same_kind-same false = refl

module _ (text : Bool) (most : ℕ) where
  -- An end that has received all that came and has sent all, or has one node posted, with whatever
  -- addresses, counters and records `k` has.
  abbrev pub at_rest : ℕ → List BufferNode → Connection TestService → Connection TestService
  at_rest count posted k = record k {
    session = record k.session {
      user_data = count;
      recv_queue = placeholder ∷ [];
      send_queue = [];
    };
    world = record k.world { text = text; max_message_count = most };
    reading = true;
    writing = none;
    posted = posted;
  }

  pub transmit-at_rest :
      (count count' : ℕ) (k : Connection TestService)
      → Calm k
      → let posted = node_of text count' ∷ [] in
        (k' : Connection TestService) × (transmit test_service posted (at_rest count posted k)
          ≡ at_rest count [] k')
        × Calm k'
  unfolding on_post on_send perform
  transmit-at_rest count count' k calm = (
    record k {
      session = record k.session {
        send_queue_size = decrement (increment k.session.send_queue_size);
      };
      callbacks = sent ∷ k.callbacks;
      written = k.written ++ node_of text count' ∷ [];
    },
    rw (ltb-same (length (message count'))) refl,
    calm,
  )

  pub nonzero : (count : ℕ) → count < most → (most == 0) ≡ false
  nonzero count below = ground arith

  pub more : (count : ℕ) → count < most → leb most count ≡ false
  more count below = ground arith

  increment-below :
      (count : ℕ) → count < most → msg_len * most < size_mod → increment count ≡ count + 1
  increment-below count below small = omega (arith, below, small)

  raised :
      (count : ℕ) → count < most → msg_len * most < size_mod → increment (count + 1) ≡ count + 2
  raised count below small = omega (arith, below, small)

  reached : (count : ℕ) → count ≡ most → leb most count ≡ true
  reached count e = ground arith

  expected :
      (count : ℕ)
      → count ≤ most
      → msg_len * most < size_mod
      → is_expected count (some (message count)) (length (message count)) ≡ true
  expected count below small =
      (is_expected-message count (message count) (omega (arith, below, small))).1 refl

  -- It is expected, and not the last one: the next one is posted.
  pub hear_next :
      (count : ℕ) (k : Connection TestService)
      → count + 2 ≤ most
      → msg_len * most < size_mod
      → Calm k
      → (k' : Connection TestService) × (hear test_service
            (node_of text (count + 1) ∷ [])
            (at_rest count [] k)
          ≡ at_rest (count + 2) (node_of text (count + 2) ∷ []) k')
        × Calm k'
  unfolding on_recv message_received call then_recv recv recv_message perform check_message
      drop_and_send send_message send_count send_buffer_fill Members.recv_buffer_drop
  hear_next count k later small calm = (
    record k {
      session = record k.session {
        recv_queue_size = decrement (increment k.session.recv_queue_size);
      };
      callbacks = received ∷ k.callbacks;
      filled = k.filled ++ node_of text (count + 2) ∷ [];
      arrived = k.arrived ++ node_of text (count + 1) ∷ [];
      recv_fault = k.recv_fault || false;
    },
    rw
        (
          nonzero count (omega (arith, later)),
          same_kind-same text,
          more count (omega (arith, later)),
          increment-below count (omega (arith, later)) small,
          expected (count + 1) (omega (arith, later)) small,
          more (count + 1) (omega (arith, later)),
          raised count (omega (arith, later)) small,
        )
        refl,
    calm,
  )

  -- It is expected, and the last one: the connection is closed.
  pub hear_last :
      (count : ℕ) (k : Connection TestService)
      → count + 1 ≡ most
      → msg_len * most < size_mod
      → Calm k
      → Closes (hear test_service (node_of text (count + 1) ∷ []) (at_rest count [] k))
  unfolding on_recv message_received call then_recv eof recv_message perform check_message
      drop_and_send send_message send_finish Members.recv_buffer_drop Members.get_host_address
      Members.get_peer_address
  hear_last count k last small calm =
      rw
        (
          nonzero count (omega (arith, last)),
          same_kind-same text,
          more count (omega (arith, last)),
          increment-below count (omega (arith, last)) small,
          expected (count + 1) (omega (arith, last)) small,
          reached (count + 1) (omega (arith, last)),
        )
        (refl, calm.0, omega (arith, calm.1))
