-- ===== src/TestService/Chat/Conversation/Whole.antt =====
-- A conversation of two ends of TestService (test/test_service.cpp), from the start to the end.
use boost_web.Common.{
  ℕ, zero, suc, ◌+◌, ◌*◌, ◌<◌, ◌≡◌, refl, sym, ◌∙◌, ◌-◌, ap, subst, Bool, true, [], ◌∷◌, ◌++◌,
  Option, increment, size_mod, arith,
}
use boost_web.Address.{Address}
use boost_web.Websocket.Members
use boost_web.Websocket.Session
use boost_web.Websocket.Session.{BufferNode, Session}
use boost_web.Websocket.Service.{connected, accepted}
use boost_web.Websocket.Connection.{
  Connection, start, run, on_accept, perform, call, then_recv, recv, send_buffer_fill,
}
use boost_web.TestService.Chat.{
  TestService, test_service, msg_len, insert_connection, send_message, send_count,
}
use boost_web.TestService.Chat.Conversation.{
  turn, converse, node_of, Calm, Closes, Says, Talk, asking, answering,
}
use boost_web.TestService.Chat.Conversation.Turns.{
  at_rest, transmit-at_rest, nonzero, more, hear_next, hear_last,
}

Says-more :
    (text : Bool) (first n : ℕ) (later : Option (Talk TestService)) (over : Talk TestService)
    → Says text (first + 1) n later
    → Says text first (suc n) (turn (node_of text first ∷ []) later over)
Says-more text first n later over (last, other, e, closes, calm) =
    (last, other, rw e refl, closes, calm)

Says-nothing :
    (text : Bool) (first fuel : ℕ) (k l : Connection TestService)
    → Closes k
    → Calm l
    → Says text first 0 (converse test_service (suc fuel) k l)
Says-nothing text first fuel k l closes calm = (k, l, rw (closes.0) refl, closes, calm)

talk :
    (text : Bool) (most n fuel count : ℕ) (k l : Connection TestService)
    → count + n + 1 ≡ most
    → n + 1 < fuel
    → msg_len * most < size_mod
    → Calm k
    → Calm l
    → Says text (count + 1) (suc n) (
        converse test_service fuel
          (at_rest text most (count + 1) (node_of text (count + 1) ∷ []) k)
          (at_rest text most count [] l))
talk text most n zero count k l total enough small quiet quiet' = absurd (omega (arith, enough))
talk text most zero (suc zero) count k l total enough small quiet quiet' =
    absurd (omega (arith, enough))
talk text most zero (suc (suc fuel)) count k l total enough small quiet quiet' =
    let (k', goes, still) = transmit-at_rest text most (count + 1) (count + 1) k quiet in
    let closes = hear_last text most count l (omega (arith, total)) small quiet' in
    Says-more text (count + 1) 0 _ _ (
      rw goes (
        Says-nothing text (count + 1 + 1) fuel _ (at_rest text most (count + 1) [] k') closes
          still))
talk text most (suc n) (suc fuel) count k l total enough small quiet quiet' =
    let (k', goes, still) = transmit-at_rest text most (count + 1) (count + 1) k quiet in
    let (l', heard, still') = hear_next text most count l (omega (arith, total)) small quiet' in
    Says-more text (count + 1) (suc n) _ _ (
      rw (goes, heard)
        (subst
          (λ m. Says text (count + 1 + 1) (suc n) (
            converse test_service fuel (at_rest text most m (node_of text m ∷ []) l')
              (at_rest text most (count + 1) [] k')))
          (omega arith)
          (talk text most n fuel (count + 1) l' k' (omega (arith, total)) (omega (arith, enough))
            small still' still)))

first_sent :
    (t : TestService) (k : Connection TestService)
    → 0 < t.max_message_count
    → perform (send_message t) (record k { session = record k.session { user_data = 0 } }) ≡ (
      true,
      record k {
        session = record k.session { user_data = 1 };
        world = t;
        posted = k.posted ++ node_of t.text 1 ∷ [];
        filled = k.filled ++ node_of t.text 1 ∷ [];
      },
    )
unfolding perform send_message send_count send_buffer_fill Members.get_user_data
    Members.set_user_data
first_sent t k some_count =
    rw (nonzero t.text t.max_message_count 0 some_count)
      (rw (more t.text t.max_message_count 0 some_count, perform) refl)

asking-at_rest :
    (identity : ℕ) (t : TestService) (address : Address)
    → 0 < t.max_message_count
    → (k : Connection TestService) × (asking identity t address
        ≡ at_rest t.text t.max_message_count 1 (node_of t.text 1 ∷ []) k)
      × Calm k
unfolding run call then_recv recv perform insert_connection Members.set_user_data
asking-at_rest identity t address some_count =
    let k = record (start t (Session.new address)) { callbacks = connected identity ∷ [] } in
    (
      record k { filled = node_of t.text 1 ∷ []; world = t' },
      ap then_recv (first_sent t' k some_count),
      (refl, refl),
    )
  where
    t' : TestService
    t' = record t { connect_count = increment t.connect_count }

answering-at_rest :
    (t : TestService) (address : Address)
    → (k : Connection TestService) × (answering t address
        ≡ at_rest t.text t.max_message_count 0 [] k)
      × Calm k
unfolding on_accept call then_recv recv perform insert_connection Members.set_user_data
answering-at_rest t address =
    let k = start (record t { connect_count = increment t.connect_count }) (Session.new address) in
    (record k { callbacks = accepted address.host_port ∷ [] }, refl, (refl, refl))

-- A client that has connected and a server of TestService, with the same kind of messages and the
-- same most, which is not 0 and whose message's size does not wrap around: taking turns, with more
-- fuel than that most, they say the messages of 1, 2 and so on up to the most, in this order, then
-- the end that heard the last one has nothing to send and one async_close outstanding, the other
-- one has none, and no assertion has failed at either end.
pub converse-Says :
    (identity fuel : ℕ) (t t' : TestService) (address address' : Address)
    → t.text ≡ t'.text
    → t.max_message_count ≡ t'.max_message_count
    → 0 < t.max_message_count
    → msg_len * t.max_message_count < size_mod
    → t.max_message_count < fuel
    → Says t.text 1 t.max_message_count
        (converse test_service fuel (asking identity t address) (answering t' address'))
converse-Says identity fuel t t' address address' same_text same_most some_count small enough =
    let (k, goes, quiet) = asking-at_rest identity t address some_count in
    let (l, goes', quiet') = answering-at_rest t' address' in
    let same =
      ap (λ text. at_rest text t'.max_message_count 0 [] l) (sym same_text)
      ∙ ap (λ most. at_rest t.text most 0 [] l) (sym same_most) in
    let all : suc (t.max_message_count - 1) ≡ t.max_message_count = omega (arith, some_count) in
    rw (goes, goes' ∙ same)
      (subst
        (λ n. Says t.text 1 n (
          converse test_service fuel
            (at_rest t.text t.max_message_count 1 (node_of t.text 1 ∷ []) k)
            (at_rest t.text t.max_message_count 0 [] l)))
        all
        (talk t.text t.max_message_count (t.max_message_count - 1) fuel 0 k l
          (omega (arith, some_count)) (omega (arith, enough, some_count)) small quiet quiet'))
