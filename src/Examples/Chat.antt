-- ===== src/Examples/Chat.antt =====
-- Conversations of TestService (test/test_service.cpp).
use boost_web.Common.{◌≡◌, ◌↔◌, refl, arith, true, some, length, codes}
use boost_web.Address.{Address}
use boost_web.TestService.Chat.{TestService, test_service, message, is_expected}
use boost_web.TestService.Chat.Blocks.{is_expected-message}
use boost_web.TestService.Chat.Conversation.{converse, asking, answering, Says}
use boost_web.TestService.Chat.Conversation.Whole.{converse-Says}

abbrev address : Address
address = record {
  host_ip = codes "127.0.0.1";
  host_port = 12345;
  peer_ip = codes "127.0.0.1";
  peer_port = 5000;
}

abbrev three_times : TestService
three_times = record {
  text = true;
  max_message_count = 3;
  connect_count = 0;
  disconnect_count = 0;
  send_finish_count = 0;
}

converse-Says_example :
    Says true 1 3
      (converse test_service 8 (asking 66666 three_times address) (answering three_times address))
converse-Says_example =
    converse-Says 66666 8 three_times three_times address address refl refl (omega arith)
      (omega arith) (omega arith)

is_expected-message_example :
    (is_expected 2 (some (codes "this is a message")) (length (codes "this is a message")) ≡ true)
    ↔ (codes "this is a message" ≡ message 2)
is_expected-message_example = is_expected-message 2 (codes "this is a message") (omega arith)
