-- ===== src/Listener.antt =====
-- src/listener.cpp: a listening socket and the connections that it accepts.
pub mod Construct
pub mod Accepting
use boost_web.Common.{ℕ, Bool, true, false, if◌then◌else◌, List, [], ◌∷◌, ◌++◌, Bytes, ◌+◌, String}
use boost_web.Address.{Address}
use boost_web.Errors.{ErrorCode, failed, Report, of_code}
use boost_web.DetectSession.{DetectSession}

-- boost::asio::ip::tcp::endpoint
pub record Endpoint : Type 0 where
  pub ip : Bytes
  pub port : ℕ

-- What boost::asio::ip::tcp::acceptor does to the system, with the error that it gives.
pub record Acceptor (W : Type 0) : Type 0 where
  pub open_socket : Endpoint → W → ErrorCode × W
  pub set_reuse_address : Endpoint → W → ErrorCode × W
  pub bind : Endpoint → W → ErrorCode × W
  pub listen : Endpoint → W → ErrorCode × W

-- Listener
pub record Listener : Type 0 where
  pub endpoint : Endpoint
  pub doc_root : Bytes
  pub timeout : ℕ
  pub body_limit : ℕ
  pub protocol : ℕ
  pub good : Bool
  pub accepting : ℕ  -- how many async_accept are outstanding
  pub sessions : List DetectSession  -- those run so far, oldest first
  pub reports : List Report  -- calls of on_error so far, newest first

-- The members as they are first initialised
abbrev pub initial : Endpoint → Bytes → ℕ → ℕ → ℕ → Listener
initial endpoint doc_root timeout body_limit protocol = record {
  endpoint = endpoint;
  doc_root = doc_root;
  timeout = timeout;
  body_limit = body_limit;
  protocol = protocol;
  good = false;
  accepting = 0;
  sessions = [];
  reports = [];
}

module _ {W : Type 0} (acceptor : Acceptor W) where
  -- One stage of the constructor: it returns at an error, which it reports, or goes on.
  unfoldable pub then_open :
      String → (Listener → W → Listener × W) → Listener → ErrorCode × W → Listener × W
  then_open stage go_on l (ec, w) =
      if failed ec
      then (record l { reports = of_code "listener" stage ec ∷ l.reports }, w)
      else go_on l w

  unfoldable pub after_listen : Listener → W → Listener × W
  after_listen l w = (record l { good = true }, w)

  unfoldable pub after_bind : Listener → W → Listener × W
  unfolding then_open after_listen
  after_bind l w = then_open "listen" after_listen l (acceptor.listen l.endpoint w)

  unfoldable pub after_reuse : Listener → W → Listener × W
  unfolding then_open after_bind
  after_reuse l w = then_open "bind" after_bind l (acceptor.bind l.endpoint w)

  unfoldable pub after_open : Listener → W → Listener × W
  unfolding then_open after_reuse
  after_open l w = then_open "reuse" after_reuse l (acceptor.set_reuse_address l.endpoint w)

  -- Listener::Listener
  unfoldable pub construct : Endpoint → Bytes → ℕ → ℕ → ℕ → W → Listener × W
  unfolding then_open after_open
  construct endpoint doc_root timeout body_limit protocol w =
      then_open "open" after_open (initial endpoint doc_root timeout body_limit protocol)
        (acceptor.open_socket endpoint w)

-- Listener::accept
unfoldable pub accept : Listener → Listener
accept l = record l { accepting = l.accepting + 1 }

-- Listener::run; the answer is `good`.
unfoldable pub run : Listener → Listener
unfolding accept
run l = if l.good then accept l else l

unfoldable pub accepted : ErrorCode → Address → Listener → Listener
accepted ec address l =
    if failed ec
    then record l { reports = of_code "listener" "accept" ec ∷ l.reports }
    else record l {
      sessions =
          l.sessions
          ++ (record {
            address = address;
            timeout = l.timeout;
            body_limit = l.body_limit;
            protocol = l.protocol;
          })
            ∷ [];
    }

-- Listener::on_accept, once its async_accept has ended, with the addresses of the socket
unfoldable pub on_accept : ErrorCode → Address → Listener → Listener
unfolding accepted accept
on_accept ec address l = accept (accepted ec address l)
