-- ===== src/Http/Server.antt =====
-- The session of inc/http_session_base.hpp with the handle_request of inc/http_utility.h.
use boost_web.Common.{
  ◌≡◌, refl, ◌∙◌, ap, Bool, true, false, not, List, [], ◌∷◌, Option, none, some, Bytes,
}
use boost_web.Errors.{success}
use boost_web.Protocol.{protocol_httpss, meets}
use boost_web.HttpSession.{
  Handler, Session, on_recv, request_received, respond, push, send_first, send, start_write,
  recv_more, recv, allowed,
}
use boost_web.Http.Messages.{Messages, Laws, Service}
use boost_web.Http.Handle.{Response, handle_request}
use boost_web.Http.Handle.KeepAlive.{keep_alive_as_asked}

module _ (m : Messages) {W : Type 0} (service : Service m W) (doc_root : Bytes) where
  -- What HttpSessionBase calls.
  abbrev pub handler : Handler W
  handler = record {
    Request = m.Request;
    Response = Response m;
    is_upgrade = m.is_upgrade;
    keep_alive = λ res. m.keep_alive res.head;
    handle_request = λ w address req. handle_request m service doc_root address req w;
  }

  starts_answer :
      (s : Session handler) (req : m.Request) (q : List (Response m))
      (writing : Option (Response m × Bool))
      → q ≡ []
      → writing ≡ none
      → let answer = (handle_request m service doc_root s.address req s.world).0 in
        (respond handler req (record s { response_queue = q; writing = writing })).writing
        ≡ some (answer, not (m.keep_alive answer.head))
  unfolding respond push send_first send start_write recv_more recv
  starts_answer s req [] none empty idle = refl
  starts_answer s req [] (some w) empty idle = cc
  starts_answer s req (x ∷ q) writing empty idle = cc

  module _ (laws : Laws m) where
    -- A session that is writing nothing, and has nothing to write, starts the answer of handle_request to
    -- a request that is not an upgrade, where its protocols allow it, and `close` is set exactly if the
    -- request does not ask to keep the connection open.
    pub closes_as_asked :
        (s : Session handler) (req : m.Request)
        → s.response_queue ≡ []
        → s.writing ≡ none
        → m.is_upgrade req ≡ false
        → meets protocol_httpss (allowed handler s) ≡ true
        → (on_recv handler success req s).writing
          ≡ some (
            (handle_request m service doc_root s.address req s.world).0,
            not (m.asks_keep_alive req),
          )
    unfolding on_recv request_received
    closes_as_asked s req empty idle plain served =
        rw (plain, served)
          (starts_answer s req s.response_queue s.writing empty idle
            ∙ ap (λ k. some ((handle_request m service doc_root s.address req s.world).0, not k))
                (keep_alive_as_asked m laws service doc_root s.address req s.world))
