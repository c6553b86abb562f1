-- ===== src/HttpSession/Events.antt =====
-- What the event loop does with a connection of inc/http_session_base.hpp: it ends an outstanding
-- operation and runs the completion handler.
use boost_web.Common.{ℕ, suc, ◌≡◌, Bool, true, false, [], ◌∷◌, ◌++◌, none, some}
use boost_web.Address.{Address}
use boost_web.Errors.{ErrorCode, success, failed}
use boost_web.DetectSession.{Transport}
use boost_web.HttpSession.{Handler, Session, new, run, on_handshake, on_recv, on_send, on_shutdown}

module _ {W : Type 0} (h : Handler W) where
  open h use {Request, Response}

  -- async_write has ended, with all of `res` on the wire.
  abbrev pub end_write : Response → Session h → Session h
  end_write res s = record s { writing = none; written = s.written ++ res ∷ [] }

  pub data Step (s : Session h) : Session h → Type 0 where
    handshook :
        (ec : ErrorCode)
        → s.handshaking ≡ true
        → Step s (on_handshake h ec (record s { handshaking = false }))
    read :
        (req : Request)
        → s.reading ≡ true
        → Step s (on_recv h success req (record s { reading = false }))
    read_failed :
        (ec : ErrorCode) (req : Request)
        → failed ec ≡ true
        → s.reading ≡ true
        → Step s (on_recv h ec req (record s { reading = false }))
    wrote :
        (res : Response) (close : Bool)
        → s.writing ≡ some (res, close)
        → Step s (on_send h close success (end_write res s))
    write_failed :
        (ec : ErrorCode) (res : Response) (close : Bool)
        → failed ec ≡ true
        → s.writing ≡ some (res, close)
        → Step s (on_send h close ec (record s { writing = none }))
    shut :
        (ec : ErrorCode) (n : ℕ)
        → s.shutting ≡ suc n
        → Step s (on_shutdown h ec (record s { shutting = n }))

  -- The states that a session gets into.
  pub data Reachable : Session h → Type 0 where
    running :
        (address : Address) (timeout body_limit protocol : ℕ) (transport : Transport) (world : W)
        → Reachable (run h (new h address timeout body_limit protocol transport world))
    next : {s s' : Session h} → Reachable s → Step s s' → Reachable s'

  -- What the loop makes of a session.
  pub data Steps (s₀ : Session h) : Session h → Type 0 where
    here : Steps s₀ s₀
    more : {s s' : Session h} → Steps s₀ s → Step s s' → Steps s₀ s'
