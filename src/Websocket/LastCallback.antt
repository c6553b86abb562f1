-- ===== src/Websocket/LastCallback.antt =====
-- What is called after on_close (inc/websocket_session_base.hpp).
use boost_web.Common.{ℕ, ◌≡◌, refl, ◌∙◌, ap, Bool, true, false, ◌∷◌, none, Bytes}
use boost_web.Errors.{ErrorCode, failed, is_truncated, websocket_closed}
use boost_web.Websocket.Service.{Callback, Stage, Service}
use boost_web.Websocket.Frame.{perform-Frame}
use boost_web.Websocket.Connection.{
  Connection, call, report, recv_failed, on_recv, send_failed, on_send, on_close, perform,
  mark_closed,
}
use boost_web.Websocket.Events.{end_read}

module _ {W : Type 0} (sv : Service W) where
  -- Of a connection that is not marked as closed
  first_close :
      (ec : ErrorCode) (k : Connection W)
      → k.session.has_close ≡ false
      → let k' = on_close sv ec k in
        (k'.session.has_close ≡ true)
        × (k'.writing ≡ k.writing)
        × (k'.callbacks ≡ Callback.closed ∷ k.callbacks)
  unfolding on_close call
  first_close ec k open_yet =
      let k₁ = record (mark_closed k) { callbacks = Callback.closed ∷ k.callbacks } in
      let f = perform-Frame (sv.on_close k.world) k₁ in
      rw open_yet (f.has_close, f.writing, f.callbacks)

  -- Of one that is
  later_close :
      (ec : ErrorCode) (k : Connection W) → k.session.has_close ≡ true → on_close sv ec k ≡ k
  unfolding on_close
  later_close ec k yet = rw yet refl

  reports_send :
      (ec : ErrorCode) (k : Connection W)
      → failed ec ≡ true
      → is_truncated ec ≡ false
      → k.session.has_close ≡ true
      → (bytes : ℕ)
      → (on_send sv ec bytes k).callbacks ≡ Callback.errored Stage.send ec ∷ k.callbacks
  unfolding on_send send_failed report call
  reports_send ec k bad other yet bytes =
      let p = sv.on_error k.world Stage.send ec in
      let k₁ = record k { callbacks = Callback.errored Stage.send ec ∷ k.callbacks } in
      let f = perform-Frame p k₁ in
      rw (bad, other)
        (ap (λ (c : Connection W). c.callbacks)
            (later_close ec (perform p k₁).1 (f.has_close ∙ yet))
          ∙ f.callbacks)

  -- Of a connection that is not marked as closed: when a read ends with error::closed, on_close is
  -- called, and the write that is outstanding, if there is one, stays so; when a write then ends
  -- with an error other than stream_truncated, on_error is called after that, and on_close is not
  -- called again.
  pub on_error_after_on_close :
      (k : Connection W) (got_text : Bool) (content : Bytes) (ec : ErrorCode) (bytes : ℕ)
      → k.session.has_close ≡ false
      → failed ec ≡ true
      → is_truncated ec ≡ false
      → let k₁ = on_recv sv websocket_closed got_text (end_read content k) in
        let k₂ = on_send sv ec bytes (record k₁ { writing = none }) in
        (k₁.writing ≡ k.writing)
        × (k₁.callbacks ≡ Callback.closed ∷ k.callbacks)
        × (k₂.callbacks ≡ Callback.errored Stage.send ec ∷ Callback.closed ∷ k.callbacks)
  unfolding on_recv recv_failed
  on_error_after_on_close k got_text content ec bytes open_yet bad other =
      let (yet, writing, first) = first_close websocket_closed (end_read content k) open_yet in
      let k₁ = on_recv sv websocket_closed got_text (end_read content k) in
      (
        writing,
        first,
        reports_send ec (record k₁ { writing = none }) bad other yet bytes
            ∙ ap (λ cs. Callback.errored Stage.send ec ∷ cs) first,
      )
