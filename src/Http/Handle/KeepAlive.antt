-- ===== src/Http/Handle/KeepAlive.antt =====
-- Whether a response of handle_request (inc/http_utility.h) keeps the connection open.
use boost_web.Common.{ℕ, ◌≡◌, ◌∙◌, Bool, Bytes, if_cases, ◌==◌, ltb}
use boost_web.Address.{Address}
use boost_web.Http.Messages.{Messages, Laws, Service, Opened, no_such_file, failed_with, opened}
use boost_web.Http.Target.{is_legal}
use boost_web.Http.Handle.{
  Response, verb_get, verb_head, verb_connect, error_response, bad_request, not_found, server_error,
  file_header, send_file, finish, serve_file, ask_service, call_service, dispatch, handle_request,
}

module _ (m : Messages) (laws : Laws m) where
  open m use {Request, Header, File, method, target, asks_keep_alive, keep_alive}

  Keeps : Request → Response m → Type 0
  Keeps req res = keep_alive res.head ≡ asks_keep_alive req

  error_response-Keeps :
      (req : Request) (status : ℕ) (why : Bytes) → Keeps req (error_response m req status why)
  unfolding Keeps error_response
  error_response-Keeps req status why =
      laws.keep_alive-prepare_payload _ _ ∙ laws.keep_alive-set_keep_alive _ _

  finish-Keeps : (req : Request) (h : Header) (body : Bytes) → Keeps req (finish m req h body)
  unfolding Keeps finish
  finish-Keeps req h body = laws.keep_alive-prepare_payload _ _ ∙ laws.keep_alive-set_keep_alive _ _

  send_file-Keeps :
      (req : Request) (path : Bytes) (o : Opened File) → Keeps req (send_file m req path o)
  unfolding send_file not_found server_error bad_request Keeps file_header
  send_file-Keeps req path no_such_file = error_response-Keeps req _ _
  send_file-Keeps req path (failed_with message) = error_response-Keeps req _ _
  send_file-Keeps req path (opened f) =
      if_cases (Keeps req) (method req == verb_head) _ _ (λ _. laws.keep_alive-set_keep_alive _ _)
        (λ _.
          if_cases (Keeps req) (method req == verb_get) _ _
            (λ _. laws.keep_alive-set_keep_alive _ _) (λ _. error_response-Keeps req _ _))

  module _ {W : Type 0} (service : Service m W) where
    dispatch-Keeps :
        (doc_root : Bytes) (address : Address) (req : Request) (is_path : Bool) (w : W)
        → Keeps req (dispatch m service doc_root address req (is_path, w)).0
    unfolding dispatch serve_file call_service ask_service bad_request
    dispatch-Keeps doc_root address req is_path w =
        if_cases (λ (r : Response m × W). Keeps req r.0) is_path _ _ (λ _. send_file-Keeps req _ _)
          (λ _.
            if_cases (λ (r : Response m × W). Keeps req r.0) (ltb verb_connect (method req)) _ _
              (λ _. error_response-Keeps req _ _) (λ _. finish-Keeps req _ _))

    -- Each response, of an error, of a file or of the service, keeps the connection open exactly if the
    -- request asks for that.
    pub keep_alive_as_asked :
        (doc_root : Bytes) (address : Address) (req : Request) (w : W)
        → keep_alive (handle_request m service doc_root address req w).0.head ≡ asks_keep_alive req
    unfolding handle_request bad_request Keeps
    keep_alive_as_asked doc_root address req w =
        if_cases (λ (r : Response m × W). Keeps req r.0) (is_legal (target req)) _ _
          (λ _. dispatch-Keeps doc_root address req _ _) (λ _. error_response-Keeps req _ _)
