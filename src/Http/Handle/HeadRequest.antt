-- ===== src/Http/Handle/HeadRequest.antt =====
-- HEAD requests for files (inc/http_utility.h).
use boost_web.Common.{
  subst, ℕ, ◌≡◌, refl, sym, ◌∙◌, ap, Bool, true, false, Bytes, Bool-cases, inl, inr, if◌then◌else◌,
  codes, ◌++◌,
}
use boost_web.Address.{Address}
use boost_web.Http.Messages.{Messages, Service, Opened, no_such_file, failed_with, opened}
use boost_web.Http.Target.{is_legal}
use boost_web.Http.Mime.{get_mime_type}
use boost_web.Http.Handle.{
  with_fields, status_ok, Response, verb_get, verb_head, file_path, error_response, bad_request,
  not_found, server_error, file_header, send_file, serve_file, dispatch, handle_request,
}

module _ (m : Messages) where
  open m use {
    Request, File, size, header, set_keep_alive, content_length, target, method, version,
    asks_keep_alive,
  }

  -- The two requests differ in nothing that the header of a response depends on, but for their methods.
  pub record HeadAndGet (h g : Request) : Type 0 where
    pub same_target : target h ≡ target g
    pub same_version : version h ≡ version g
    pub same_keep_alive : asks_keep_alive h ≡ asks_keep_alive g
    pub is_head : method h ≡ verb_head
    pub is_get : method g ≡ verb_get

  error_response-same :
      (h g : Request)
      → HeadAndGet h g
      → (status : ℕ) (why : Bytes) → error_response m h status why ≡ error_response m g status why
  unfolding error_response
  error_response-same h g s status why = rw (s.same_version, s.same_keep_alive) refl

  file_header-same :
      (h g : Request)
      → HeadAndGet h g
      → (path : Bytes) (f : File) → file_header m h path f ≡ file_header m g path f
  unfolding file_header
  file_header-same h g s path f =
      ap
        (λ v. set_keep_alive (asks_keep_alive h) (
          content_length (size f)
            (with_fields m (codes (get_mime_type path)) (header status_ok v))))
        s.same_version
      ∙ ap
          (λ k. set_keep_alive k (
            content_length (size f)
              (with_fields m (codes (get_mime_type path)) (header status_ok (version g)))))
          s.same_keep_alive

  send_file-same :
      (h g : Request)
      → HeadAndGet h g
      → (path : Bytes) (o : Opened File) → (send_file m h path o).head ≡ (send_file m g path o).head
  unfolding send_file not_found server_error
  send_file-same h g s path no_such_file =
      rw s.same_target (ap (λ (r : Response m). r.head) (error_response-same h g s _ _))
  send_file-same h g s path (failed_with message) =
      ap (λ (r : Response m). r.head) (error_response-same h g s _ _)
  send_file-same h g s path (opened f) = rw (s.is_head, s.is_get) (file_header-same h g s path f)

  module _ {W : Type 0} (service : Service m W) where
    dispatch-same :
        (doc_root : Bytes) (address : Address) (h g : Request)
        → HeadAndGet h g
        → (r : Bool × W) → r.0 ≡ true
        → (dispatch m service doc_root address h r).0.head
          ≡ (dispatch m service doc_root address g r).0.head
    unfolding dispatch serve_file
    dispatch-same doc_root address h g s (true, w) e = rw s.same_target (
        send_file-same h g s (file_path doc_root (target g))
          (service.open_file w (file_path doc_root (target g))))
    dispatch-same doc_root address h g s (false, w) e = cc

    -- A HEAD request is answered with the header that a GET request gets which has the same target, version
    -- and keep_alive, where the service takes the target for a path.
    pub head_like_get :
        (doc_root : Bytes) (address : Address) (h g : Request) (w : W)
        → HeadAndGet h g
        → (service.target_is_path w (target g)).0 ≡ true
        → (handle_request m service doc_root address h w).0.head
          ≡ (handle_request m service doc_root address g w).0.head
    unfolding handle_request bad_request
    head_like_get doc_root address h g w s is_path =
        subst
          (λ t.
            (if is_legal t
              then dispatch m service doc_root address h (service.target_is_path w t)
              else (
                error_response m h 400 (codes "Illegal request-target '" ++ t ++ codes "'"),
                w,
              )).0.head
            ≡ (handle_request m service doc_root address g w).0.head)
          (sym s.same_target)
          (elim (Bool-cases (is_legal (target g))) [
            | inl legal ↦
                rw legal (
                  dispatch-same doc_root address h g s (service.target_is_path w (target g))
                    is_path)
            | inr illegal ↦
                rw illegal (ap (λ (r : Response m). r.head) (error_response-same h g s _ _))
          ])
