-- ===== src/Http/Handle.antt =====
-- handle_request (inc/http_utility.h): the response to one request.
pub mod KeepAlive
pub mod Index
pub mod Files
pub mod HeadRequest
use boost_web.Common.{
  ℕ, Bool, ◌==◌, ltb, if◌then◌else◌, [], ◌∷◌, ◌++◌, Option, none, some, Bytes, codes,
}
use boost_web.Address.{Address}
use boost_web.Http.Messages.{
  server, content_type, access_control_allow_origin, Opened, no_such_file, failed_with, opened,
  Body, text, empty, file, Messages, Service,
}
use boost_web.Http.Target.{slash, is_front, is_legal, path_catenate}
use boost_web.Http.Mime.{get_mime_type}

abbrev pub verb_get : ℕ
verb_get = 2

abbrev pub verb_head : ℕ
verb_head = 3

abbrev pub verb_connect : ℕ
verb_connect = 6

abbrev pub status_ok : ℕ
status_ok = 200

abbrev pub status_bad_request : ℕ
status_bad_request = 400

abbrev pub status_not_found : ℕ
status_not_found = 404

abbrev pub status_internal_server_error : ℕ
status_internal_server_error = 500

-- `path.back()`
unfoldable pub back : Bytes → Option ℕ
back [] = none
back (c ∷ []) = some c
back (c ∷ d ∷ cs) = back (d ∷ cs)

-- The path of the file that a target stands for.
unfoldable pub file_path : Bytes → Bytes → Bytes
unfolding path_catenate
file_path doc_root target =
    let path = path_catenate doc_root target in
    if is_front slash (back path) then path ++ codes "index.html" else path

module _ (m : Messages) where
  open m use {
    Request, Header, File, size, target, method, method_string, version, asks_keep_alive, header,
    default_header, set, set_keep_alive, content_length, prepare_payload,
  }

  pub record Response : Type 0 where
    pub head : Header
    pub body : Body File

  -- The fields that each response starts with.
  unfoldable pub with_fields : Bytes → Header → Header
  with_fields type h =
      set access_control_allow_origin (codes "*")
        (set content_type type (set server (codes "boost web server 1.0 by yanrk") h))

  -- The tail of bad_request, not_found and server_error.
  unfoldable pub error_response : Request → ℕ → Bytes → Response
  unfolding with_fields
  error_response req status why = record {
    head = prepare_payload (text why) (
        set_keep_alive (asks_keep_alive req)
          (with_fields (codes "text/html") (header status (version req))));
    body = text why;
  }

  unfoldable pub bad_request : Request → Bytes → Response
  unfolding error_response
  bad_request req why = error_response req status_bad_request why

  unfoldable pub not_found : Request → Response
  unfolding error_response
  not_found req =
      error_response req status_not_found
        (codes "The resource '" ++ target req ++ codes "' was not found")

  unfoldable pub server_error : Request → Bytes → Response
  unfolding error_response
  server_error req what =
      error_response req status_internal_server_error
        (codes "An error occurred: '" ++ what ++ codes "'")

  -- The header of the response to a request for a file.
  unfoldable pub file_header : Request → Bytes → File → Header
  unfolding with_fields
  file_header req path f = set_keep_alive (asks_keep_alive req) (
      content_length (size f)
        (with_fields (codes (get_mime_type path)) (header status_ok (version req))))

  unfoldable pub send_file : Request → Bytes → Opened File → Response
  unfolding not_found server_error file_header bad_request
  send_file req path no_such_file = not_found req
  send_file req path (failed_with message) = server_error req message
  send_file req path (opened f) =
      if method req == verb_head
      then record { head = file_header req path f; body = empty }
      else if method req == verb_get
      then record { head = file_header req path f; body = file f }
      else bad_request req
          (codes "Unsupported HTTP-method '" ++ method_string req ++ codes "' while request file")

  -- The end of handle_request, with the response as the service left it.
  unfoldable pub finish : Request → Header → Bytes → Response
  finish req h body = record {
    head = prepare_payload (text body) (set_keep_alive (asks_keep_alive req) h);
    body = text body;
  }

  module _ {W : Type 0} (service : Service m W) where
    unfoldable pub serve_file : Bytes → Request → W → Response × W
    unfolding send_file file_path
    serve_file doc_root req w =
        let path = file_path doc_root (target req) in
        (send_file req path (service.open_file w path), w)

    unfoldable pub ask_service : Address → Request → W → Response × W
    unfolding finish with_fields
    ask_service address req w =
        let (h, body, w') =
          service.handle_request w address req (with_fields (codes "text/html") default_header)
            [] in
        (finish req h body, w')

    unfoldable pub call_service : Address → Request → W → Response × W
    unfolding bad_request ask_service
    call_service address req w =
        if ltb verb_connect (method req)
        then (
          bad_request req (codes "Unsupported HTTP-method '" ++ method_string req ++ codes "'"),
          w,
        )
        else ask_service address req w

    unfoldable pub dispatch : Bytes → Address → Request → Bool × W → Response × W
    unfolding serve_file call_service
    dispatch doc_root address req (is_path, w) =
        if is_path then serve_file doc_root req w else call_service address req w

    -- handle_request
    unfoldable pub handle_request : Bytes → Address → Request → W → Response × W
    unfolding bad_request dispatch
    handle_request doc_root address req w =
        if is_legal (target req)
        then dispatch doc_root address req (service.target_is_path w (target req))
        else (bad_request req (codes "Illegal request-target '" ++ target req ++ codes "'"), w)
