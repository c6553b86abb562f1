-- ===== src/Examples/Http.antt =====
-- Requests to a small server (inc/http_session_base.hpp, inc/http_utility.h).
use mathlib.Core.List.{Memᴰ, nil≢cons}
use mathlib.Core.List.Memᴰ.{head, tail}
use boost_web.Common.{
  ℕ, ◌≡◌, refl, Bool, true, false, not, [], ◌∷◌, ◌++◌, none, some, Bytes, codes, arith, head?, ◌&&◌,
}
use boost_web.Address.{Address}
use boost_web.Errors.{success}
use boost_web.DetectSession.{DetectSession, plain, on_detect}
use boost_web.Protocol.{protocol_httpss, meets, protocol_http, protocol_all}
use boost_web.HttpSession.{
  Handler, Session, new, run, recv, on_recv, on_send, request_received, respond, push, send_first,
  send, start_write, recv_more, allowed, max_support_protocol,
}
use boost_web.HttpSession.Events.{Reachable, running, next, read, end_write, here}
use boost_web.HttpSession.Gate.{Verdict, first_request, protocol_of, first_request_gate}
use boost_web.HttpSession.Pipeline.{PipelineInv}
use boost_web.HttpSession.Pipeline.Steps.{Reachable-PipelineInv}
use boost_web.HttpSession.Pipeline.Closing.{closing_response_is_last}
use boost_web.Http.Messages.{Messages, Laws, Service, Opened, no_such_file, opened}
use boost_web.Http.Target.{is_legal, slash, is_front, contains, replace, starts_with}
use boost_web.Http.Target.Segments.{segments, any_parent, is_legal-segments}
use boost_web.Http.Target.Root.{Below, walk, legal_target_stays-Below}
use boost_web.Http.Mime.{get_mime_type}
use boost_web.Http.Mime.Table.{mime_types}
use boost_web.Http.Mime.Types.{get_mime_type_table}
use boost_web.Http.Mime.Case.{lowered, get_mime_type_ignores_case}
use boost_web.Http.Server.{handler, closes_as_asked}
use boost_web.Http.Handle.{handle_request}
use boost_web.Http.Handle.HeadRequest.{HeadAndGet, head_like_get}
use boost_web.Http.Handle.KeepAlive.{keep_alive_as_asked}
use boost_web.Http.Handle.Files.{Inside, with_files, only_files-Inside}

abbrev local : Address
local = record {
  host_ip = codes "127.0.0.1";
  host_port = 80;
  peer_ip = codes "127.0.0.1";
  peer_port = 50000;
}

-- A request is whether it asks for an upgrade, a response whether it keeps the connection open.
abbrev refusing : Handler ℕ
refusing = record {
  Request = Bool;
  Response = Bool;
  is_upgrade = λ req. req;
  keep_alive = λ res. res;
  handle_request = λ count address req. (false, count);
}

abbrev idle : Session refusing
idle = run refusing (new refusing local 30 1000 protocol_all plain 0)

idle-Reachable : Reachable refusing idle
idle-Reachable = running local 30 1000 protocol_all plain 0

abbrev asked : Session refusing
asked = on_recv refusing success false (record idle { reading = false })

asked-Reachable : Reachable refusing asked
unfolding run recv
asked-Reachable = next idle-Reachable (read false refl)

asked_written : asked.writing ≡ some (false, true)
unfolding run recv on_recv request_received respond push send_first send start_write recv_more
    allowed max_support_protocol
asked_written = refl

Reachable-PipelineInv_example : PipelineInv refusing asked
Reachable-PipelineInv_example = Reachable-PipelineInv refusing asked asked-Reachable

abbrev answered : Session refusing
answered = on_send refusing true success (end_write refusing false asked)

closing_response_is_last_example :
    (answered.written ≡ asked.written ++ false ∷ []) × (answered.writing ≡ none)
closing_response_is_last_example =
    closing_response_is_last refusing asked answered false asked-Reachable asked_written here

abbrev detecting : DetectSession
detecting = record { address = local; timeout = 30; body_limit = 1000; protocol = protocol_http }

first_request_gate_example :
    Verdict refusing
      (first_request refusing 0 true (on_detect success false detecting))
      (meets (protocol_of false true) protocol_http)
first_request_gate_example = first_request_gate refusing 0 true detecting false (omega arith)

-- A header is whether it keeps the connection open; a request is its target and its method.
abbrev small : Messages
small = record {
  Request = Bytes × ℕ;
  Header = Bool;
  File = Bytes;
  size = λ f. 0;
  target = λ req. req.0;
  method = λ req. req.1;
  method_string = λ req. codes "GET";
  version = λ req. 11;
  asks_keep_alive = λ req. true;
  is_upgrade = λ req. false;
  header = λ status version. false;
  default_header = false;
  set = λ field value h. h;
  set_keep_alive = λ k h. k;
  content_length = λ n h. h;
  prepare_payload = λ b h. h;
  keep_alive = λ h. h;
}

small-Laws : Laws small
small-Laws = record {
  keep_alive-set_keep_alive = λ k h. refl;
  keep_alive-prepare_payload = λ b h. refl;
}

abbrev files_only : Service small ℕ
files_only = record {
  target_is_path = λ count t. (true, count);
  open_file = λ count path. opened path;
  handle_request = λ count address req h body. (h, body, count);
}

keep_alive_as_asked_example :
    (handle_request small files_only (codes "/srv") local (codes "/../etc", 2) 0).0.head ≡ true
keep_alive_as_asked_example =
    keep_alive_as_asked small small-Laws files_only (codes "/srv") local (codes "/../etc", 2) 0

-- The same files, but for the one without a name.
other_files : ℕ → Bytes → Opened Bytes
other_files count [] = no_such_file
other_files count (c ∷ cs) = opened (c ∷ cs)

same-Inside :
    (count : ℕ) (path : Bytes)
    → Inside (codes "/srv") path
    → files_only.open_file count path ≡ other_files count path
unfolding other_files
same-Inside count [] inside = absurd (nil≢cons inside.leads)
same-Inside count (c ∷ cs) inside = refl

only_files-Inside_example :
    handle_request small files_only (codes "/srv") local (codes "/a.txt", 2) 0
    ≡ handle_request small
        (with_files small files_only other_files)
        (codes "/srv")
        local
        (codes "/a.txt", 2)
        0
only_files-Inside_example =
    only_files-Inside small files_only other_files (codes "/srv") same-Inside local
      (codes "/a.txt", 2) 0

abbrev page : Bytes
page = codes "/docs/./a.html"

page_legal : is_legal page ≡ true
unfolding is_legal contains replace starts_with
page_legal = refl

is_legal-segments_example :
    is_legal page ≡ (is_front slash (head? page) && not (any_parent (segments page)))
is_legal-segments_example = is_legal-segments page

legal_target_stays-Below_example :
    Below (codes "srv" ∷ []) (walk (segments page) (codes "srv" ∷ []))
legal_target_stays-Below_example = legal_target_stays-Below (codes "srv" ∷ []) page page_legal

second_entry : Memᴰ (".001", "application/x-001") mime_types
unfolding mime_types
second_entry = tail (head refl)

get_mime_type_table_example : get_mime_type (codes "/srv/a" ++ codes ".001") ≡ "application/x-001"
get_mime_type_table_example =
    get_mime_type_table (codes "/srv/a") ".001" "application/x-001" second_entry

same_lowered : lowered (codes "a.HTML") ≡ lowered (codes "A.html")
unfolding lowered
same_lowered = refl

get_mime_type_ignores_case_example : get_mime_type (codes "a.HTML") ≡ get_mime_type (codes "A.html")
get_mime_type_ignores_case_example =
    get_mime_type_ignores_case (codes "a.HTML") (codes "A.html") same_lowered

head_and_get : HeadAndGet small (codes "/a.txt", 3) (codes "/a.txt", 2)
head_and_get = record {
  same_target = refl;
  same_version = refl;
  same_keep_alive = refl;
  is_head = refl;
  is_get = refl;
}

head_like_get_example :
    (handle_request small files_only (codes "/srv") local (codes "/a.txt", 3) 0).0.head
    ≡ (handle_request small files_only (codes "/srv") local (codes "/a.txt", 2) 0).0.head
head_like_get_example =
    head_like_get small files_only (codes "/srv") local (codes "/a.txt", 3) (codes "/a.txt", 2) 0
      head_and_get refl

abbrev serving : Session (handler small files_only (codes "/srv"))
serving = new (handler small files_only (codes "/srv")) local 30 1000 protocol_all plain 0

serving-allowed :
    meets protocol_httpss (allowed (handler small files_only (codes "/srv")) serving) ≡ true
unfolding allowed max_support_protocol
serving-allowed = refl

closes_as_asked_example :
    (on_recv (handler small files_only (codes "/srv")) success (codes "/a.txt", 2) serving).writing
    ≡ some ((handle_request small files_only (codes "/srv") local (codes "/a.txt", 2) 0).0, false)
closes_as_asked_example =
    closes_as_asked small files_only (codes "/srv") small-Laws serving (codes "/a.txt", 2) refl refl
      refl serving-allowed
