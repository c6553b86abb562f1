-- ===== src/TestService/Request.antt =====
-- test/test_service.cpp: handle_request of TestService, through the wrappers of the messages. What it
-- prints of a multipart body is part of its result; the other lines that it prints are left out.
use boost_web.Common.{
  ℕ, ◌+◌, ◌-◌, min, ◌==◌, Bool, not, true, false, List, ◌++◌, Option, none, some, Bytes, codes,
  length, if◌then◌else◌,
}
use boost_web.Http.Target.Segments.{equals}
use boost_web.Http.Wrapper.Beast.{BeastRequest, BeastResponse}
use boost_web.Http.Wrapper.Calls
use boost_web.Http.Wrapper.Numbers.{http_ok, http_post, method_number}
use boost_web.TestService.{find, find_from, substr, Event, parse_file_body}

-- TestService::target_is_path
unfoldable pub target_is_path : Bytes → Bool
unfolding equals substr
target_is_path target = not (equals (codes "/sys/") (substr target 0 5))

abbrev pub boundary_mark : Bytes
boundary_mark = codes "boundary="

-- `std::min(boundary_pos_end, content_type.size() - boundary_pos_beg)`, where std::string::npos, which no
-- semicolon leaves, is the larger one
unfoldable pub boundary_length : ℕ → ℕ → Option ℕ → ℕ
boundary_length size begin none = size - begin
boundary_length size begin (some end) = min end (size - begin)

unfoldable pub boundary_from : Bytes → Option ℕ → Option Bytes
unfolding boundary_length find_from substr
boundary_from content_type none = none
boundary_from content_type (some mark) =
    let begin = mark + length boundary_mark in
    some (
      substr content_type begin
        (boundary_length (length content_type) begin (find_from (codes ";") content_type begin)))

-- The boundary that a content type names
unfoldable pub boundary_of : Bytes → Option Bytes
unfolding boundary_from find
boundary_of content_type = boundary_from content_type (find boundary_mark content_type)

-- What is printed of the body of a request
pub data Printed : Type 0 where
  no_form : Printed
  boundary_not_found : Printed
  -- with what parse_file_body prints, on fuel
  form : Bytes → Option (List Event) → Printed

unfoldable pub print_form : ℕ → Bytes → Option Bytes → Printed
print_form fuel body none = boundary_not_found
print_form fuel body (some boundary) = form boundary (parse_file_body fuel boundary body)

unfoldable pub contains : Bytes → Bytes → Bool
contains pattern text = found (find pattern text)
  where
    found : Option ℕ → Bool
    found none = false
    found (some position) = true

module _ (q : BeastRequest) where
  unfoldable pub print_body : ℕ → q.message.Message → Printed
  unfolding contains print_form boundary_of
  print_body fuel request =
      if Calls.get_method q request == method_number http_post
      then (let content_type = Calls.get_field_content_type q.message request in
          if contains (codes "multipart/form-data") content_type
          then print_form fuel (Calls.get_body q.message request) (boundary_of content_type)
          else no_form)
      else no_form

  unfoldable pub answer_text : q.message.Message → Bytes
  answer_text request =
      codes "recv request ("
      ++ Calls.get_method_string q request
      ++ codes ": "
      ++ Calls.get_target q request
      ++ codes ", {"
      ++ Calls.get_body q.message request
      ++ codes "})"

module _ (r : BeastResponse) where
  unfoldable pub answer : Bytes → Option r.message.Message → Option r.message.Message
  answer text none = none
  answer text (some response) = some (Calls.set_body r.message text response)

module _ (q : BeastRequest) (r : BeastResponse) where
  -- TestService::handle_request, which answers true: what is printed, and the response, `none` where
  -- set_result throws
  unfoldable pub handle_request :
      ℕ → q.message.Message → r.message.Message → Printed × Option r.message.Message
  unfolding print_body answer_text answer
  handle_request fuel request response = (
    print_body q fuel request,
    answer r (answer_text q request) (Calls.set_result r http_ok response),
  )
