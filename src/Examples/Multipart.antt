-- ===== src/Examples/Multipart.antt =====
-- Requests and multipart bodies of TestService (test/test_service.cpp).
use boost_web.Common.{◌≡◌, refl, arith, true, some, [], ◌∷◌, ◌++◌, Bytes, codes, length}
use boost_web.Examples.Wrapper.{Message, request, response, response-Laws, beast-Laws, blank}
use boost_web.Http.Target.{starts_with}
use boost_web.TestService.{
  file_name, file_content, c_str, first_boundary, crlf, find, shift, parse_file_body,
}
use boost_web.TestService.Answer.{boundary_of-rest, handle_request-answers, is_ended}
use boost_web.TestService.Multipart.{Part, Plain, Shows, encode}
use boost_web.TestService.Multipart.RoundTrip.{parse_file_body-encode}
use boost_web.TestService.Request.{boundary_mark, boundary_of, handle_request}

abbrev boundary : Bytes
boundary = codes "b"

abbrev first_file : Part
first_file = record {
  before = codes "name=x; ";
  name = codes "one.txt";
  after = codes ";";
  content = codes "1" ++ crlf ++ 0 ∷ 2 ∷ [];
}

abbrev second_file : Part
second_file = record { before = []; name = []; after = []; content = [] }

first_file-Plain : Plain boundary (first_boundary boundary) first_file
unfolding find shift starts_with
first_file-Plain = (refl, refl, refl, refl)

second_file-Plain : Plain boundary [] second_file
unfolding find shift starts_with
second_file-Plain = (refl, refl, refl, refl)

parse_file_body-encode_example :
    ((text : Bytes) → Shows text (c_str text))
    × (parse_file_body 2 boundary (encode boundary first_file (second_file ∷ []))
        ≡ some (
            file_name 1 (codes "one.txt")
            ∷ file_content 1 (codes "1" ++ crlf)
            ∷ file_name 2 []
            ∷ file_content 2 []
            ∷ []))
unfolding c_str
parse_file_body-encode_example =
    parse_file_body-encode boundary first_file (second_file ∷ []) 2 first_file-Plain
      (second_file-Plain, tt) (omega arith)

abbrev form_data : Bytes
form_data = codes "multipart/form-data; "

form_data-boundary :
    find boundary_mark ((form_data ++ boundary_mark) ++ codes "b; charset=utf-8")
    ≡ some (length form_data)
unfolding find shift starts_with
form_data-boundary = refl

boundary_of-rest_example :
    boundary_of ((form_data ++ boundary_mark) ++ codes "b; charset=utf-8")
    ≡ some (codes "b; charset=utf-8")
boundary_of-rest_example =
    boundary_of-rest form_data (codes "b; charset=utf-8") form_data-boundary (omega arith)

-- A form, of which one file is sent
abbrev posted : Message
posted = record blank {
  field = λ f. form_data ++ boundary_mark ++ boundary;
  body = encode boundary first_file [];
  code = 4;
}

handle_request-answers_example :
    let (printed, answered) = handle_request request response 100 posted blank in
    (is_ended printed ≡ true)
    × (response' : Message) × (answered ≡ some response')
    × (response'.body
        ≡ codes "recv request ("
          ++ request.method_string posted
          ++ codes ": "
          ++ posted.line
          ++ codes ", {"
          ++ posted.body
          ++ codes "})")
    × (response.result response' ≡ 200)
    × (response'.code ≡ 200)
handle_request-answers_example =
    handle_request-answers request response response-Laws beast-Laws 100 posted blank (omega arith)
