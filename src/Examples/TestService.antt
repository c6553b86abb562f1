-- ===== src/Examples/TestService.antt =====
-- Multipart bodies (test/test_service.cpp).
use boost_web.Common.{◌≡◌, ◌≤◌, List, length, refl, Bytes, codes, ◌++◌, [], ◌∷◌, some, arith}
use boost_web.Http.Target.{starts_with}
use boost_web.Http.Target.Segments.{equals}
use boost_web.TestService.{
  Event, file_name, file_content, crlf, crlf_crlf, shift, find, find_from, take, substr, c_str,
  resume, at_boundary, content_to, content_from, name_from, name_ending, iteration, before, loop,
  parse_file_body,
}
use boost_web.TestService.Sizes.{content_size, parse_file_body-Bounded}

abbrev boundary : Bytes
boundary = codes "b"

-- A field without a file name, and a file.
abbrev two_parts : Bytes
two_parts =
    codes "--b"
    ++ crlf
    ++ codes "name=x"
    ++ crlf_crlf
    ++ codes "1"
    ++ crlf
    ++ codes "--b"
    ++ crlf
    ++ codes "filename="
    ++ 34 ∷ codes "f"
    ++ 34 ∷ crlf_crlf
    ++ codes "2"
    ++ crlf
    ++ codes "--b--"

-- The field is given the name of the file that follows.
two_parts_read :
    parse_file_body 64 boundary two_parts
    ≡ some (
        file_name 1 (codes "f")
        ∷ file_content 1 (codes "1")
        ∷ file_name 2 (codes "f")
        ∷ file_content 2 (codes "2")
        ∷ [])
unfolding parse_file_body loop iteration before name_from name_ending content_from content_to
    at_boundary resume substr c_str take find_from find shift starts_with equals
two_parts_read = refl

parse_file_body-Bounded_example :
    (events : List Event) × (parse_file_body 64 boundary two_parts ≡ some events)
    × (content_size events ≤ length two_parts)
parse_file_body-Bounded_example = parse_file_body-Bounded 64 boundary two_parts (omega arith)
