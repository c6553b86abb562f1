-- ===== src/TestService/Answer.antt =====
-- What handle_request of TestService (test/test_service.cpp) answers, and which boundary it takes.
use boost_web.Common.{
  ◌==◌, if◌then◌else◌, ◌<◌, if_cases, Bool, true, false, ℕ, zero, suc, ◌+◌, ◌-◌, ◌≤◌, ◌≡◌, refl, ap,
  ◌∙◌, [], ◌∷◌, ◌++◌, Option, none, some, Bytes, codes, length, drop, length-append, arith,
}
use boost_web.Http.Wrapper.Beast.{BeastRequest, BeastResponse, MessageLaws, ResponseLaws}
use boost_web.Http.Wrapper.Calls
use boost_web.Http.Wrapper.RoundTrip.{result_read}
use boost_web.Http.Wrapper.Numbers.{http_ok, http_post, method_number, result_number}
use boost_web.TestService.{find, find_from, substr, take}
use boost_web.TestService.Ends.{parse_file_body-Ended, Fits, find_from-Fits}
use boost_web.TestService.Request.{
  boundary_mark, boundary_length, boundary_from, boundary_of, handle_request, answer, answer_text,
  Printed, no_form, boundary_not_found, form, print_form, print_body, contains,
}

take_all : (n : ℕ) (xs : Bytes) → length xs ≤ n → take n xs ≡ xs
unfolding take
take_all zero [] small = refl
take_all zero (x ∷ xs) small = absurd (omega (arith, small))
take_all (suc n) [] small = refl
take_all (suc n) (x ∷ xs) small = ap (λ ys. x ∷ ys) (take_all n xs (omega (arith, small)))

pub drop-append : (xs ys : Bytes) → drop (length xs) (xs ++ ys) ≡ ys
drop-append [] ys = refl
drop-append (x ∷ xs) ys = drop-append xs ys

long_enough :
    (size begin : ℕ) (o : Option ℕ)
    → size ≤ begin + begin
    → Fits (codes ";") begin size o
    → size - begin ≤ boundary_length size begin o
unfolding boundary_length
long_enough size begin none small f = omega arith
long_enough size begin (some end) small (low, high) = omega (arith, small, low)

-- The boundary is all of the content type that follows the first `boundary=`, a semicolon and
-- further parameters included, where that is no longer than what stands before it, the `boundary=`
-- included.
pub boundary_of-rest :
    (before rest : Bytes)
    → let head = before ++ boundary_mark in
      find boundary_mark (head ++ rest) ≡ some (length before)
      → length rest ≤ length head
      → boundary_of (head ++ rest) ≡ some rest
unfolding boundary_of boundary_from substr
boundary_of-rest before rest first small =
    let head = before ++ boundary_mark in
    let content_type = head ++ rest in
    let size : length content_type ≡ length head + length rest = length-append head rest in
    let begin : length before + 9 ≡ length head =
      omega (arith, length-append before boundary_mark) in
    let enough =
      long_enough (length content_type) (length head)
        (find_from (codes ";") content_type (length head)) (omega (arith, size, small))
        (find_from-Fits (codes ";") content_type (length head) (omega arith)) in
    let count =
      boundary_length (length content_type) (length head)
        (find_from (codes ";") content_type (length head)) in
    ap (boundary_from content_type) first
    ∙ ap
        (λ b. some (
          substr content_type b
            (boundary_length (length content_type) b (find_from (codes ";") content_type b))))
        begin
    ∙ ap (λ xs. some (take count xs)) (drop-append head rest)
    ∙ ap some (take_all count rest (omega (arith, size, enough)))

-- parse_file_body has come to its end, where it was called.
abbrev pub is_ended : Printed → Bool
is_ended no_form = true
is_ended boundary_not_found = true
is_ended (form boundary none) = false
is_ended (form boundary (some events)) = true

print_form-ends :
    (fuel : ℕ) (body : Bytes) (boundary : Option Bytes)
    → length body < fuel
    → is_ended (print_form fuel body boundary) ≡ true
unfolding print_form
print_form-ends fuel body none enough = refl
print_form-ends fuel body (some boundary) enough =
    let (events, e) = parse_file_body-Ended fuel boundary body enough in rw e refl

print_body-ends :
    (q : BeastRequest) (fuel : ℕ) (request : q.message.Message)
    → length (q.message.body request) < fuel
    → is_ended (print_body q fuel request) ≡ true
unfolding print_body Calls.get_body
print_body-ends q fuel request enough =
    let content_type = Calls.get_field_content_type q.message request in
    let printed = print_form fuel (Calls.get_body q.message request) (boundary_of content_type) in
    let multipart = contains (codes "multipart/form-data") content_type in
    if_cases (λ p. is_ended p ≡ true) (Calls.get_method q request == method_number http_post)
      (if multipart then printed else no_form) no_form
      (λ _.
        if_cases (λ p. is_ended p ≡ true) multipart printed no_form
          (λ _. print_form-ends fuel (q.message.body request) (boundary_of content_type) enough)
          (λ _. refl))
      (λ _. refl)

module _ (q : BeastRequest) (r : BeastResponse) (laws : ResponseLaws r)
    (message_laws : MessageLaws r.message) where
  -- Over responses that keep their laws: handle_request of TestService does not throw,
  -- parse_file_body comes to its end in it, with more fuel than the body has bytes, and it leaves
  -- a response with the status 200, as its enumerator and as its number, and with the body `recv
  -- request (`, the method, `: `, the target, `, {`, the body of the request and `})`.
  pub handle_request-answers :
      (fuel : ℕ) (request : q.message.Message) (response : r.message.Message)
      → length (q.message.body request) < fuel
      → let (printed, answered) = handle_request q r fuel request response in
        (is_ended printed ≡ true)
        × (response' : r.message.Message) × (answered ≡ some response')
        × (r.message.body response'
            ≡ codes "recv request ("
              ++ q.method_string request
              ++ codes ": "
              ++ q.target request
              ++ codes ", {"
              ++ q.message.body request
              ++ codes "})")
        × (r.result response' ≡ 200)
        × (r.result_int response' ≡ 200)
  unfolding handle_request answer answer_text Calls.set_result Calls.set_body Calls.get_body
      Calls.get_method_string Calls.get_target result_number
  handle_request-answers fuel request response enough =
      let (set, e, e') = laws.set_result-small (result_number http_ok) response (omega arith) in
      let text = answer_text q request in
      let code : r.result_int (r.message.set_body text set) ≡ 200 =
        laws.result_int-set_body text set ∙ e' in
      let named = result_read r laws http_ok (r.message.set_body text set) code in
      (
        print_body-ends q fuel request enough,
        r.message.set_body text set,
        rw e refl,
        message_laws.body-set_body text set,
        named,
        code,
      )
