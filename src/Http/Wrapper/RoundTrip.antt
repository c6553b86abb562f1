-- ===== src/Http/Wrapper/RoundTrip.antt =====
-- What is read from a wrapper (inc/http_request.hpp, inc/http_response.hpp) is what was set.
use boost_web.Common.{
  ℕ, ◌⊎◌, inl, inr, List, [], ◌∷◌, ◌≤◌, ◌<◌, ◌==◌, ◌≡◌, refl, sym, ◌∙◌, ap, Option, none, some,
  if◌then◌else◌, arith,
}
use boost_web.Http.Wrapper.Numbers.{
  HttpMethod, method_number, HttpResult, result_number, http_unsupported, http_delete, http_get,
  http_head, http_post, http_put, http_connect, http_continue, http_processing, http_ok,
  http_created, http_accepted, http_non_authoritative_information, http_no_content,
  http_reset_content, http_partial_content, http_multiple_choices, http_moved_permanently,
  http_found, http_not_modified, http_use_proxy, http_bad_request, http_unauthorized,
  http_payment_required, http_forbidden, http_not_found, http_method_not_allowed,
  http_not_acceptable, http_request_timeout, http_conflict, http_gone, http_length_required,
  http_precondition_failed, http_payload_too_large, http_uri_too_long, http_internal_server_error,
  http_not_implemented, http_service_unavailable, http_version_not_supported,
}
use boost_web.Http.Wrapper.Beast.{
  BeastRequest, BeastResponse, RequestLaws, ResponseLaws, verb_count,
}
use boost_web.Http.Wrapper.Calls

result_small : (r : HttpResult) → result_number r ≤ 999
unfolding result_number
result_small http_continue = omega arith
result_small _ = omega arith

-- The enumerator of a number, by a list of enumerators
abbrev pub enumerator : {A : Type 0} → (A → ℕ) → List A → ℕ → Option A
enumerator f [] n = none
enumerator f (x ∷ xs) n = if f x == n then some x else enumerator f xs n

abbrev pub methods : List HttpMethod
methods =
    http_unsupported ∷ http_delete ∷ http_get ∷ http_head ∷ http_post ∷ http_put ∷ http_connect ∷ []

abbrev pub results : List HttpResult
results =
    http_continue ∷ http_processing ∷ http_ok ∷ http_created ∷ http_accepted
    ∷ http_non_authoritative_information ∷ http_no_content ∷ http_reset_content
    ∷ http_partial_content ∷ http_multiple_choices ∷ http_moved_permanently ∷ http_found
    ∷ http_not_modified ∷ http_use_proxy ∷ http_bad_request ∷ http_unauthorized
    ∷ http_payment_required ∷ http_forbidden ∷ http_not_found ∷ http_method_not_allowed
    ∷ http_not_acceptable ∷ http_request_timeout ∷ http_conflict ∷ http_gone ∷ http_length_required
    ∷ http_precondition_failed ∷ http_payload_too_large ∷ http_uri_too_long
    ∷ http_internal_server_error ∷ http_not_implemented ∷ http_service_unavailable
    ∷ http_version_not_supported ∷ []

method_cases : (v : HttpMethod) → (v ≡ http_unsupported) ⊎ (0 < method_number v)
unfolding method_number
method_cases http_unsupported = inl refl
method_cases _ = inr (omega arith)

method_small : (v : HttpMethod) → method_number v < verb_count
unfolding method_number
method_small http_unsupported = omega arith
method_small _ = omega arith

method_enumerator : (v : HttpMethod) → enumerator method_number methods (method_number v) ≡ some v
unfolding method_number
method_enumerator http_unsupported = refl
method_enumerator _ = refl

pub result_enumerator :
    (r : HttpResult) → enumerator result_number results (result_number r) ≡ some r
unfolding result_number
result_enumerator http_continue = refl
result_enumerator _ = refl

-- What is read of a response whose status is an enumerator
pub result_read :
    (b : BeastResponse)
    → (laws : ResponseLaws b) → (r : HttpResult) (m : b.message.Message)
    → b.result_int m ≡ result_number r
    → b.result m ≡ result_number r
result_read b laws r m e = laws.result-named m ∙ rw (e, laws.has_name r) refl

-- Over requests that keep their laws: set_method throws for http_unsupported, and for no other
-- method; then the method that was set is the enumerator with the number that get_method answers.
pub get_method-set_method :
    (b : BeastRequest)
    → RequestLaws b
    → (method : HttpMethod) (m : b.message.Message)
    → ((method ≡ http_unsupported) × (Calls.set_method b method m ≡ none))
      ⊎ ((m' : b.message.Message) × (Calls.set_method b method m ≡ some m')
          × (enumerator method_number methods (Calls.get_method b m') ≡ some method))
unfolding Calls.set_method Calls.get_method method_number
get_method-set_method b laws method m = elim (method_cases method) [
  | inl unsupported ↦ inl (
    unsupported,
    ap (λ v. b.set_method (method_number v) m) unsupported ∙ laws.set_method-unknown m,
  )
  | inr positive ↦
      let (m', e, e') =
        laws.set_method-verb (method_number method) m positive (method_small method) in
      inr (m', e, rw e' (method_enumerator method))
]

-- Over responses that keep their laws: set_result never throws, the result that was set is then the
-- enumerator with the number that get_result answers, and get_result_integer answers the same
-- number.
pub get_result-set_result :
    (b : BeastResponse)
    → ResponseLaws b
    → (result : HttpResult) (m : b.message.Message)
    → (m' : b.message.Message) × (Calls.set_result b result m ≡ some m')
      × (enumerator result_number results (Calls.get_result b m') ≡ some result)
      × (Calls.get_result_integer b m' ≡ Calls.get_result b m')
unfolding Calls.set_result Calls.get_result Calls.get_result_integer
get_result-set_result b laws result m =
    let (m', e, e') = laws.set_result-small (result_number result) m (result_small result) in
    let named = result_read b laws result m' e' in
    (m', e, rw named (result_enumerator result), e' ∙ sym named)
