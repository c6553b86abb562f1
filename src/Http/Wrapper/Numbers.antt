-- ===== src/Http/Wrapper/Numbers.antt =====
-- http_version_t, http_method_t and http_result_t of inc/boost_web.h. An enumeration of C++ can hold
-- numbers beside its enumerators: `value_t` is a number.
use boost_web.Common.{ℕ}

pub data HttpVersion : Type 0 where
  http_v10 http_v11 : HttpVersion

unfoldable pub version_number : HttpVersion → ℕ
version_number http_v10 = 10
version_number http_v11 = 11

pub data HttpMethod : Type 0 where
  http_unsupported http_delete http_get http_head http_post http_put http_connect : HttpMethod

unfoldable pub method_number : HttpMethod → ℕ
method_number http_unsupported = 0
method_number http_delete = 1
method_number http_get = 2
method_number http_head = 3
method_number http_post = 4
method_number http_put = 5
method_number http_connect = 6

pub data HttpResult : Type 0 where
  http_continue http_processing http_ok http_created http_accepted : HttpResult
  http_non_authoritative_information http_no_content http_reset_content : HttpResult
  http_partial_content http_multiple_choices http_moved_permanently http_found : HttpResult
  http_not_modified http_use_proxy http_bad_request http_unauthorized : HttpResult
  http_payment_required http_forbidden http_not_found http_method_not_allowed : HttpResult
  http_not_acceptable http_request_timeout http_conflict http_gone : HttpResult
  http_length_required http_precondition_failed http_payload_too_large : HttpResult
  http_uri_too_long http_internal_server_error http_not_implemented : HttpResult
  http_service_unavailable http_version_not_supported : HttpResult

unfoldable pub result_number : HttpResult → ℕ
result_number http_continue = 100
result_number http_processing = 102
result_number http_ok = 200
result_number http_created = 201
result_number http_accepted = 202
result_number http_non_authoritative_information = 203
result_number http_no_content = 204
result_number http_reset_content = 205
result_number http_partial_content = 206
result_number http_multiple_choices = 300
result_number http_moved_permanently = 301
result_number http_found = 302
result_number http_not_modified = 304
result_number http_use_proxy = 305
result_number http_bad_request = 400
result_number http_unauthorized = 401
result_number http_payment_required = 402
result_number http_forbidden = 403
result_number http_not_found = 404
result_number http_method_not_allowed = 405
result_number http_not_acceptable = 406
result_number http_request_timeout = 408
result_number http_conflict = 409
result_number http_gone = 410
result_number http_length_required = 411
result_number http_precondition_failed = 412
result_number http_payload_too_large = 413
result_number http_uri_too_long = 414
result_number http_internal_server_error = 500
result_number http_not_implemented = 501
result_number http_service_unavailable = 503
result_number http_version_not_supported = 505
