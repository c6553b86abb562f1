-- ===== src/Examples/Wrapper.antt =====
-- Messages behind the wrappers of inc/http_message.hpp, inc/http_request.hpp and inc/http_response.hpp.
use boost_web.Common.{
  ℕ, ◌≤◌, ◌<◌, ◌≡◌, ◌⊎◌, refl, leb, length, ◌==◌, Bool, true, false, [], Option, none, some, Bytes,
  codes, if◌then◌else◌, arith,
}
use boost_web.Http.Wrapper.Numbers.{
  result_number, method_number, http_unsupported, http_not_found, http_put,
}
use boost_web.Http.Wrapper.Calls
use boost_web.Http.Wrapper.Beast.{
  Beast, BeastRequest, BeastResponse, RequestLaws, ResponseLaws, MessageLaws, Field, server, accept,
  cookie, user_agent, content_type, content_md5,
}
use boost_web.Http.Wrapper.RoundTrip.{
  get_method-set_method, get_result-set_result, methods, enumerator, results, result_enumerator,
}

abbrev same_field : Field → Field → Bool
same_field server server = true
same_field accept accept = true
same_field cookie cookie = true
same_field user_agent user_agent = true
same_field content_type content_type = true
same_field content_md5 content_md5 = true
same_field _ _ = false

pub record Message : Type 0 where
  pub version : ℕ
  pub field : Field → Bytes
  pub body : Bytes
  pub code : ℕ  -- the verb, or the status
  pub line : Bytes  -- the target, or the reason

abbrev pub beast : Beast
beast = record {
  Message = Message;
  version = λ m. m.version;
  set_version = λ v m. record m { version = v };
  field = λ f m. m.field f;
  set_field = λ f s m.
      if leb (length s) 65533
      then some (record m { field = λ g. if same_field f g then s else m.field g })
      else none;
  body = λ m. m.body;
  set_body = λ s m. record m { body = s };
}

pub beast-Laws : MessageLaws beast
beast-Laws = record { body-set_body = λ s m. refl }

abbrev pub request : BeastRequest
request = record {
  message = beast;
  method = λ m. m.code;
  set_method = λ v m. if v == 0 then none else some (record m { code = v });
  method_string = λ m. if m.code == 3 then codes "HEAD" else codes "GET";
  target = λ m. m.line;
  set_target = λ s m. record m { line = s };
}

not_zero : (v : ℕ) → 0 < v → (v == 0) ≡ false
not_zero v positive = ground arith

three_digits : (n : ℕ) → n ≤ 999 → leb n 999 ≡ true
three_digits n small = ground arith

request-Laws : RequestLaws request
request-Laws = record {
  set_method-unknown = λ m. refl;
  set_method-verb =
      λ v m positive small. (record m { code = v }, rw (not_zero v positive) refl, refl);
}

abbrev is_some : {A : Type 0} → Option A → Bool
is_some none = false
is_some (some x) = true

abbrev is_named : ℕ → Bool
is_named n = is_some (enumerator result_number results n)

abbrev pub response : BeastResponse
response = record {
  message = beast;
  result = λ m. if is_named m.code then m.code else 0;
  result_int = λ m. m.code;
  set_result = λ n m. if leb n 999 then some (record m { code = n }) else none;
  reason = λ m. m.line;
  set_reason = λ s m. record m { line = s };
}

pub response-Laws : ResponseLaws response
response-Laws = record {
  is_named = is_named;
  set_result-small = λ n m small. (record m { code = n }, rw (three_digits n small) refl, refl);
  result_int-set_body = λ s m. refl;
  result-named = λ m. refl;
  has_name = λ r. rw (result_enumerator r) refl;
}

abbrev pub blank : Message
blank = record { version = 10; field = λ f. []; body = []; code = 0; line = [] }

get_method-set_method_example :
    ((http_put ≡ http_unsupported) × (Calls.set_method request http_put blank ≡ none))
    ⊎ ((m' : Message) × (Calls.set_method request http_put blank ≡ some m')
        × (enumerator method_number methods (Calls.get_method request m') ≡ some http_put))
get_method-set_method_example = get_method-set_method request request-Laws http_put blank

get_result-set_result_example :
    (m' : Message) × (Calls.set_result response http_not_found blank ≡ some m')
    × (enumerator result_number results (Calls.get_result response m') ≡ some http_not_found)
    × (Calls.get_result_integer response m' ≡ Calls.get_result response m')
get_result-set_result_example = get_result-set_result response response-Laws http_not_found blank
