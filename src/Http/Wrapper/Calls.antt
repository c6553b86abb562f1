-- ===== src/Http/Wrapper/Calls.antt =====
-- HttpMessage, HttpRequest and HttpResponse: each call is one of the message that is wrapped.
use boost_web.Common.{ℕ, Option, Bytes}
use boost_web.Http.Wrapper.Beast.{
  Beast, BeastRequest, BeastResponse, server, accept, cookie, user_agent, content_type, content_md5,
}
use boost_web.Http.Wrapper.Numbers.{
  HttpVersion, version_number, HttpMethod, method_number, HttpResult, result_number,
}

-- inc/http_message.hpp
module _ (b : Beast) where
  open b use {Message}

  unfoldable pub set_version : HttpVersion → Message → Message
  set_version http_version m = b.set_version (version_number http_version) m

  unfoldable pub get_version : Message → ℕ
  get_version m = b.version m

  unfoldable pub set_field_server : Bytes → Message → Option Message
  set_field_server s m = b.set_field server s m

  unfoldable pub get_field_server : Message → Bytes
  get_field_server m = b.field server m

  unfoldable pub set_field_accept : Bytes → Message → Option Message
  set_field_accept s m = b.set_field accept s m

  unfoldable pub get_field_accept : Message → Bytes
  get_field_accept m = b.field accept m

  unfoldable pub set_field_cookie : Bytes → Message → Option Message
  set_field_cookie s m = b.set_field cookie s m

  unfoldable pub get_field_cookie : Message → Bytes
  get_field_cookie m = b.field cookie m

  unfoldable pub set_field_user_agent : Bytes → Message → Option Message
  set_field_user_agent s m = b.set_field user_agent s m

  unfoldable pub get_field_user_agent : Message → Bytes
  get_field_user_agent m = b.field user_agent m

  unfoldable pub set_field_content_type : Bytes → Message → Option Message
  set_field_content_type s m = b.set_field content_type s m

  unfoldable pub get_field_content_type : Message → Bytes
  get_field_content_type m = b.field content_type m

  unfoldable pub set_field_content_md5 : Bytes → Message → Option Message
  set_field_content_md5 s m = b.set_field content_md5 s m

  unfoldable pub get_field_content_md5 : Message → Bytes
  get_field_content_md5 m = b.field content_md5 m

  unfoldable pub set_body : Bytes → Message → Message
  set_body s m = b.set_body s m

  -- The set_body of an rvalue, whose owner gives it up
  unfoldable pub set_body_from : Bytes → Message → Message
  set_body_from s m = b.set_body s m

  unfoldable pub get_body : Message → Bytes
  get_body m = b.body m

  -- The get_body of a message that is not const answers an rvalue. A caller that moves from it leaves
  -- `rest` in the message, which C++ does not specify.
  unfoldable pub move_body : Bytes → Message → Bytes × Message
  move_body rest m = (b.body m, b.set_body rest m)

-- inc/http_request.hpp
module _ (b : BeastRequest) where
  open b use {message}

  unfoldable pub set_method : HttpMethod → message.Message → Option message.Message
  set_method http_method m = b.set_method (method_number http_method) m

  unfoldable pub get_method : message.Message → ℕ
  get_method m = b.method m

  unfoldable pub get_method_string : message.Message → Bytes
  get_method_string m = b.method_string m

  unfoldable pub set_target : Bytes → message.Message → message.Message
  set_target http_target m = b.set_target http_target m

  unfoldable pub get_target : message.Message → Bytes
  get_target m = b.target m

-- inc/http_response.hpp
module _ (b : BeastResponse) where
  open b use {message}

  unfoldable pub set_result : HttpResult → message.Message → Option message.Message
  set_result http_result m = b.set_result (result_number http_result) m

  unfoldable pub get_result : message.Message → ℕ
  get_result m = b.result m

  unfoldable pub get_result_integer : message.Message → ℕ
  get_result_integer m = b.result_int m

  unfoldable pub set_reason : Bytes → message.Message → message.Message
  set_reason http_reason m = b.set_reason http_reason m

  unfoldable pub get_reason : message.Message → Bytes
  get_reason m = b.reason m
