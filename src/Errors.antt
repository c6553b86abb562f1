-- ===== src/Errors.antt =====
-- The outcomes of asynchronous operations, boost::beast::error_code: the values that the sources
-- compare with, and all others by their number.
use boost_web.Common.{ℕ, String, Bool, true, false}

pub data ErrorCode : Type 0 where
  success : ErrorCode
  stream_truncated : ErrorCode
  websocket_closed : ErrorCode
  end_of_stream : ErrorCode
  other_error : ℕ → ErrorCode

-- `if (ec)`
abbrev pub failed : ErrorCode → Bool
failed success = false
failed _ = true

-- `boost::asio::ssl::error::stream_truncated == ec`
abbrev pub is_truncated : ErrorCode → Bool
is_truncated stream_truncated = true
is_truncated _ = false

-- `boost::beast::websocket::error::closed == ec`
abbrev pub is_closed : ErrorCode → Bool
is_closed websocket_closed = true
is_closed _ = false

-- `boost::beast::http::error::end_of_stream == ec`
abbrev pub is_end_of_stream : ErrorCode → Bool
is_end_of_stream end_of_stream = true
is_end_of_stream _ = false

-- A call of WebServiceBase::on_error(protocol, what, error, message): of an error code, whose value
-- and message it passes on, or of the library's own finding, with error 1 and a message of its own.
pub data Report : Type 0 where
  of_code : (protocol what : String) → ErrorCode → Report
  own : (protocol what message : String) → Report
