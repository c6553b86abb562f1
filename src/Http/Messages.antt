-- ===== src/Http/Messages.antt =====
-- What inc/http_utility.h uses of Boost.Beast's messages and files, and of the service that it serves.
use boost_web.Common.{ℕ, ◌≡◌, Bool, Bytes}
use boost_web.Address.{Address}

-- boost::beast::http::field, as far as the code sets it
pub data Field : Type 0 where
  server content_type access_control_allow_origin : Field

-- What body.open made of a path.
pub data Opened (File : Type 0) : Type 0 where
  no_such_file : Opened File
  failed_with : Bytes → Opened File
  opened : File → Opened File

pub data Body (File : Type 0) : Type 0 where
  text : Bytes → Body File
  empty : Body File
  file : File → Body File

pub record Messages : Type 1 where
  pub Request : Type 0
  pub Header : Type 0
  pub File : Type 0
  pub size : File → ℕ
  pub target : Request → Bytes
  pub method : Request → ℕ  -- boost::beast::http::verb
  pub method_string : Request → Bytes
  pub version : Request → ℕ
  pub asks_keep_alive : Request → Bool
  pub is_upgrade : Request → Bool
  pub header : ℕ → ℕ → Header  -- of a status and a version
  pub default_header : Header
  pub set : Field → Bytes → Header → Header
  pub set_keep_alive : Bool → Header → Header
  pub content_length : ℕ → Header → Header
  pub prepare_payload : Body File → Header → Header
  pub keep_alive : Header → Bool

module _ (m : Messages) where
  open m use {Request, Header, File, set_keep_alive, prepare_payload, keep_alive}

  -- What the code relies on.
  pub record Laws : Type 0 where
    pub keep_alive-set_keep_alive : (k : Bool) (h : Header) → keep_alive (set_keep_alive k h) ≡ k
    pub keep_alive-prepare_payload :
        (b : Body File) (h : Header) → keep_alive (prepare_payload b h) ≡ keep_alive h

  -- WebServiceBase's part in a request, and the files. The service is given the request as it is, and
  -- changes the header and the body of the response.
  pub record Service (W : Type 0) : Type 0 where
    pub target_is_path : W → Bytes → Bool × W
    pub open_file : W → Bytes → Opened File
    pub handle_request : W → Address → Request → Header → Bytes → Header × Bytes × W
