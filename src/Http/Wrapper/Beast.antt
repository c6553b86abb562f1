-- ===== src/Http/Wrapper/Beast.antt =====
-- What the wrappers use of boost::beast::http::message, and what is documented of it.
use boost_web.Common.{ℕ, ◌≤◌, ◌<◌, ◌≡◌, Bool, true, Option, none, some, Bytes, if◌then◌else◌}
use boost_web.Http.Wrapper.Numbers.{HttpResult, result_number}

-- boost::beast::http::field, as far as the wrappers use it
pub data Field : Type 0 where
  server accept cookie user_agent content_type content_md5 : Field

-- A message with a std::string as its body.
pub record Beast : Type 1 where
  pub Message : Type 0
  pub version : Message → ℕ  -- unsigned
  pub set_version : ℕ → Message → Message
  pub field : Field → Message → Bytes  -- operator[]; empty where there is no such field
  pub set_field : Field → Bytes → Message → Option Message  -- set; `none` is its exception
  pub body : Message → Bytes
  pub set_body : Bytes → Message → Message  -- an assignment to body()

-- A request; `none` of set_method is std::invalid_argument.
pub record BeastRequest : Type 1 where
  pub message : Beast
  pub method : message.Message → ℕ
  pub set_method : ℕ → message.Message → Option message.Message
  pub method_string : message.Message → Bytes
  pub target : message.Message → Bytes
  pub set_target : Bytes → message.Message → message.Message

-- A response; `none` of set_result is std::out_of_range. `result` is 0, status::unknown, of a code that
-- Boost.Beast has no name for.
pub record BeastResponse : Type 1 where
  pub message : Beast
  pub result : message.Message → ℕ
  pub result_int : message.Message → ℕ
  pub set_result : ℕ → message.Message → Option message.Message
  pub reason : message.Message → Bytes
  pub set_reason : Bytes → message.Message → message.Message

-- body() is the body, a std::string, which can be assigned to.
pub record MessageLaws (b : Beast) : Type 0 where
  pub body-set_body : (s : Bytes) (m : b.Message) → b.body (b.set_body s m) ≡ s

-- The verbs of Boost.Beast are 0, verb::unknown, to 33.
abbrev pub verb_count : ℕ
verb_count = 34

-- What is documented of the method of a request, and of its target.
pub record RequestLaws (b : BeastRequest) : Type 0 where
  pub set_method-unknown : (m : b.message.Message) → b.set_method 0 m ≡ none
  pub set_method-verb :
      (v : ℕ) (m : b.message.Message)
      → 0 < v
      → v < verb_count
      → (m' : b.message.Message) × (b.set_method v m ≡ some m') × (b.method m' ≡ v)

-- What is documented of the status of a response: which numbers are enumerators of it, what `result` is
-- of the others, and that numbers of more than three digits are refused.
pub record ResponseLaws (b : BeastResponse) : Type 1 where
  pub is_named : ℕ → Bool
  pub set_result-small :
      (n : ℕ) (m : b.message.Message)
      → n ≤ 999
      → (m' : b.message.Message) × (b.set_result n m ≡ some m') × (b.result_int m' ≡ n)
  pub result-named :
      (m : b.message.Message)
      → b.result m ≡ (if is_named (b.result_int m) then b.result_int m else 0)
  pub result_int-set_body :
      (s : Bytes) (m : b.message.Message) → b.result_int (b.message.set_body s m) ≡ b.result_int m
  pub has_name : (r : HttpResult) → is_named (result_number r) ≡ true
