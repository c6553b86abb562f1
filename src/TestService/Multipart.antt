-- ===== src/TestService/Multipart.antt =====
-- The multipart bodies that parse_file_body (test/test_service.cpp) is for: how they are written, and
-- what is to be printed of them.
pub mod Find
pub mod Reading
pub mod RoundTrip
use boost_web.Common.{
  ℕ, zero, suc, ◌+◌, ◌%◌, ◌^◌, ◌≡◌, List, [], ◌∷◌, ◌++◌, some, Bytes, codes, length, All, ◌<◌, ◌⊎◌,
}
use boost_web.TestService.{
  Event, file_name, file_content, c_str, find, crlf, crlf_crlf, first_boundary, next_boundary_head,
}

abbrev pub filename_head : Bytes
filename_head = codes "filename=\""

abbrev pub quote : Bytes
quote = codes "\""

-- A part: its header, around the name of the file, and its content
pub record Part : Type 0 where
  pub before : Bytes
  pub name : Bytes
  pub after : Bytes
  pub content : Bytes

abbrev pub header : Part → Bytes
header p = p.before ++ (filename_head ++ (p.name ++ (quote ++ p.after)))

-- The first part, and what follows it
abbrev pub followed : Part → Bytes → Bytes
followed p rest = header p ++ (crlf_crlf ++ (p.content ++ rest))

abbrev pub encode_rest : Bytes → List Part → Bytes
encode_rest boundary [] = next_boundary_head boundary ++ codes "--"
encode_rest boundary (p ∷ ps) =
    next_boundary_head boundary ++ (crlf ++ followed p (encode_rest boundary ps))

abbrev pub encode : Bytes → Part → List Part → Bytes
encode boundary p ps = first_boundary boundary ++ followed p (encode_rest boundary ps)

-- The pattern stands nowhere in the text, nor across its end where the pattern follows it.
abbrev pub Without : Bytes → Bytes → Type 0
Without pattern text = find pattern (text ++ pattern) ≡ some (length text)

-- A part that is read as it is meant, after `lead`, from where the search for its header starts
abbrev pub Plain : Bytes → Bytes → Part → Type 0
Plain boundary lead p =
    Without filename_head (lead ++ p.before)
    × Without quote p.name
    × Without crlf_crlf (lead ++ header p)
    × Without (next_boundary_head boundary) p.content

-- What is to be printed, of a name or a content up to its first NUL, with the parts numbered from after an index
abbrev pub listed : ℕ → List Part → List Event
listed index [] = []
listed index (p ∷ ps) =
    let i = (index + 1) % 2 ^ 32 in
    file_name i (c_str p.name) ∷ file_content i (c_str p.content) ∷ listed i ps

-- What is before the first NUL of a text, or all of it
abbrev pub Shows : Bytes → Bytes → Type 0
Shows text shown =
    All (λ c. 0 < c) shown × ((text ≡ shown) ⊎ (rest : Bytes) × (text ≡ shown ++ 0 ∷ rest))
