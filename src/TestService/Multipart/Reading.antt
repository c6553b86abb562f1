-- ===== src/TestService/Multipart/Reading.antt =====
-- One round of the loop of parse_file_body (test/test_service.cpp), at a part of a body that was written
-- as Multipart has it.
use boost_web.Common.{
  ℕ, ◌+◌, ◌-◌, ◌≡◌, refl, sym, ap, ◌∙◌, List, [], ◌∷◌, ◌++◌, Option, none, some, Bytes, codes,
  length, length-append, append_assoc, arith,
}
use boost_web.Http.Target.Segments.{equals}
use boost_web.TestService.{
  Event, file_name, file_content, invalid_boundary, crlf, crlf_crlf, next_boundary_head, find_from,
  substr, c_str, name_from, name_ending, content_from, content_to, at_boundary, resume, iteration,
}
use boost_web.TestService.Multipart.{Part, header, followed, filename_head, quote, Plain}
use boost_web.TestService.Multipart.Find.{find_from-Without, substr-append, equals-append}

module _ (pre lead before fn name q after cc content rest : Bytes) where
  abbrev whole : Bytes
  whole = pre ++ (lead ++ ((before ++ (fn ++ (name ++ (q ++ after)))) ++ (cc ++ (content ++ rest))))

  before_head :
      whole
      ≡ pre ++ ((lead ++ before) ++ (fn ++ (name ++ (q ++ (after ++ (cc ++ (content ++ rest)))))))
  before_head = simp append_assoc

  before_name :
      whole
      ≡ ((pre ++ (lead ++ before)) ++ fn) ++ (name ++ (q ++ (after ++ (cc ++ (content ++ rest)))))
  before_name = simp append_assoc

  before_cc :
      whole
      ≡ pre ++ ((lead ++ (before ++ (fn ++ (name ++ (q ++ after))))) ++ (cc ++ (content ++ rest)))
  before_cc = simp append_assoc

  before_content :
      whole
      ≡ ((pre ++ (lead ++ (before ++ (fn ++ (name ++ (q ++ after)))))) ++ cc) ++ (content ++ rest)
  before_content = simp append_assoc

regroup : (xs ys zs rest : Bytes) → xs ++ (ys ++ (zs ++ rest)) ≡ ((xs ++ ys) ++ zs) ++ rest
regroup xs ys zs rest = simp append_assoc

-- Where the pieces of a part are in a body
abbrev up_to_name : Bytes → Bytes → Part → Bytes
up_to_name pre lead p = (pre ++ (lead ++ p.before)) ++ filename_head

abbrev up_to_content : Bytes → Bytes → Part → Bytes
up_to_content pre lead p = (pre ++ (lead ++ header p)) ++ crlf_crlf

module _ (boundary body pre lead : Bytes) (p : Part) (rest : Bytes) (position : ℕ)
    (split : body ≡ pre ++ (lead ++ followed p rest)) (start : position ≡ length pre)
    (plain : Plain boundary lead p) where
  name_read :
      (index : ℕ)
      → name_from body index (find_from filename_head body position)
        ≡ file_name index (c_str p.name) ∷ []
  unfolding name_from name_ending
  name_read index =
      let at_head =
        find_from-Without body pre (lead ++ p.before) filename_head
          (p.name ++ (quote ++ (p.after ++ (crlf_crlf ++ (p.content ++ rest))))) position
          (split
            ∙ before_head pre lead p.before filename_head p.name quote p.after crlf_crlf p.content
                rest)
          start (omega arith) plain.0 in
      let begin = length (pre ++ (lead ++ p.before)) + 10 in
      let begins : begin ≡ length (up_to_name pre lead p) =
        omega (arith, length-append (pre ++ (lead ++ p.before)) filename_head) in
      let at_tail =
        find_from-Without body (up_to_name pre lead p) p.name quote
          (p.after ++ (crlf_crlf ++ (p.content ++ rest))) begin
          (split
            ∙ before_name pre lead p.before filename_head p.name quote p.after crlf_crlf p.content
                rest)
          begins (omega arith) plain.1 in
      let reads : substr body begin (length (up_to_name pre lead p ++ p.name) - begin) ≡ p.name =
        substr-append body (up_to_name pre lead p) p.name
          (quote ++ (p.after ++ (crlf_crlf ++ (p.content ++ rest)))) begin
          (length (up_to_name pre lead p ++ p.name) - begin)
          (split
            ∙ before_name pre lead p.before filename_head p.name quote p.after crlf_crlf p.content
                rest)
          begins (omega (arith, begins, length-append (up_to_name pre lead p) p.name)) in
      ap (name_from body index) at_head
      ∙ ap (name_ending body index begin) at_tail
      ∙ ap (λ bs. file_name index (c_str bs) ∷ []) reads

-- What ends a part, and the two bytes after it
abbrev pub up_to_boundary : Bytes → Bytes → Bytes → Part → Bytes
up_to_boundary boundary pre lead p =
    (up_to_content pre lead p ++ p.content) ++ next_boundary_head boundary

-- What the bytes after the end of a part make of it
abbrev pub ended : Bytes → ℕ → Bytes → ℕ → Bytes → List Event × Option ℕ
ended boundary index content next mark =
    let next_boundary = next_boundary_head boundary ++ mark in
    resume (equals next_boundary (next_boundary_head boundary ++ crlf))
      (equals next_boundary (next_boundary_head boundary ++ codes "--"))
      (file_content index (c_str content) ∷ []) (invalid_boundary (c_str next_boundary) ∷ []) next

abbrev pub next_start : Bytes → Bytes → Bytes → Part → ℕ
next_start boundary pre lead p =
    length (up_to_content pre lead p ++ p.content) + length (next_boundary_head boundary ++ crlf)

pub ended-crlf :
    (boundary : Bytes) (index : ℕ) (content : Bytes) (next : ℕ)
    → ended boundary index content next crlf ≡ (file_content index (c_str content) ∷ [], some next)
unfolding equals resume
ended-crlf boundary index content next =
    rw (equals-append (next_boundary_head boundary) crlf crlf) refl

pub ended-dashes :
    (boundary : Bytes) (index : ℕ) (content : Bytes) (next : ℕ)
    → ended boundary index content next (codes "--")
      ≡ (file_content index (c_str content) ∷ [], none)
unfolding equals resume
ended-dashes boundary index content next =
    rw
      (
        equals-append (next_boundary_head boundary) (codes "--") crlf,
        equals-append (next_boundary_head boundary) (codes "--") (codes "--"),
      )
      refl

module _ (boundary body pre lead : Bytes) (p : Part) (mark more : Bytes) (position : ℕ)
    (split : body ≡ pre ++ (lead ++ followed p (next_boundary_head boundary ++ (mark ++ more))))
    (start : position ≡ length pre) (plain : Plain boundary lead p) (two : length mark ≡ 2) where
  content_read :
      (index : ℕ)
      → content_from boundary body index (find_from crlf_crlf body position)
        ≡ ended boundary index p.content (next_start boundary pre lead p) mark
  unfolding content_from content_to at_boundary
  content_read index =
      let head = next_boundary_head boundary in
      let splits =
        split
        ∙ before_content pre lead p.before filename_head p.name quote p.after crlf_crlf p.content
            (head ++ (mark ++ more)) in
      let at_cc =
        find_from-Without body pre (lead ++ header p) crlf_crlf
          (p.content ++ (head ++ (mark ++ more))) position
          (split
            ∙ before_cc pre lead p.before filename_head p.name quote p.after crlf_crlf p.content
                (head ++ (mark ++ more)))
          start (omega arith) plain.2 in
      let begin = length (pre ++ (lead ++ header p)) + 4 in
      let begins : begin ≡ length (up_to_content pre lead p) =
        omega (arith, length-append (pre ++ (lead ++ header p)) crlf_crlf) in
      let at_end =
        find_from-Without body (up_to_content pre lead p) p.content head (mark ++ more) begin splits
          begins (omega arith) plain.3 in
      let end = length (up_to_content pre lead p ++ p.content) in
      let size = length-append (up_to_content pre lead p) p.content in
      let reads : substr body begin (end - begin) ≡ p.content =
        substr-append body (up_to_content pre lead p) p.content (head ++ (mark ++ more)) begin
          (end - begin) splits begins (omega (arith, begins, size)) in
      let marks : substr body (end + length head) 2 ≡ mark =
        substr-append body (up_to_boundary boundary pre lead p) mark more (end + length head) 2
          (splits ∙ regroup (up_to_content pre lead p) p.content head (mark ++ more))
          (omega (arith, length-append (up_to_content pre lead p ++ p.content) head)) (sym two) in
      ap (content_from boundary body index) at_cc
      ∙ ap (content_to boundary body index begin) at_end
      ∙ ap
          (λ content.
            ended boundary index content (next_start boundary pre lead p)
              (substr body (end + length head) 2))
          reads
      ∙ ap (ended boundary index p.content (next_start boundary pre lead p)) marks

  -- The events of a part, and what becomes of its end
  pub part_read :
      (index : ℕ)
      → let end = ended boundary index p.content (next_start boundary pre lead p) mark in
        iteration boundary body index position ≡ (file_name index (c_str p.name) ∷ end.0, end.1)
  unfolding iteration
  part_read index =
      ap (λ names. (names ++ contents.0, contents.1))
        (name_read boundary body pre lead p (next_boundary_head boundary ++ (mark ++ more)) position
          split start plain index)
      ∙ ap (λ c. (file_name index (c_str p.name) ∷ c.0, c.1)) (content_read index)
    where
      contents : List Event × Option ℕ
      contents = content_from boundary body index (find_from crlf_crlf body position)

-- The body, cut behind the two bytes
pub behind_mark :
    (boundary pre lead : Bytes) (p : Part) (mark more : Bytes)
    → pre ++ (lead ++ followed p (next_boundary_head boundary ++ (mark ++ more)))
      ≡ (up_to_boundary boundary pre lead p ++ mark) ++ more
behind_mark boundary pre lead p mark more =
    let head = next_boundary_head boundary in
    before_content pre lead p.before filename_head p.name quote p.after crlf_crlf p.content
      (head ++ (mark ++ more))
    ∙ regroup (up_to_content pre lead p) p.content head (mark ++ more)
    ∙ sym (append_assoc (up_to_boundary boundary pre lead p) mark more)

pub next_start-length :
    (boundary pre lead : Bytes) (p : Part)
    → next_start boundary pre lead p ≡ length (up_to_boundary boundary pre lead p ++ crlf)
next_start-length boundary pre lead p =
    let head = next_boundary_head boundary in
    omega (
      arith,
      length-append head crlf,
      length-append (up_to_content pre lead p ++ p.content) head,
      length-append (up_to_boundary boundary pre lead p) crlf,
    )
