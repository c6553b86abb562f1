-- ===== src/TestService/Chat/Blocks.antt =====
-- The messages of TestService (test/test_service.cpp) are blocks, one after the other.
use boost_web.Common.{
  ℕ, zero, suc, ◌+◌, ◌*◌, ◌%◌, ◌<◌, ◌≡◌, refl, ap, sym, ◌∙◌, true, [], ◌∷◌, ◌++◌, some, Bytes,
  length, drop, ◌==◌, ==_iff, ◌↔◌, append_assoc, append-nil, arith, size_mod, both, both_if,
  ==-same,
}
use boost_web.Http.Target.Segments.{equals}
use boost_web.TestService.{take}
use boost_web.TestService.Ends.{length-drop}
use boost_web.TestService.Chat.{
  msg_blk, msg_len, zeros, put, put_at, copy_blocks, message, blocks_match, is_expected,
}

-- What a message of a count is.
abbrev pub blocks : ℕ → Bytes
blocks zero = []
blocks (suc n) = msg_blk ++ blocks n

pub length-blocks : (n : ℕ) → length (blocks n) ≡ msg_len * n
length-blocks zero = refl
length-blocks (suc n) = omega (arith, length-blocks n)

blocks_snoc : (n : ℕ) → blocks n ++ msg_blk ≡ blocks (suc n)
blocks_snoc zero = refl
blocks_snoc (suc n) = ap (λ bs. msg_blk ++ bs) (blocks_snoc n)

put_at-append :
    (xs block content : Bytes) → put_at (length xs) block (xs ++ content) ≡ xs ++ put block content
put_at-append [] block content = refl
put_at-append (x ∷ xs) block content = ap (λ ys. x ∷ ys) (put_at-append xs block content)

length-zeros : (n : ℕ) → length (zeros n) ≡ n
length-zeros zero = refl
length-zeros (suc n) = ap suc (length-zeros n)

zeros-add : (m n : ℕ) → zeros (m + n) ≡ zeros m ++ zeros n
zeros-add zero n = ap zeros (omega arith)
zeros-add (suc m) n =
    let e : suc m + n ≡ suc (m + n) = omega arith in ap zeros e ∙ ap (λ ys. 0 ∷ ys) (zeros-add m n)

put_next : (n : ℕ) → put msg_blk (zeros (msg_len * suc n)) ≡ msg_blk ++ zeros (msg_len * n)
put_next n =
    let e : msg_len * suc n ≡ msg_len + msg_len * n = omega arith in
    ap (λ m. put msg_blk (zeros m)) e ∙ ap (put msg_blk) (zeros-add msg_len (msg_len * n))

copy_block :
    (i n : ℕ)
    → put_at (msg_len * i) msg_blk (blocks i ++ zeros (msg_len * suc n))
      ≡ blocks (suc i) ++ zeros (msg_len * n)
copy_block i n =
    let rest = zeros (msg_len * suc n) in
    ap (λ m. put_at m msg_blk (blocks i ++ rest)) (sym (length-blocks i))
    ∙ put_at-append (blocks i) msg_blk rest
    ∙ ap (λ bs. blocks i ++ bs) (put_next n)
    ∙ sym (append_assoc (blocks i) msg_blk (zeros (msg_len * n)))
    ∙ ap (λ bs. bs ++ zeros (msg_len * n)) (blocks_snoc i)

copy_blocks-zeros : (n i : ℕ) → copy_blocks n i (blocks i ++ zeros (msg_len * n)) ≡ blocks (n + i)
unfolding copy_blocks
copy_blocks-zeros zero i = append-nil (blocks i) ∙ ap blocks (omega arith)
copy_blocks-zeros (suc n) i =
    let e : i + 1 ≡ suc i = omega arith in
    let e' : n + suc i ≡ suc n + i = omega arith in
    ap (λ bs. copy_blocks n (i + 1) bs) (copy_block i n)
    ∙ ap (λ j. copy_blocks n j (blocks (suc i) ++ zeros (msg_len * n))) e
    ∙ copy_blocks-zeros n (suc i)
    ∙ ap blocks e'

-- Where its size does not wrap around, the content that send_message makes is that many blocks.
pub message-blocks : (n : ℕ) → msg_len * n < size_mod → message n ≡ blocks n
unfolding message
message-blocks n small =
    let e : (msg_len * n) % size_mod ≡ msg_len * n = omega (arith, small) in
    ap (λ m. copy_blocks n 0 (zeros m)) e ∙ copy_blocks-zeros n 0 ∙ ap blocks (omega arith)

blocks_match-blocks : (n : ℕ) → blocks_match n (blocks n) ≡ true
unfolding blocks_match take equals
blocks_match-blocks zero = refl
blocks_match-blocks (suc n) = blocks_match-blocks n

equals-same : (xs : Bytes) → equals xs xs ≡ true
unfolding equals
equals-same [] = refl
equals-same (x ∷ xs) = rw (==-same x, equals-same xs) refl

equals_sound : (xs ys : Bytes) → equals xs ys ≡ true → xs ≡ ys
unfolding equals
equals_sound [] [] e = refl
equals_sound [] (y ∷ ys) e = cc
equals_sound (x ∷ xs) [] e = cc
equals_sound (x ∷ xs) (y ∷ ys) e =
    let (same, later) = both (x == y) (equals xs ys) e in
    ap (λ c. c ∷ xs) ((==_iff x y).0 same) ∙ ap (λ cs. y ∷ cs) (equals_sound xs ys later)

take-drop : (n : ℕ) (xs : Bytes) → take n xs ++ drop n xs ≡ xs
unfolding take
take-drop zero xs = refl
take-drop (suc n) [] = refl
take-drop (suc n) (x ∷ xs) = ap (λ ys. x ∷ ys) (take-drop n xs)

only_empty : (xs : Bytes) → length xs ≡ 0 → xs ≡ []
only_empty [] e = refl
only_empty (x ∷ xs) e = absurd (omega (arith, e))

blocks_match_sound :
    (n : ℕ) (content : Bytes)
    → length content ≡ msg_len * n
    → blocks_match n content ≡ true
    → content ≡ blocks n
unfolding blocks_match
blocks_match_sound zero content size e = only_empty content (omega (arith, size))
blocks_match_sound (suc n) content size e =
    let (block, later) =
      both_if (equals (take msg_len content) msg_blk) (blocks_match n (drop msg_len content)) e in
    sym (take-drop msg_len content)
    ∙ ap (λ bs. bs ++ drop msg_len content) (equals_sound (take msg_len content) msg_blk block)
    ∙ ap (λ bs. msg_blk ++ bs)
        (blocks_match_sound n (drop msg_len content)
          (omega (arith, size, length-drop msg_len content)) later)

-- Where the size of the message of a count does not wrap around, check_message accepts, when it
-- expects that count, exactly the content that send_message makes of it.
pub is_expected-message :
    (n : ℕ) (content : Bytes)
    → msg_len * n < size_mod
    → (is_expected n (some content) (length content) ≡ true) ↔ (content ≡ message n)
unfolding is_expected
is_expected-message n content small =
    let e : (msg_len * n) % size_mod ≡ msg_len * n = omega (arith, small) in
    (
      λ accepted.
          let (size, match) =
            both_if ((msg_len * n) % size_mod == length content) (blocks_match n content)
              accepted in
          blocks_match_sound n content
            (sym ((==_iff ((msg_len * n) % size_mod) (length content)).0 size) ∙ e) match
          ∙ sym (message-blocks n small),
      λ same.
          rw
            (
              same,
              message-blocks n small,
              length-blocks n,
              e,
              blocks_match-blocks n,
              ==-same (msg_len * n),
            )
            refl,
    )
