-- ===== src/Net/Checksum/Verify.antt =====
-- A checksum that stands in its message verifies.
use ralph_os.Base.{
  ℕ, ◌+◌, ◌*◌, ◌%◌, ◌^◌, ◌≤◌, ◌<◌, ◌≡◌, refl, ap, ◌∙◌, true, List, [], ◌∷◌, ◌++◌, arith, length,
  All, length-append,
}
use ralph_os.Net.Bytes.{Ip, ip, IsIp, be16, put16}
use ralph_os.Net.Checksum.{
  accumulate_from, checksum_accumulate, fold_checksum, internet_checksum, verify_checksum,
  pseudo_sum, tcp_udp_checksum,
}
use ralph_os.Net.Checksum.Fold.{fold-residue, residue}

-- The sum of the words, without wrapping.
unfoldable pub words : List ℕ → ℕ
words [] = 0
words (a ∷ []) = a * 256
words (a ∷ b ∷ rest) = be16 a b + words rest

-- An even number of bytes.
abbrev pub IsEven : List ℕ → Type 0
IsEven [] = Unit {0}
IsEven (a ∷ []) = ⊥
IsEven (a ∷ b ∷ rest) = IsEven rest

abbrev pub AreBytes : List ℕ → Type 0
AreBytes l = All (λ b. b < 256) l

accumulate_from-words :
    (s : ℕ) (l : List ℕ) → s < 2 ^ 32 → accumulate_from s l ≡ (s + words l) % 2 ^ 32
unfolding accumulate_from words
accumulate_from-words s [] h = omega arith
accumulate_from-words s (a ∷ []) h = refl
accumulate_from-words s (a ∷ b ∷ rest) h =
    omega (arith, accumulate_from-words ((s + be16 a b) % 2 ^ 32) rest (omega arith))

pub words-append : (pre post : List ℕ) → IsEven pre → words (pre ++ post) ≡ words pre + words post
unfolding words
words-append [] post h = omega arith
words-append (a ∷ []) post h = absurd h
words-append (a ∷ b ∷ rest) post h = omega (arith, words-append rest post h)

-- A word is below 2 ^ 16, so a message of at most 131,000 bytes cannot wrap the `u32`.
pub words-bound : (l : List ℕ) → AreBytes l → 2 * words l ≤ 65535 * (length l + 1)
unfolding words
words-bound [] h = omega arith
words-bound (a ∷ []) h = omega (arith, h.0)
words-bound (a ∷ b ∷ rest) h = omega (arith, h.0, h.1.0, words-bound rest h.1.1)

pub checksum_accumulate-words : (l : List ℕ) → checksum_accumulate l ≡ words l % 2 ^ 32
unfolding checksum_accumulate
checksum_accumulate-words l = omega (arith, accumulate_from-words 0 l (omega arith))

pub fold_checksum-lt : (s : ℕ) → fold_checksum s < 2 ^ 16
unfolding fold_checksum
fold_checksum-lt s = omega arith

fold_checksum-residue :
    (s : ℕ) → s < 2 ^ 32 → (fold_checksum s + residue s ≡ 65535) × (residue s < 2 ^ 16)
unfolding fold_checksum
fold_checksum-residue s h = (ground (arith, fold-residue s h), ground arith)

-- Adding the complement of a folded sum makes a sum that folds to zero.
pub fold_checksum-complement :
    (s : ℕ) → s + 2 ^ 16 ≤ 2 ^ 32 → fold_checksum (s + fold_checksum s) ≡ 0
fold_checksum-complement s h = ground (
  arith,
  fold_checksum-residue s (omega arith),
  fold_checksum-residue (s + fold_checksum s) (omega (arith, fold_checksum-lt s)),
)

words-put16 : (c : ℕ) (post : List ℕ) → c < 2 ^ 16 → words (put16 c post) ≡ c + words post
unfolding words
words-put16 c post h = omega arith

-- A message is `pre`, the checksum field, `post`; `pre` has an even number of bytes.
module _ (pre post : List ℕ) (even : IsEven pre) (bytes : AreBytes (pre ++ post)) where
  field_bound : 2 * (words pre + words post) ≤ 65535 * (length pre + length post + 1)
  field_bound =
      omega
        (arith, words-bound (pre ++ post) bytes, words-append pre post even, length-append pre post)

  field_sum : (c : ℕ) → c < 2 ^ 16 → words (pre ++ put16 c post) ≡ words pre + words post + c
  field_sum c h = omega (arith, words-append pre (put16 c post) even, words-put16 c post h)

  -- The sums over the message with the field empty and with it filled, on top of a sum `b`.
  empty_total :
      (b : ℕ)
      → b + (words pre + words post) < 2 ^ 32
      → (b + checksum_accumulate (pre ++ put16 0 post)) % 2 ^ 32 ≡ b + (words pre + words post)
  empty_total b small =
      omega (arith, checksum_accumulate-words (pre ++ put16 0 post), field_sum 0 (omega arith))

  full_total :
      (b c : ℕ)
      → b + (words pre + words post) + 2 ^ 16 ≤ 2 ^ 32
      → c < 2 ^ 16
      → (b + checksum_accumulate (pre ++ put16 c post)) % 2 ^ 32 ≡ b + (words pre + words post) + c
  full_total b c small h =
      omega (arith, checksum_accumulate-words (pre ++ put16 c post), field_sum c h)

  filled :
      (b c : ℕ)
      → b + (words pre + words post) + 2 ^ 16 ≤ 2 ^ 32
      → c ≡ fold_checksum ((b + checksum_accumulate (pre ++ put16 0 post)) % 2 ^ 32)
      → fold_checksum ((b + checksum_accumulate (pre ++ put16 c post)) % 2 ^ 32) ≡ 0
  filled b c small e =
      let s = b + (words pre + words post) in
      let e' : c ≡ fold_checksum s = e ∙ ap fold_checksum (empty_total b (omega arith)) in
      ap fold_checksum
        (full_total b c small (omega (arith, e', fold_checksum-lt s)) ∙ ap (λ t. s + t) e')
      ∙ fold_checksum-complement s small

checksum_accumulate-lt : (l : List ℕ) → checksum_accumulate l ≡ (0 + checksum_accumulate l) % 2 ^ 32
checksum_accumulate-lt l = omega (arith, checksum_accumulate-words l)

-- The checksum of a message of at most 131,002 bytes, all below 256, whose field is zero, put into
-- the field behind an even number of bytes, makes the message verify.
pub verify_checksum-internet_checksum :
    (pre post : List ℕ)
    → IsEven pre
    → AreBytes (pre ++ post)
    → length pre + length post ≤ 131000
    → verify_checksum (pre ++ put16 (internet_checksum (pre ++ put16 0 post)) post) ≡ true
unfolding internet_checksum verify_checksum
verify_checksum-internet_checksum pre post even bytes short =
    let c = fold_checksum (checksum_accumulate (pre ++ put16 0 post)) in
    let zero_sum : fold_checksum (checksum_accumulate (pre ++ put16 c post)) ≡ 0 =
      ap fold_checksum (checksum_accumulate-lt (pre ++ put16 c post))
      ∙ filled pre post even bytes 0 c (omega (arith, field_bound pre post even bytes))
          (ap fold_checksum (checksum_accumulate-lt (pre ++ put16 0 post))) in
    rw zero_sum

pseudo_sum-bound :
    (src dst : Ip) (protocol len : ℕ)
    → IsIp src
    → IsIp dst
    → protocol < 256
    → len < 2 ^ 16
    → pseudo_sum src dst protocol len < 2 ^ 19
unfolding pseudo_sum
pseudo_sum-bound (ip a b c d) (ip e f g h) protocol len i j p l = omega arith

-- The transport checksum, for addresses and a protocol of bytes, of a segment of at most 65,535
-- bytes whose field is zero, put into the field behind an even number of bytes, makes the
-- receiver's sum over the pseudo-header and the segment zero.
pub tcp_udp_checksum_self :
    (src dst : Ip) (protocol : ℕ) (pre post : List ℕ)
    → IsIp src
    → IsIp dst
    → protocol < 256
    → IsEven pre
    → AreBytes (pre ++ post)
    → length pre + length post ≤ 65533
    → tcp_udp_checksum src dst protocol
        (pre ++ put16 (tcp_udp_checksum src dst protocol (pre ++ put16 0 post)) post)
      ≡ 0
unfolding tcp_udp_checksum
tcp_udp_checksum_self src dst protocol pre post i j p even bytes short =
    let n = length (pre ++ put16 0 post) in
    let b = pseudo_sum src dst protocol n in
    let c = fold_checksum ((b + checksum_accumulate (pre ++ put16 0 post)) % 2 ^ 32) in
    let same : length (pre ++ put16 c post) ≡ n =
      omega (arith, length-append pre (put16 c post), length-append pre (put16 0 post)) in
    let small : b < 2 ^ 19 =
      pseudo_sum-bound src dst protocol n i j p (omega (arith, length-append pre (put16 0 post))) in
    ap
      (λ m.
        fold_checksum
          ((pseudo_sum src dst protocol m + checksum_accumulate (pre ++ put16 c post)) % 2 ^ 32))
      same
    ∙ filled pre post even bytes b c (omega (arith, field_bound pre post even bytes)) refl
