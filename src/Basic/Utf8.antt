-- ===== src/Basic/Utf8.antt =====
-- UTF-8 as the standard library has it: a `String` is the list of its characters' codes, and these
-- are its bytes, and `from_utf8_lossy`.
pub mod Roundtrip
use ralph_os.Base.{
  ℕ, zero, suc, ◌+◌, ◌-◌, ◌*◌, ◌/◌, ◌%◌, Bool, true, false, ◌&&◌, List, [], ◌∷◌, ◌++◌, ltb, leb,
  ◌==◌, if◌then◌else◌, length,
}

unfoldable pub encode_char : ℕ → List ℕ
encode_char c =
    if ltb c 0x80
    then c ∷ []
    else if ltb c 0x800
    then (192 + c / 64) ∷ (128 + c % 64) ∷ []
    else if ltb c 0x10000
    then (224 + c / 4096) ∷ (128 + c / 64 % 64) ∷ (128 + c % 64) ∷ []
    else (240 + c / 262144) ∷ (128 + c / 4096 % 64) ∷ (128 + c / 64 % 64) ∷ (128 + c % 64) ∷ []

-- `as_bytes`
unfoldable pub encode : List ℕ → List ℕ
unfolding encode_char
encode [] = []
encode (c ∷ cs) = encode_char c ++ encode cs

-- In front of a character, or with `left` + 1 bytes of one to come: the next from `low` to `high`,
-- `code` what was read.
pub data Decoder : Type 0 where
  start : Decoder
  inside : (left low high code : ℕ) → Decoder

-- What a first byte does: the characters that it completes, and what is to come.
unfoldable pub first_byte : ℕ → List ℕ × Decoder
first_byte b =
    if ltb b 128
    then (b ∷ [], start)
    else if leb 194 b && leb b 223
    then ([], inside 0 128 191 (b - 192))
    else if b == 224
    then ([], inside 1 160 191 0)
    else if b == 237
    then ([], inside 1 128 159 13)
    else if leb 225 b && leb b 239
    then ([], inside 1 128 191 (b - 224))
    else if b == 240
    then ([], inside 2 144 191 0)
    else if leb 241 b && leb b 243
    then ([], inside 2 128 191 (b - 240))
    else if b == 244
    then ([], inside 2 128 143 4)
    else (0xFFFD ∷ [], start)

abbrev pub continued : ℕ → ℕ → List ℕ × Decoder
continued zero code = (code ∷ [], start)
continued (suc left) code = ([], inside left 128 191 code)

unfoldable pub decode_byte : Decoder → ℕ → List ℕ × Decoder
unfolding first_byte
decode_byte start b = first_byte b
decode_byte (inside left low high code) b =
    let (cs, d) = first_byte b in
    if leb low b && leb b high then continued left (code * 64 + (b - 128)) else (0xFFFD ∷ cs, d)

unfoldable pub decode_from : Decoder → List ℕ → List ℕ
unfolding decode_byte
decode_from start [] = []
decode_from (inside left low high code) [] = 0xFFFD ∷ []
decode_from d (b ∷ bs) = let (cs, d') = decode_byte d b in cs ++ decode_from d' bs

-- `String::from_utf8_lossy`
unfoldable pub from_utf8_lossy : List ℕ → List ℕ
unfolding decode_from
from_utf8_lossy bs = decode_from start bs
