-- ===== src/Basic/Utf8/Roundtrip.antt =====
-- What is encoded is decoded.
use ralph_os.Base.{
  ℕ, suc, ◌+◌, ◌-◌, ◌*◌, ◌/◌, ◌%◌, ◌≤◌, ◌<◌, ◌≡◌, ◌⊎◌, inl, inr, refl, ap, ◌∙◌, List, [], ◌∷◌, ◌++◌,
  arith, ltb, ◌==◌, Bool-cases, All,
}
use ralph_os.Basic.Utf8.{
  encode_char, encode, Decoder, start, inside, first_byte, decode_byte, decode_from,
  from_utf8_lossy,
}

-- A `char`: no surrogate, and no code beyond the last.
abbrev pub IsChar : ℕ → Type 0
IsChar c = (c < 0xD800) ⊎ ((0xDFFF < c) × (c < 0x110000))

byte1 : (c : ℕ) → c < 128 → first_byte c ≡ (c ∷ [], start)
unfolding first_byte
byte1 c h = ground arith

-- A byte in the range that is expected.
last_byte :
    (low high code b : ℕ)
    → low ≤ b
    → b ≤ high
    → decode_byte (inside 0 low high code) b ≡ ((code * 64 + (b - 128)) ∷ [], start)
unfolding decode_byte
last_byte low high code b hl hh = ground arith

next_byte :
    (left low high code b : ℕ)
    → low ≤ b
    → b ≤ high
    → decode_byte (inside (suc left) low high code) b
      ≡ ([], inside left 128 191 (code * 64 + (b - 128)))
unfolding decode_byte
next_byte left low high code b hl hh = ground arith

byte2 : (b : ℕ) → 194 ≤ b → b ≤ 223 → first_byte b ≡ ([], inside 0 128 191 (b - 192))
unfolding first_byte
byte2 b h k = ground arith

-- The range of the second byte depends on the first.
abbrev Range : ℕ → ℕ → ℕ → ℕ → Type 0
Range left b code second =
    (low : ℕ) × (high : ℕ) × (first_byte b ≡ ([], inside left low high code))
    × (low ≤ second)
    × (second ≤ high)

byte3 :
    (c : ℕ)
    → 2048 ≤ c
    → c < 65536
    → IsChar c
    → Range 1 (224 + c / 4096) (c / 4096) (128 + c / 64 % 64)
unfolding first_byte
byte3 c lo hi h = elim (Bool-cases (c / 4096 == 0)) [
  | inl e ↦ (160, 191, ground (arith, e), ground (arith, e), omega arith)
  | inr e ↦ elim (Bool-cases (c / 4096 == 13)) [
    | inl d ↦ (128, 159, ground (arith, d), omega arith, ground (arith, d, h))
    | inr d ↦ (128, 191, ground (arith, e, d), omega arith, omega arith)
  ]
]

byte4 :
    (c : ℕ)
    → 65536 ≤ c
    → c < 0x110000
    → Range 2 (240 + c / 262144) (c / 262144) (128 + c / 4096 % 64)
unfolding first_byte
byte4 c lo hi = elim (Bool-cases (c / 262144 == 0)) [
  | inl e ↦ (144, 191, ground (arith, e), ground (arith, e), omega arith)
  | inr e ↦ elim (Bool-cases (c / 262144 == 4)) [
    | inl d ↦ (128, 143, ground (arith, d), omega arith, ground (arith, d))
    | inr d ↦ (128, 191, ground (arith, e, d), omega arith, omega arith)
  ]
]

first_decoded : (b : ℕ) → decode_byte start b ≡ first_byte b
unfolding decode_byte
first_decoded b = refl

-- One byte, and what it makes of the rest.
decode_step :
    (d : Decoder) (b : ℕ) (bs : List ℕ)
    → decode_from d (b ∷ bs) ≡ (decode_byte d b).0 ++ decode_from (decode_byte d b).1 bs
unfolding decode_from
decode_step start b bs = refl
decode_step (inside left low high code) b bs = refl

module _ (c : ℕ) (rest : List ℕ) where
  abbrev Decodes : List ℕ → Type 0
  Decodes bytes = decode_from start (bytes ++ rest) ≡ c ∷ decode_from start rest

  decode1 : c < 128 → Decodes (c ∷ [])
  decode1 h = rw (decode_step start c rest, first_decoded c, byte1 c h) refl

  decode2 : 128 ≤ c → c < 2048 → Decodes ((192 + c / 64) ∷ (128 + c % 64) ∷ [])
  decode2 lo hi =
      rw
        (
          decode_step start (192 + c / 64) ((128 + c % 64) ∷ rest),
          first_decoded (192 + c / 64),
          byte2 (192 + c / 64) (omega arith) (omega arith),
        )
        (rw
          (
            decode_step (inside 0 128 191 (192 + c / 64 - 192)) (128 + c % 64) rest,
            last_byte 128 191 (192 + c / 64 - 192) (128 + c % 64) (omega arith) (omega arith),
          )
          (ap (λ k. k ∷ decode_from start rest) (omega arith)))

  decode3 :
      2048 ≤ c
      → c < 65536
      → IsChar c
      → Decodes ((224 + c / 4096) ∷ (128 + c / 64 % 64) ∷ (128 + c % 64) ∷ [])
  decode3 lo hi h =
      let (low, high, first, above, below) = byte3 c lo hi h in
      let code = c / 4096 * 64 + (128 + c / 64 % 64 - 128) in
      rw
        (
          decode_step start (224 + c / 4096) ((128 + c / 64 % 64) ∷ (128 + c % 64) ∷ rest),
          first_decoded (224 + c / 4096),
          first,
        )
        (rw
          (
            decode_step (inside 1 low high (c / 4096)) (128 + c / 64 % 64) ((128 + c % 64) ∷ rest),
            next_byte 0 low high (c / 4096) (128 + c / 64 % 64) above below,
          )
          (rw
            (
              decode_step (inside 0 128 191 code) (128 + c % 64) rest,
              last_byte 128 191 code (128 + c % 64) (omega arith) (omega arith),
            )
            (ap (λ k. k ∷ decode_from start rest) (omega arith))))

  decode4 :
      65536 ≤ c
      → c < 0x110000
      → Decodes
          ((240 + c / 262144) ∷ (128 + c / 4096 % 64) ∷ (128 + c / 64 % 64) ∷ (128 + c % 64) ∷ [])
  decode4 lo hi =
      let (low, high, first, above, below) = byte4 c lo hi in
      let code = c / 262144 * 64 + (128 + c / 4096 % 64 - 128) in
      let more = code * 64 + (128 + c / 64 % 64 - 128) in
      rw
        (
          decode_step start (240 + c / 262144)
              ((128 + c / 4096 % 64) ∷ (128 + c / 64 % 64) ∷ (128 + c % 64) ∷ rest),
          first_decoded (240 + c / 262144),
          first,
        )
        (rw
          (
            decode_step (inside 2 low high (c / 262144)) (128 + c / 4096 % 64)
                ((128 + c / 64 % 64) ∷ (128 + c % 64) ∷ rest),
            next_byte 1 low high (c / 262144) (128 + c / 4096 % 64) above below,
          )
          (rw
            (
              decode_step (inside 1 128 191 code) (128 + c / 64 % 64) ((128 + c % 64) ∷ rest),
              next_byte 0 128 191 code (128 + c / 64 % 64) (omega arith) (omega arith),
            )
            (rw
              (
                decode_step (inside 0 128 191 more) (128 + c % 64) rest,
                last_byte 128 191 more (128 + c % 64) (omega arith) (omega arith),
              )
              (ap (λ k. k ∷ decode_from start rest) (omega arith)))))

  decode_char : IsChar c → Decodes (encode_char c)
  unfolding encode_char
  decode_char h = elim (Bool-cases (ltb c 0x80)) [
    | inl a ↦ rw a (decode1 (ground (arith, a)))
    | inr a ↦ elim (Bool-cases (ltb c 0x800)) [
      | inl b ↦ rw (a, b) (decode2 (ground (arith, a)) (ground (arith, b)))
      | inr b ↦ elim (Bool-cases (ltb c 0x10000)) [
        | inl d ↦ rw (a, b, d) (decode3 (ground (arith, b)) (ground (arith, d)) h)
        | inr d ↦ rw (a, b, d) (decode4 (ground (arith, d)) (ground (arith, h)))
      ]
    ]
  ]

-- The bytes of any string of characters are decoded to the same string.
pub from_utf8_lossy-encode : (s : List ℕ) → All IsChar s → from_utf8_lossy (encode s) ≡ s
unfolding from_utf8_lossy encode
from_utf8_lossy-encode [] h = unfold decode_from in refl
from_utf8_lossy-encode (c ∷ s) (now, h) =
    decode_char c (encode s) now ∙ ap (λ l. c ∷ l) (from_utf8_lossy-encode s h)
