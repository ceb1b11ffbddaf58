-- ===== src/Net/Bytes.antt =====
-- Big-endian fields, IPv4 addresses and the unsigned words that the stack computes with.
use ralph_os.Base.{
  ℕ, ◌+◌, ◌-◌, ◌*◌, ◌/◌, ◌%◌, ◌^◌, ◌<◌, ◌≡◌, ◌↔◌, Bool, true, ◌&&◌, List, ◌∷◌, arith, ◌==◌, min,
  get_or,
}

-- `[u8; 4]`
pub data Ip : Type 0 where
  ip : ℕ → ℕ → ℕ → ℕ → Ip

abbrev pub IsIp : Ip → Type 0
IsIp (ip a b c d) = (a < 256) × (b < 256) × (c < 256) × (d < 256)

abbrev pub ip_eq : Ip → Ip → Bool
ip_eq (ip a b c d) (ip a' b' c' d') = (a == a') && ((b == b') && ((c == c') && (d == d')))

pub ip_eq_iff : (x y : Ip) → (ip_eq x y ≡ true) ↔ (x ≡ y)
ip_eq_iff (ip a b c d) (ip a' b' c' d') = ground arith

-- `u16::from_be_bytes`, `u32::from_be_bytes`
abbrev pub be16 : ℕ → ℕ → ℕ
be16 a b = a * 256 + b

abbrev pub be32 : ℕ → ℕ → ℕ → ℕ → ℕ
be32 a b c d = ((a * 256 + b) * 256 + c) * 256 + d

-- `to_be_bytes`, in front of a list
abbrev pub put16 : ℕ → List ℕ → List ℕ
put16 x l = (x / 256 % 256) ∷ (x % 256) ∷ l

abbrev pub put32 : ℕ → List ℕ → List ℕ
put32 x l = (x / 2 ^ 24 % 256) ∷ (x / 2 ^ 16 % 256) ∷ (x / 256 % 256) ∷ (x % 256) ∷ l

-- The byte at an index; the parsers look at the length first.
abbrev pub byte_at : List ℕ → ℕ → ℕ
byte_at l i = get_or l i 0

-- `u32` arithmetic
abbrev pub wrapping_add32 : ℕ → ℕ → ℕ
wrapping_add32 a b = (a + b) % 2 ^ 32

abbrev pub wrapping_sub32 : ℕ → ℕ → ℕ
wrapping_sub32 a b = (a + 2 ^ 32 - b) % 2 ^ 32

abbrev pub saturating_add32 : ℕ → ℕ → ℕ
saturating_add32 a b = min (a + b) (2 ^ 32 - 1)

-- `u64::wrapping_sub`
abbrev pub wrapping_sub64 : ℕ → ℕ → ℕ
wrapping_sub64 a b = (a + 2 ^ 64 - b) % 2 ^ 64
