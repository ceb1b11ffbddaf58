-- ===== src/Net/Checksum.antt =====
-- src/net/checksum.rs: the Internet checksum.
pub mod Fold
pub mod Verify
mod Examples
use ralph_os.Base.{
  ℕ, zero, suc, ◌+◌, ◌-◌, ◌*◌, ◌/◌, ◌%◌, ◌^◌, Bool, true, false, List, [], ◌∷◌, ltb, ◌==◌,
  if◌then◌else◌, length,
}
use ralph_os.Net.Bytes.{Ip, ip, be16}

-- The loop over the 16-bit words, with the odd byte behind it. The sum is a `u32`.
unfoldable pub accumulate_from : ℕ → List ℕ → ℕ
accumulate_from sum [] = sum
accumulate_from sum (a ∷ []) = (sum + a * 256) % 2 ^ 32
accumulate_from sum (a ∷ b ∷ rest) = accumulate_from ((sum + be16 a b) % 2 ^ 32) rest

unfoldable pub checksum_accumulate : List ℕ → ℕ
unfolding accumulate_from
checksum_accumulate bytes = accumulate_from 0 bytes

-- `while sum >> 16 != 0 { sum = (sum & 0xFFFF) + (sum >> 16) }`
unfoldable pub fold_loop : ℕ → ℕ → ℕ
fold_loop zero sum = sum
fold_loop (suc fuel) sum =
    let again = fold_loop fuel (sum % 2 ^ 16 + sum / 2 ^ 16) in
    if sum / 2 ^ 16 == 0 then sum else again

-- A `u32` is folded in two rounds.
unfoldable pub fold : ℕ → ℕ
unfolding fold_loop
fold sum = fold_loop 2 sum

-- `!(sum as u16)`
abbrev pub complement16 : ℕ → ℕ
complement16 sum = 2 ^ 16 - 1 - sum % 2 ^ 16

unfoldable pub fold_checksum : ℕ → ℕ
fold_checksum sum = complement16 (fold sum)

-- The body of `internet_checksum` repeats those of the two functions that it calls here.
unfoldable pub internet_checksum : List ℕ → ℕ
internet_checksum bytes = fold_checksum (checksum_accumulate bytes)

unfoldable pub verify_checksum : List ℕ → Bool
verify_checksum bytes = fold_checksum (checksum_accumulate bytes) == 0

unfoldable pub checksum_add_u16 : ℕ → ℕ → ℕ
checksum_add_u16 sum value = (sum + value) % 2 ^ 32

unfoldable pub checksum_add_u32 : ℕ → ℕ → ℕ
checksum_add_u32 sum value = ((sum + value / 2 ^ 16 % 2 ^ 16) % 2 ^ 32 + value % 2 ^ 16) % 2 ^ 32

-- The words of the pseudo-header.
unfoldable pub pseudo_sum : Ip → Ip → ℕ → ℕ → ℕ
pseudo_sum (ip a b c d) (ip e f g h) protocol len =
    (be16 a b + be16 c d + be16 e f + be16 g h + protocol + len % 2 ^ 32) % 2 ^ 32

unfoldable pub tcp_udp_checksum : Ip → Ip → ℕ → List ℕ → ℕ
tcp_udp_checksum src_ip dst_ip protocol bytes =
    fold_checksum
      ((pseudo_sum src_ip dst_ip protocol (length bytes) + checksum_accumulate bytes) % 2 ^ 32)
