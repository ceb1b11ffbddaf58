-- ===== src/Net/Checksum/Examples.antt =====
-- The checksum of concrete messages.
use ralph_os.Base.{ℕ, ◌≡◌, List, [], ◌∷◌, ◌++◌, true, arith}
use ralph_os.Net.Bytes.{Ip, ip, put16}
use ralph_os.Net.Checksum.{internet_checksum, verify_checksum, tcp_udp_checksum}
use ralph_os.Net.Checksum.Verify.{
  AreBytes, verify_checksum-internet_checksum, tcp_udp_checksum_self,
}

-- The header of `test_simple_checksum`, cut at its checksum field.
abbrev before : List ℕ
before = 0x45 ∷ 0x00 ∷ 0x00 ∷ 0x3c ∷ 0x1c ∷ 0x46 ∷ 0x40 ∷ 0x00 ∷ 0x40 ∷ 0x06 ∷ []

abbrev after : List ℕ
after = 0xac ∷ 0x10 ∷ 0x0a ∷ 0x63 ∷ 0xac ∷ 0x10 ∷ 0x0a ∷ 0x0c ∷ []

bytes : AreBytes (before ++ after)
bytes = omega arith

verify_checksum-internet_checksum_example :
    verify_checksum (before ++ put16 (internet_checksum (before ++ put16 0 after)) after) ≡ true
verify_checksum-internet_checksum_example =
    verify_checksum-internet_checksum before after tt bytes (omega arith)

abbrev host : Ip
host = ip 10 0 2 15

abbrev peer : Ip
peer = ip 10 0 2 2

tcp_udp_checksum_self_example :
    tcp_udp_checksum host peer 6
      (before ++ put16 (tcp_udp_checksum host peer 6 (before ++ put16 0 after)) after)
    ≡ 0
tcp_udp_checksum_self_example =
    tcp_udp_checksum_self host peer 6 before after (omega arith) (omega arith) (omega arith) tt
      bytes (omega arith)
