-- ===== src/Net/Icmp.antt =====
-- src/net/icmp.rs: echo requests are answered.
pub mod Echo
use ralph_os.Base.{
  ℕ, ◌+◌, Bool, true, false, not, Option, none, some, List, [], ◌∷◌, ◌++◌, ltb, ◌==◌, if◌then◌else◌,
  length, drop,
}
use ralph_os.Net.Bytes.{Ip, be16, put16, byte_at}
use ralph_os.Net.Checksum.{internet_checksum, verify_checksum}
use ralph_os.Net.Ethernet.{Link}
use ralph_os.Net.Ipv4.{Ipv4Header, proto_icmp, send_packet}

abbrev pub header_size : ℕ
header_size = 8

abbrev pub type_echo_reply : ℕ
type_echo_reply = 0

abbrev pub type_echo_request : ℕ
type_echo_request = 8

pub record IcmpHeader : Type 0 where
  pub icmp_type : ℕ
  pub code : ℕ
  pub checksum : ℕ
  pub identifier : ℕ
  pub sequence : ℕ

unfoldable pub parse : List ℕ → Option IcmpHeader
parse d =
    if ltb (length d) header_size
    then none
    else some (record {
      icmp_type = byte_at d 0;
      code = byte_at d 1;
      checksum = be16 (byte_at d 2) (byte_at d 3);
      identifier = be16 (byte_at d 4) (byte_at d 5);
      sequence = be16 (byte_at d 6) (byte_at d 7);
    })

unfoldable pub payload : List ℕ → List ℕ
payload d = if ltb header_size (length d) then drop header_size d else []

-- A message of a type, with its checksum.
abbrev pub message : (icmp_type identifier sequence : ℕ) → List ℕ → List ℕ
message icmp_type identifier sequence d =
    let after = put16 identifier (put16 sequence d) in
    let before = icmp_type ∷ 0 ∷ [] in
    before ++ put16 (internet_checksum (before ++ put16 0 after)) after

-- In a buffer of 1500 bytes; `none` is the length 0.
unfoldable pub build_echo_reply : (identifier sequence : ℕ) → List ℕ → Option (List ℕ)
build_echo_reply identifier sequence d =
    if ltb 1500 (header_size + length d)
    then none
    else some (message type_echo_reply identifier sequence d)

unfoldable pub send_echo_reply : Ip → (identifier sequence : ℕ) → List ℕ → Link → Link
unfolding build_echo_reply
send_echo_reply dst identifier sequence d l = elim (build_echo_reply identifier sequence d) [
  | none ↦ l
  | some bytes ↦ (send_packet dst proto_icmp bytes l).1
]

unfoldable pub process_packet : Ipv4Header → List ℕ → Link → Link
unfolding parse send_echo_reply payload
process_packet ip_header d l = elim (parse d) [
  | none ↦ l
  | some h ↦
      if not (verify_checksum d)
      then l
      else if h.icmp_type == type_echo_request
      then send_echo_reply ip_header.src_ip h.identifier h.sequence (payload d) l
      else l
]
