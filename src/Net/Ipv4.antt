-- ===== src/Net/Ipv4.antt =====
-- src/net/ipv4.rs: the header, the checks on a received packet, and sending through ARP and Ethernet.
pub mod Roundtrip
use ralph_os.Base.{
  ℕ, ◌+◌, ◌-◌, ◌*◌, ◌/◌, ◌%◌, ◌^◌, Bool, true, false, not, ◌&&◌, ◌||◌, Option, none, some, List, [],
  ◌∷◌, ◌++◌, ltb, leb, ◌==◌, if◌then◌else◌, length, take, drop,
}
use ralph_os.Net.Bytes.{Ip, ip, ip_eq, be16, put16, byte_at}
use ralph_os.Net.Checksum
use ralph_os.Net.Checksum.{internet_checksum}
use ralph_os.Net.Arp.{Mac, NetConfig, ArpFrame, ip_at, put_ip, resolve}
use ralph_os.Net.Ethernet.{Link, send_frame, ethertype_ipv4, ethertype_arp}

abbrev pub header_size : ℕ
header_size = 20

abbrev pub max_packet_size : ℕ
max_packet_size = 1500

abbrev pub proto_icmp : ℕ
proto_icmp = 1

abbrev pub proto_tcp : ℕ
proto_tcp = 6

pub record Ipv4Header : Type 0 where
  pub version : ℕ
  pub ihl : ℕ
  pub tos : ℕ
  pub total_length : ℕ
  pub identification : ℕ
  pub flags_fragment : ℕ
  pub ttl : ℕ
  pub protocol : ℕ
  pub checksum : ℕ
  pub src_ip : Ip
  pub dst_ip : Ip

unfoldable pub fields : List ℕ → Ipv4Header
fields d = record {
  version = byte_at d 0 / 16 % 16;
  ihl = byte_at d 0 % 16;
  tos = byte_at d 1;
  total_length = be16 (byte_at d 2) (byte_at d 3);
  identification = be16 (byte_at d 4) (byte_at d 5);
  flags_fragment = be16 (byte_at d 6) (byte_at d 7);
  ttl = byte_at d 8;
  protocol = byte_at d 9;
  checksum = be16 (byte_at d 10) (byte_at d 11);
  src_ip = ip_at d 12;
  dst_ip = ip_at d 16;
}

abbrev pub header_length : Ipv4Header → ℕ
header_length h = h.ihl * 4

unfoldable pub parse : List ℕ → Option Ipv4Header
unfolding fields
parse d =
    let h = fields d in
    if ltb (length d) header_size
    then none
    else if not (h.version == 4)
    then none
    else if ltb h.ihl 5
    then none
    else if ltb (length d) (header_length h)
    then none
    else some h

-- The bytes of the packet behind its header, without padding.
unfoldable pub payload : Ipv4Header → List ℕ → List ℕ
payload h d =
    if leb h.total_length (length d) && ltb (header_length h) h.total_length
    then drop (header_length h) (take h.total_length d)
    else if ltb (header_length h) (length d)
    then drop (header_length h) d
    else []

unfoldable pub is_for_us : NetConfig → Ipv4Header → Bool
is_for_us cfg h = ip_eq h.dst_ip cfg.ip

unfoldable pub verify_checksum : Ipv4Header → List ℕ → Bool
verify_checksum h d =
    if ltb (length d) (header_length h)
    then false
    else Checksum.verify_checksum (take (header_length h) d)

-- Bit 13, or an offset in the bits below it.
unfoldable pub is_fragmented : Ipv4Header → Bool
is_fragmented h = not (h.flags_fragment / 2 ^ 13 % 2 == 0) || not (h.flags_fragment % 2 ^ 13 == 0)

-- The bytes before the checksum, and those behind it.
abbrev pub head_bytes : (id protocol payload_len : ℕ) → List ℕ
head_bytes id protocol payload_len =
    0x45
    ∷ 0
    ∷ put16 ((header_size + payload_len) % 2 ^ 16) (put16 id (put16 0x4000 (64 ∷ protocol ∷ [])))

abbrev pub address_bytes : (our_ip dst : Ip) → List ℕ
address_bytes our_ip dst = put_ip our_ip (put_ip dst [])

-- The 20 bytes of `build_header`, for an identification.
unfoldable pub build_header : (our_ip : Ip) (id protocol : ℕ) (dst : Ip) (payload_len : ℕ) → List ℕ
build_header our_ip id protocol dst payload_len =
    let before = head_bytes id protocol payload_len in
    let after = address_bytes our_ip dst in
    before ++ put16 (internet_checksum (before ++ put16 0 after)) after

-- `identification`: the counter, after it was raised.
unfoldable pub next_id : ℕ → ℕ
next_id id = (id + 1) % 2 ^ 16

-- The frames of the resolver go to the card as well.
unfoldable pub send_requests : List ArpFrame → Link → Link
unfolding send_frame
send_requests [] l = l
send_requests (f ∷ fs) l = send_requests fs (send_frame f.dst ethertype_arp f.payload l).1

-- From the resolved address on.
unfoldable pub send_resolved :
    Ip → (protocol : ℕ) → List ℕ → Option Mac × List ArpFrame → Link → Bool × Link
unfolding build_header next_id send_requests
send_resolved dst protocol d (none, requests) l = (false, send_requests requests l)
send_resolved dst protocol d (some m, requests) l =
    let l' = record l { id = next_id l.id } in
    if ltb max_packet_size (header_size + length d)
    then (false, l')
    else send_frame m ethertype_ipv4
        (build_header l.config.ip (next_id l.id) protocol dst (length d) ++ d) l'

unfoldable pub send_packet : Ip → (protocol : ℕ) → List ℕ → Link → Bool × Link
unfolding send_resolved
send_packet dst protocol d l =
    send_resolved dst protocol d (resolve l.config l.our_mac l.now dst l.cache) l

-- The handler that `process_packet` calls, and with what.
pub data Call : Type 0 where
  dropped : Call
  to_icmp : Ipv4Header → List ℕ → Call
  to_tcp : Ipv4Header → List ℕ → Call

unfoldable pub dispatch : Ipv4Header → List ℕ → Call
dispatch h body =
    if h.protocol == proto_icmp
    then to_icmp h body
    else if h.protocol == proto_tcp
    then to_tcp h body
    else dropped

unfoldable pub process_packet : NetConfig → List ℕ → Call
unfolding parse is_for_us verify_checksum is_fragmented payload dispatch
process_packet cfg d = elim (parse d) [
  | none ↦ dropped
  | some h ↦
      if not (is_for_us cfg h)
      then dropped
      else if not (verify_checksum h d)
      then dropped
      else if is_fragmented h
      then dropped
      else dispatch h (payload h d)
]
