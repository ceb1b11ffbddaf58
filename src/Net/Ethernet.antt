-- ===== src/Net/Ethernet.antt =====
-- src/net/ethernet.rs: the header of a frame, and sending a frame by the card.
pub mod Roundtrip
use ralph_os.Base.{
  ℕ, ◌+◌, ◌-◌, ◌*◌, Bool, true, false, ◌&&◌, ◌||◌, Option, none, some, List, [], ◌∷◌, ◌++◌, ltb,
  leb, ◌==◌, if◌then◌else◌, length, drop, replicate,
}
use ralph_os.Net.Bytes.{be16, put16, byte_at}
use ralph_os.Net.Arp.{Mac, mac, NetConfig, ArpEntry, mac_at, put_mac, broadcast_mac}

abbrev pub header_size : ℕ
header_size = 14

abbrev pub min_frame_size : ℕ
min_frame_size = 60

abbrev pub max_frame_size : ℕ
max_frame_size = 1514

abbrev pub ethertype_ipv4 : ℕ
ethertype_ipv4 = 0x0800

abbrev pub ethertype_arp : ℕ
ethertype_arp = 0x0806

pub record EthernetHeader : Type 0 where
  pub dst_mac : Mac
  pub src_mac : Mac
  pub ethertype : ℕ

-- What the stack keeps below TCP: the configuration, the card's address, the timer's value, the ARP
-- cache, the counter of IPv4 identifications, and the frames given to the card, the latest first.
-- `accepts n` is what `ne2000::send` answers for the frame that has `n` frames before it.
pub record Link : Type 0 where
  pub config : NetConfig
  pub our_mac : Mac
  pub now : ℕ
  pub accepts : ℕ → Bool
  pub cache : List ArpEntry
  pub id : ℕ
  pub frames : List (List ℕ)

abbrev pub mac_eq : Mac → Mac → Bool
mac_eq (mac a b c d e f) (mac a' b' c' d' e' f') =
    ((a == a') && ((b == b') && (c == c'))) && ((d == d') && ((e == e') && (f == f')))

unfoldable pub parse : List ℕ → Option EthernetHeader
parse d =
    if ltb (length d) header_size
    then none
    else some (record {
      dst_mac = mac_at d 0;
      src_mac = mac_at d 6;
      ethertype = be16 (byte_at d 12) (byte_at d 13);
    })

unfoldable pub payload : List ℕ → List ℕ
payload d = if ltb header_size (length d) then drop header_size d else []

unfoldable pub is_broadcast : EthernetHeader → Bool
is_broadcast h = mac_eq h.dst_mac broadcast_mac

unfoldable pub is_for_us : Mac → EthernetHeader → Bool
unfolding is_broadcast
is_for_us our_mac h = mac_eq h.dst_mac our_mac || is_broadcast h

-- The header in front of what is behind it.
unfoldable pub build_frame : (our_mac dst : Mac) (ethertype : ℕ) → List ℕ → List ℕ
build_frame our_mac dst ethertype l = put_mac dst (put_mac our_mac (put16 ethertype l))

-- The bytes given to the card: short frames are padded with zeros.
unfoldable pub frame : (our_mac dst : Mac) (ethertype : ℕ) → List ℕ → List ℕ
unfolding build_frame
frame our_mac dst ethertype d =
    build_frame our_mac dst ethertype (d ++ replicate (min_frame_size - (header_size + length d)) 0)

unfoldable pub send_frame : (dst : Mac) (ethertype : ℕ) → List ℕ → Link → Bool × Link
unfolding frame
send_frame dst ethertype d l = if ltb max_frame_size (header_size + length d) then (false, l) else (
  l.accepts (length l.frames),
  record l { frames = frame l.our_mac dst ethertype d ∷ l.frames },
)
