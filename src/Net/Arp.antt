-- ===== src/Net/Arp.antt =====
-- src/net/arp.rs: the ARP packet, the cache and the resolver. The cache is the list of its slots;
-- `now` is `timer::ticks()`, the configuration that of net/mod.rs, `our_mac` the card's address.
pub mod Cache
pub mod Roundtrip
mod Examples
use ralph_os.Base.{
  ℕ, ◌+◌, ◌-◌, ◌*◌, ◌^◌, bit_and, Bool, true, false, not, ◌&&◌, ◌||◌, Option, none, some, List, [],
  ◌∷◌, map, ltb, leb, ◌==◌, if◌then◌else◌, length, set, drop,
}
use ralph_os.Net.Bytes.{Ip, ip, ip_eq, be16, put16, byte_at, wrapping_sub64}

-- `[u8; 6]`
pub data Mac : Type 0 where
  mac : ℕ → ℕ → ℕ → ℕ → ℕ → ℕ → Mac

pub record NetConfig : Type 0 where
  pub ip : Ip
  pub netmask : Ip
  pub gateway : Ip

pub record ArpEntry : Type 0 where
  pub ip : Ip
  pub mac : Mac
  pub timestamp : ℕ
  pub valid : Bool

abbrev pub arp_timeout_ticks : ℕ
arp_timeout_ticks = 5 * 60 * 100

-- The parsed packet.
pub record ArpPacket : Type 0 where
  pub htype : ℕ
  pub ptype : ℕ
  pub hlen : ℕ
  pub plen : ℕ
  pub operation : ℕ
  pub sha : Mac
  pub spa : Ip
  pub tha : Mac
  pub tpa : Ip

abbrev pub arp_request : ℕ
arp_request = 1

abbrev pub arp_reply : ℕ
arp_reply = 2

-- The address that starts at byte `i`.
abbrev pub ip_at : List ℕ → ℕ → Ip
ip_at d i = ip (byte_at d i) (byte_at d (i + 1)) (byte_at d (i + 2)) (byte_at d (i + 3))

abbrev pub mac_at : List ℕ → ℕ → Mac
mac_at d i =
    mac (byte_at d i) (byte_at d (i + 1)) (byte_at d (i + 2)) (byte_at d (i + 3))
      (byte_at d (i + 4)) (byte_at d (i + 5))

unfoldable pub fields : List ℕ → ArpPacket
fields d = record {
  htype = be16 (byte_at d 0) (byte_at d 1);
  ptype = be16 (byte_at d 2) (byte_at d 3);
  hlen = byte_at d 4;
  plen = byte_at d 5;
  operation = be16 (byte_at d 6) (byte_at d 7);
  sha = mac_at d 8;
  spa = ip_at d 14;
  tha = mac_at d 18;
  tpa = ip_at d 24;
}

unfoldable pub parse : List ℕ → Option ArpPacket
unfolding fields
parse d =
    let p = fields d in
    if ltb (length d) 28
    then none
    else if not (p.htype == 1) || not (p.ptype == 0x0800)
    then none
    else if not (p.hlen == 6) || not (p.plen == 4)
    then none
    else some p

abbrev pub put_ip : Ip → List ℕ → List ℕ
put_ip (ip a b c d) l = a ∷ b ∷ c ∷ d ∷ l

abbrev pub put_mac : Mac → List ℕ → List ℕ
put_mac (mac a b c d e f) l = a ∷ b ∷ c ∷ d ∷ e ∷ f ∷ l

-- The 28 bytes that `build_packet` writes; its callers give it a buffer of 28 bytes.
unfoldable pub build_packet : (our_mac : Mac) (our_ip : Ip) (operation : ℕ) → Mac → Ip → List ℕ
build_packet our_mac our_ip operation target_mac target_ip = put16 1 (
    put16 0x0800 (
      6
      ∷ 4
      ∷ put16 operation
          (put_mac our_mac (put_ip our_ip (put_mac target_mac (put_ip target_ip []))))))

-- The first loop of `update_cache`: `some` is its early return.
unfoldable pub refresh : (now : ℕ) → Ip → Mac → List ArpEntry → Option (List ArpEntry)
refresh now i m [] = none
refresh now i m (e ∷ es) =
    let rest = refresh now i m es in
    if e.valid && ip_eq e.ip i
    then some (record e { mac = m; timestamp = now } ∷ es)
    else elim rest [ none ↦ none | some l ↦ some (e ∷ l) ]

-- The second loop: the slot `k` is next, and the oldest entry so far is at `idx`.
unfoldable pub victim : (k idx time : ℕ) → List ArpEntry → ℕ
victim k idx time [] = idx
victim k idx time (e ∷ es) =
    let older = victim (k + 1) k e.timestamp es in
    let younger = victim (k + 1) idx time es in
    if not e.valid then k else if ltb e.timestamp time then older else younger

unfoldable pub update_cache : (now : ℕ) → Ip → Mac → List ArpEntry → List ArpEntry
update_cache now i m c = elim (refresh now i m c) [
  | some refreshed ↦ refreshed
  | none ↦
      set c (victim 0 0 (2 ^ 64 - 1) c) (record { ip = i; mac = m; timestamp = now; valid = true })
]

unfoldable pub lookup : (now : ℕ) → Ip → List ArpEntry → Option Mac
lookup now i [] = none
lookup now i (e ∷ es) =
    let rest = lookup now i es in
    if e.valid && ip_eq e.ip i
    then if ltb (wrapping_sub64 now e.timestamp) arp_timeout_ticks then some e.mac else rest
    else rest

unfoldable pub expire : (now : ℕ) → ArpEntry → ArpEntry
expire now e =
    if e.valid && leb arp_timeout_ticks (wrapping_sub64 now e.timestamp)
    then record e { valid = false }
    else e

unfoldable pub expire_old_entries : (now : ℕ) → List ArpEntry → List ArpEntry
unfolding expire
expire_old_entries now [] = []
expire_old_entries now (e ∷ es) = expire now e ∷ expire_old_entries now es

-- A frame given to `ethernet::send_frame` with the ARP ethertype.
pub record ArpFrame : Type 0 where
  pub dst : Mac
  pub payload : List ℕ

abbrev pub broadcast_mac : Mac
broadcast_mac = mac 0xFF 0xFF 0xFF 0xFF 0xFF 0xFF

unfoldable pub send_reply : NetConfig → Mac → Mac → Ip → List ArpFrame
unfolding build_packet
send_reply cfg our_mac dst_mac dst_ip =
    record { dst = dst_mac; payload = build_packet our_mac cfg.ip arp_reply dst_mac dst_ip } ∷ []

unfoldable pub send_request : NetConfig → Mac → Ip → List ArpFrame
unfolding build_packet
send_request cfg our_mac target =
    record {
      dst = broadcast_mac;
      payload = build_packet our_mac cfg.ip arp_request (mac 0 0 0 0 0 0) target;
    }
    ∷ []

-- The cache and the frames sent after a packet.
unfoldable pub process_packet :
    NetConfig → Mac → (now : ℕ) → List ℕ → List ArpEntry → List ArpEntry × List ArpFrame
unfolding parse update_cache send_reply
process_packet cfg our_mac now d c = elim (parse d) [
  | none ↦ (c, [])
  | some p ↦ (
    update_cache now p.spa p.sha c,
    if (p.operation == arp_request) && ip_eq p.tpa cfg.ip
        then send_reply cfg our_mac p.sha p.spa
        else [],
  )
]

unfoldable pub same_network : Ip → Ip → Ip → Bool
same_network (ip m0 m1 m2 m3) (ip a0 a1 a2 a3) (ip b0 b1 b2 b3) =
    ((bit_and a0 m0 == bit_and b0 m0) && (bit_and a1 m1 == bit_and b1 m1))
    && ((bit_and a2 m2 == bit_and b2 m2) && (bit_and a3 m3 == bit_and b3 m3))

-- The address that is looked up for a destination.
unfoldable pub next_hop : NetConfig → Ip → Ip
unfolding same_network
next_hop cfg i = if same_network cfg.netmask i cfg.ip then i else cfg.gateway

unfoldable pub resolve :
    NetConfig → Mac → (now : ℕ) → Ip → List ArpEntry → Option Mac × List ArpFrame
unfolding next_hop lookup send_request
resolve cfg our_mac now i c = elim (lookup now (next_hop cfg i) c) [
  | some m ↦ (some m, [])
  | none ↦ (none, send_request cfg our_mac (next_hop cfg i))
]
