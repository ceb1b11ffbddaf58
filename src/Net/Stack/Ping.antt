-- ===== src/Net/Stack/Ping.antt =====
-- From the request's frame to the reply's frame.
use mathlib.Core.List.{append_assoc}
use ralph_os.Base.{
  ℕ, ◌+◌, ◌^◌, ◌<◌, ◌≤◌, ◌≡◌, refl, ap, ◌∙◌, true, false, none, some, List, [], ◌∷◌, ◌++◌, arith,
  ltb, length,
}
use ralph_os.Net.Bytes.{Ip, ip, IsIp}
use ralph_os.Net.Checksum.Verify.{AreBytes}
use ralph_os.Net.Arp.{Mac, mac, lookup, next_hop, resolve}
use ralph_os.Net.Ethernet.{
  Link, mac_eq, is_for_us, frame, send_frame, ethertype_ipv4, max_frame_size,
}
use ralph_os.Net.Ethernet.Roundtrip.{parse-frame, padding}
use ralph_os.Net.Ipv4
use ralph_os.Net.Ipv4.{
  build_header, next_id, proto_icmp, send_packet, send_resolved, dispatch, to_icmp, max_packet_size,
}
use ralph_os.Net.Ipv4.Roundtrip.{built, process_packet-build_header}
use ralph_os.Net.Icmp
use ralph_os.Net.Icmp.{
  message, type_echo_request, type_echo_reply, build_echo_reply, send_echo_reply,
}
use ralph_os.Net.Icmp.Echo.{process_packet-request, process_packet-reply}
use ralph_os.Net.Stack.{process_rx_packet, run_call}

-- An echo message in an IPv4 packet.
abbrev pub echo_packet : (src dst : Ip) (id icmp_type identifier sequence : ℕ) → List ℕ → List ℕ
echo_packet src dst id icmp_type identifier sequence d =
    let body = message icmp_type identifier sequence d in
    build_header src id proto_icmp dst (length body) ++ body

mac_eq_refl : (m : Mac) → mac_eq m m ≡ true
mac_eq_refl (mac a b c d e f) = ground arith

length-message :
    (icmp_type identifier sequence : ℕ) (d : List ℕ)
    → length (message icmp_type identifier sequence d) ≡ 8 + length d
length-message icmp_type identifier sequence d = omega arith

length-build_header :
    (src dst : Ip) (id protocol n : ℕ) (d : List ℕ)
    → length (build_header src id protocol dst n ++ d) ≡ 20 + length d
unfolding build_header
length-build_header (ip a b c e) (ip f g h i) id protocol n d = omega arith

-- The answer goes out when the hardware address of the next hop is known.
send_echo_reply-frame :
    (l : Link) (peer : Ip) (m : Mac) (identifier sequence : ℕ) (d : List ℕ)
    → length d ≤ 1472
    → lookup l.now (next_hop l.config peer) l.cache ≡ some m
    → send_echo_reply peer identifier sequence d l ≡ record l {
      id = next_id l.id;
      frames =
          frame l.our_mac m ethertype_ipv4
            (echo_packet l.config.ip peer (next_id l.id) type_echo_reply identifier sequence d)
          ∷ l.frames;
    }
unfolding send_echo_reply build_echo_reply send_packet send_resolved resolve send_frame
send_echo_reply-frame l peer m identifier sequence d short known =
    let body = message type_echo_reply identifier sequence d in
    let fits : ltb 1500 (8 + length d) ≡ false = ground arith in
    let packet_fits : ltb max_packet_size (20 + length body) ≡ false =
      ground (arith, length-message type_echo_reply identifier sequence d) in
    let frame_fits : ltb max_frame_size (
          14
          + length (build_header l.config.ip (next_id l.id) proto_icmp peer (length body) ++ body))
        ≡ false =
      ground (
        arith,
        length-message type_echo_reply identifier sequence d,
        length-build_header l.config.ip peer (next_id l.id) proto_icmp (length body) body,
      ) in
    let resolved : resolve l.config l.our_mac l.now peer l.cache ≡ (some m, []) =
      rw (resolve, known) refl in
    rw (send_echo_reply, fits, send_packet, resolved, packet_fits, frame_fits) refl

-- A frame for us with an echo message goes to ICMP.
receive_echo :
    (l : Link) (peer : Ip) (their_mac : Mac) (id icmp_type identifier sequence : ℕ) (d : List ℕ)
    → IsIp peer
    → IsIp l.config.ip
    → id < 2 ^ 16
    → length d ≤ 1472
    → process_rx_packet
        (frame their_mac l.our_mac ethertype_ipv4
          (echo_packet peer l.config.ip id icmp_type identifier sequence d))
        l
      ≡ (
        Icmp.process_packet
            (built peer id proto_icmp l.config.ip
              (length (message icmp_type identifier sequence d)))
            (message icmp_type identifier sequence d)
            l,
        none,
      )
unfolding process_rx_packet run_call is_for_us dispatch
receive_echo l peer their_mac id icmp_type identifier sequence d i j small short =
    let body = message icmp_type identifier sequence d in
    let len = length-message icmp_type identifier sequence d in
    let packet = echo_packet peer l.config.ip id icmp_type identifier sequence d in
    let read = parse-frame their_mac l.our_mac ethertype_ipv4 packet (omega arith) in
    let head = build_header peer id proto_icmp l.config.ip (length body) in
    let unpacked =
      ap (Ipv4.process_packet l.config) (append_assoc head body (padding packet))
      ∙ process_packet-build_header l.config peer id proto_icmp body (padding packet) i j small
          (omega arith) (omega (arith, len)) (omega (arith, len)) in
    rw (process_rx_packet, read.0, mac_eq_refl l.our_mac, read.1, unpacked) refl

-- A frame for us with an echo request of at most 1472 bytes of data, in an IPv4 packet from a peer
-- whose next hop has a cached hardware address, all fields in their ranges: one frame goes to that
-- address, an echo reply from our address to the peer with the request's identifier, sequence
-- number and data and with the next IPv4 identification; nothing else changes and TCP is not
-- called.
pub process_rx_packet-request :
    (l : Link) (peer : Ip) (m their_mac : Mac) (id identifier sequence : ℕ) (d : List ℕ)
    → IsIp peer
    → IsIp l.config.ip
    → id < 2 ^ 16
    → identifier < 2 ^ 16
    → sequence < 2 ^ 16
    → AreBytes d
    → length d ≤ 1472
    → lookup l.now (next_hop l.config peer) l.cache ≡ some m
    → process_rx_packet
        (frame their_mac l.our_mac ethertype_ipv4
          (echo_packet peer l.config.ip id type_echo_request identifier sequence d))
        l
      ≡ (
        record l {
          id = next_id l.id;
          frames =
              frame l.our_mac m ethertype_ipv4
                (echo_packet l.config.ip peer (next_id l.id) type_echo_reply identifier sequence d)
              ∷ l.frames;
        },
        none,
      )
process_rx_packet-request l peer m their_mac id identifier sequence d i j small p q bytes short
      known =
    receive_echo l peer their_mac id type_echo_request identifier sequence d i j small short
    ∙ ap (λ k. (k, none))
        (process_packet-request
            (built peer id proto_icmp l.config.ip
              (length (message type_echo_request identifier sequence d)))
            identifier sequence d l p q bytes short
          ∙ send_echo_reply-frame l peer m identifier sequence d short known)

pub process_rx_packet-reply :
    (l : Link) (peer : Ip) (their_mac : Mac) (id identifier sequence : ℕ) (d : List ℕ)
    → IsIp peer
    → IsIp l.config.ip
    → id < 2 ^ 16
    → identifier < 2 ^ 16
    → sequence < 2 ^ 16
    → AreBytes d
    → length d ≤ 1472
    → process_rx_packet
        (frame their_mac l.our_mac ethertype_ipv4
          (echo_packet peer l.config.ip id type_echo_reply identifier sequence d))
        l
      ≡ (l, none)
process_rx_packet-reply l peer their_mac id identifier sequence d i j small p q bytes short =
    receive_echo l peer their_mac id type_echo_reply identifier sequence d i j small short
    ∙ ap (λ k. (k, none))
        (process_packet-reply
          (built peer id proto_icmp l.config.ip
            (length (message type_echo_reply identifier sequence d)))
          identifier sequence d l p q bytes short)
