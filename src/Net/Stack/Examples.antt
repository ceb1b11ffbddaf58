-- ===== src/Net/Stack/Examples.antt =====
-- A ping from the gateway, and frames that are not for us.
use ralph_os.Base.{◌≡◌, refl, true, none, some, [], ◌∷◌, ◌++◌, arith}
use ralph_os.Net.Bytes.{Ip, ip}
use ralph_os.Net.Arp.{Mac, mac, lookup, next_hop, same_network}
use ralph_os.Net.Ethernet.{Link, frame, ethertype_ipv4, parse, build_frame, is_for_us, is_broadcast}
use ralph_os.Net.Ipv4.{next_id, dispatch, build_header}
use ralph_os.Net.Ipv4
use ralph_os.Net.Ipv4.Roundtrip.{built, process_packet-build_header}
use ralph_os.Net.Icmp.{type_echo_request, type_echo_reply}
use ralph_os.Net.Stack.{process_rx_packet}
use ralph_os.Net.Stack.Ping.{echo_packet, process_rx_packet-request}

abbrev ours : Ip
ours = ip 10 0 2 15

abbrev gateway : Ip
gateway = ip 10 0 2 2

abbrev our_mac : Mac
our_mac = mac 82 84 0 18 52 86

abbrev their_mac : Mac
their_mac = mac 82 85 10 0 2 2

abbrev link : Link
link = record {
  config = record { ip = ours; netmask = ip 255 255 255 0; gateway = gateway };
  our_mac = our_mac;
  now = 100;
  accepts = λ n. true;
  cache = record { ip = gateway; mac = their_mac; timestamp = 50; valid = true } ∷ [];
  id = 7;
  frames = [];
}

known : lookup 100 (next_hop link.config gateway) link.cache ≡ some their_mac
unfolding lookup next_hop same_network
known = refl

process_rx_packet-request_example :
    process_rx_packet
      (frame their_mac our_mac ethertype_ipv4
        (echo_packet gateway ours 9 type_echo_request 1 2 (65 ∷ 66 ∷ [])))
      link
    ≡ (
      record link {
        id = next_id 7;
        frames =
            frame our_mac their_mac ethertype_ipv4
              (echo_packet ours gateway (next_id 7) type_echo_reply 1 2 (65 ∷ 66 ∷ []))
            ∷ [];
      },
      none,
    )
process_rx_packet-request_example =
    process_rx_packet-request link gateway their_mac their_mac 9 1 2 (65 ∷ 66 ∷ []) (omega arith)
      (omega arith) (omega arith) (omega arith) (omega arith) (omega arith, (omega arith, tt))
      (omega arith) known

process_packet-build_header_example :
    Ipv4.process_packet link.config
      (build_header gateway 9 6 ours 2 ++ ((65 ∷ 66 ∷ []) ++ (0 ∷ 0 ∷ [])))
    ≡ dispatch (built gateway 9 6 ours 2) (65 ∷ 66 ∷ [])
process_packet-build_header_example =
    process_packet-build_header link.config gateway 9 6 (65 ∷ 66 ∷ []) (0 ∷ 0 ∷ []) (omega arith)
      (omega arith) (omega arith) (omega arith) (omega arith) (omega arith)

-- A frame for another host changes nothing.
other_host_test :
    process_rx_packet (frame our_mac their_mac ethertype_ipv4 (65 ∷ [])) link ≡ (link, none)
unfolding process_rx_packet parse is_for_us is_broadcast frame build_frame
other_host_test = refl
