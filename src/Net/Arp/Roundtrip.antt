-- ===== src/Net/Arp/Roundtrip.antt =====
-- A built packet is read back, and answers go where the question came from.
use ralph_os.Base.{ℕ, ◌+◌, ◌*◌, ◌/◌, ◌%◌, ◌^◌, ◌<◌, ◌≡◌, ap, refl, some, List, [], ◌∷◌, arith}
use ralph_os.Net.Bytes.{Ip, ip, ip_eq_iff}
use ralph_os.Net.Arp.{
  Mac, mac, NetConfig, ArpEntry, fields, parse, build_packet, process_packet, update_cache,
  send_reply, arp_request, arp_reply,
}

-- parse reads every packet that build_packet writes for a 16-bit operation, with the fields that
-- were put in.
pub parse-build_packet :
    (our_mac target_mac : Mac) (our_ip target_ip : Ip) (operation : ℕ)
    → operation < 2 ^ 16
    → parse (build_packet our_mac our_ip operation target_mac target_ip)
      ≡ some (record {
        htype = 1;
        ptype = 0x0800;
        hlen = 6;
        plen = 4;
        operation = operation;
        sha = our_mac;
        spa = our_ip;
        tha = target_mac;
        tpa = target_ip;
      })
unfolding parse fields build_packet
parse-build_packet (mac a b c d e f) (mac g h i j k l) (ip m n o p) (ip q r s t) operation small =
    let whole : operation / 256 % 256 * 256 + operation % 256 ≡ operation = omega arith in
    ap
      (λ v. some (record {
        htype = 1;
        ptype = 0x0800;
        hlen = 6;
        plen = 4;
        operation = v;
        sha = mac a b c d e f;
        spa = ip m n o p;
        tha = mac g h i j k l;
        tpa = ip q r s t;
      }))
      whole

-- A request that another host builds for our address is learned from and answered with one frame
-- to that host, a reply that names our address and hardware address.
pub process_packet-send_request :
    (cfg theirs : NetConfig) (our_mac their_mac : Mac) (now : ℕ) (c : List ArpEntry)
    → process_packet cfg our_mac now
        (build_packet their_mac theirs.ip arp_request (mac 0 0 0 0 0 0) cfg.ip)
        c
      ≡ (
        update_cache now theirs.ip their_mac c,
        record {
          dst = their_mac;
          payload = build_packet our_mac cfg.ip arp_reply their_mac theirs.ip;
        }
            ∷ [],
      )
unfolding process_packet send_reply
process_packet-send_request cfg theirs our_mac their_mac now c =
    rw
      (
        process_packet,
        parse-build_packet their_mac (mac 0 0 0 0 0 0) theirs.ip cfg.ip arp_request (omega arith),
        (ip_eq_iff cfg.ip cfg.ip).1 refl,
      )
      refl
