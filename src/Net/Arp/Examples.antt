-- ===== src/Net/Arp/Examples.antt =====
-- The cache and the packets on concrete addresses.
use ralph_os.Base.{◌≡◌, refl, true, false, some, List, [], ◌∷◌, arith, replicate}
use ralph_os.Net.Bytes.{ip}
use ralph_os.Net.Arp.{
  Mac, mac, NetConfig, ArpEntry, arp_request, arp_reply, refresh, update_cache, build_packet,
  process_packet, lookup,
}
use ralph_os.Net.Arp.Cache.{lookup-update_cache}
use ralph_os.Net.Arp.Roundtrip.{process_packet-send_request}

abbrev our_config : NetConfig
our_config = record { ip = ip 10 0 2 15; netmask = ip 255 255 255 0; gateway = ip 10 0 2 2 }

abbrev peer_config : NetConfig
peer_config = record our_config { ip = ip 10 0 2 7 }

abbrev our_mac : Mac
our_mac = mac 82 84 0 18 52 86

abbrev peer_mac : Mac
peer_mac = mac 82 85 10 0 2 2

abbrev entry : ArpEntry
entry = record { ip = peer_config.ip; mac = our_mac; timestamp = 10; valid = true }

abbrev cache : List ArpEntry
cache =
    entry
    ∷ replicate 15 (record { ip = ip 0 0 0 0; mac = mac 0 0 0 0 0 0; timestamp = 0; valid = false })

abbrev refreshed : List ArpEntry
refreshed =
    record entry { mac = peer_mac; timestamp = 500 }
    ∷ replicate 15 (record { ip = ip 0 0 0 0; mac = mac 0 0 0 0 0 0; timestamp = 0; valid = false })

hits : refresh 500 peer_config.ip peer_mac cache ≡ some refreshed
unfolding refresh
hits = refl

process_packet-send_request_example :
    process_packet our_config our_mac 500
      (build_packet peer_mac peer_config.ip arp_request (mac 0 0 0 0 0 0) our_config.ip)
      cache
    ≡ (
      update_cache 500 peer_config.ip peer_mac cache,
      record {
        dst = peer_mac;
        payload = build_packet our_mac our_config.ip arp_reply peer_mac peer_config.ip;
      }
          ∷ [],
    )
process_packet-send_request_example =
    process_packet-send_request our_config peer_config our_mac peer_mac 500 cache

-- The cache knows another hardware address for the peer.
lookup-update_cache_example :
    lookup 500 peer_config.ip (update_cache 500 peer_config.ip peer_mac cache) ≡ some peer_mac
lookup-update_cache_example =
    lookup-update_cache 500 peer_config.ip peer_mac cache (omega arith) (omega arith)
