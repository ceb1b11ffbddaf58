-- ===== src/Net/Stack.antt =====
-- src/net/mod.rs: a received frame goes to ARP, ICMP or TCP.
pub mod Ping
mod Examples
use ralph_os.Base.{ℕ, Bool, not, Option, none, some, List, ◌==◌, if◌then◌else◌}
use ralph_os.Net.Arp
use ralph_os.Net.Arp.{ArpEntry, ArpFrame, expire_old_entries}
use ralph_os.Net.Ethernet.{Link, parse, payload, is_for_us, ethertype_arp, ethertype_ipv4}
use ralph_os.Net.Ipv4
use ralph_os.Net.Ipv4.{Ipv4Header, Call, dropped, to_icmp, to_tcp, send_requests}
use ralph_os.Net.Icmp

-- The call of `tcp::process_packet`, if there is one.
abbrev pub TcpCall : Type 0
TcpCall = Option (Ipv4Header × List ℕ)

unfoldable pub run_call : Call → Link → Link × TcpCall
run_call dropped l = (l, none)
run_call (to_icmp h d) l = (Icmp.process_packet h d l, none)
run_call (to_tcp h d) l = (l, some (h, d))

unfoldable pub run_arp : List ArpEntry × List ArpFrame → Link → Link
run_arp (cache, frames) l = send_requests frames (record l { cache = cache })

unfoldable pub process_rx_packet : List ℕ → Link → Link × TcpCall
unfolding run_call run_arp
process_rx_packet d l = elim (parse d) [
  | none ↦ (l, none)
  | some h ↦
      if not (is_for_us l.our_mac h)
      then (l, none)
      else if h.ethertype == ethertype_arp
      then (run_arp (Arp.process_packet l.config l.our_mac l.now (payload d) l.cache) l, none)
      else if h.ethertype == ethertype_ipv4
      then run_call (Ipv4.process_packet l.config (payload d)) l
      else (l, none)
]
