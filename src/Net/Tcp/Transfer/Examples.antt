-- ===== src/Net/Tcp/Transfer/Examples.antt =====
-- Three bytes are written, sent, and received.
use ralph_os.Base.{ℕ, ◌%◌, ◌≡◌, refl, true, List, [], ◌∷◌, arith}
use ralph_os.Net.Bytes.{Ip, ip}
use ralph_os.Net.Env.{Env, Sent}
use ralph_os.Net.Tcp.Header.{TcpHeader, segment_bytes, put_checksum}
use ralph_os.Net.Tcp.Header.Roundtrip.{header_of}
use ralph_os.Net.Checksum.{tcp_udp_checksum}
use ralph_os.Net.Tcp.Ring
use ralph_os.Net.Tcp.Ring.Queue.{contents, new-IsRing}
use ralph_os.Net.Tcp.Tcb
use ralph_os.Net.Tcp.Tcb.{Tcb, established}
use ralph_os.Net.Tcp.Segment.{process_segment}
use ralph_os.Net.Tcp.Segment.Stream.{Received}
use ralph_os.Net.Tcp.Segment.Valid.{new-IsTcb, IsTcb}
use ralph_os.Net.Tcp.Table.{tick}
use ralph_os.Net.Tcp.Transfer.Sender.{IsSending}
use ralph_os.Net.Tcp.Transfer.Talk.{Talks, opened, timers, writes, Talks-IsSending}
use ralph_os.Net.Tcp.Transfer.Receiver.{IsHearing}
use ralph_os.Net.Tcp.Transfer.Delivery.{Hears, nothing, hears, Talks-Received}

abbrev env : Env
env = record { now = 100; our_ip = ip 10 0 2 15; accepts = λ n. true }

abbrev host : Ip
host = ip 10 0 2 15

-- The stream, by sequence number.
abbrev stream : ℕ → ℕ
stream s = s % 256

abbrev sender : Tcb
sender = record Tcb.new {
  state = established;
  in_use = true;
  local_ip = host;
  local_port = 23;
  remote_ip = ip 10 0 2 2;
  remote_port = 49152;
  snd_wnd = 1024;
}

abbrev receiver : Tcb
receiver = record Tcb.new {
  state = established;
  in_use = true;
  local_ip = ip 10 0 2 2;
  local_port = 49152;
  remote_ip = host;
  remote_port = 23;
}

abbrev written : Tcb
written = record sender { tx_buffer = (Ring.write (0 ∷ 1 ∷ 2 ∷ []) sender.tx_buffer).1 }

-- The segment that the timers send, and its header.
abbrev checksum : ℕ
checksum =
    tcp_udp_checksum host (ip 10 0 2 2) 6 (segment_bytes 23 49152 0 0 24 1024 0 (0 ∷ 1 ∷ 2 ∷ []))

abbrev segment : List ℕ
segment = put_checksum checksum (segment_bytes 23 49152 0 0 24 1024 0 (0 ∷ 1 ∷ 2 ∷ []))

abbrev header : TcpHeader
header = header_of 23 49152 0 0 24 1024 checksum

abbrev wire : Sent
wire = (tick env written []).1

sender-IsTcb : IsTcb sender
unfolding Tcb.new
sender-IsTcb = ground (arith, new-IsTcb)

talk : Talks stream (tick env written []).0 wire
unfolding Tcb.new Ring.new ralph_os.Net.Tcp.Segment.Stream.run
talk = timers env (
    writes (0 ∷ 1 ∷ 2 ∷ []) (opened sender sender-IsTcb (omega arith) (omega arith) refl refl) refl)

Talks-IsSending_example : IsSending stream (tick env written []).0 wire
Talks-IsSending_example = Talks-IsSending talk

receiver-IsHearing : IsHearing stream receiver
unfolding Tcb.new Tcb.empty_ooo
receiver-IsHearing = record {
  open_state = refl;
  next_in = omega arith;
  ring = new-IsRing;
  held = (tt, (tt, tt));
}

abbrev heard : Tcb
heard = (process_segment env receiver header segment host []).0

delivered : Hears wire receiver heard
unfolding ralph_os.Net.Tcp.Ring.new ralph_os.Net.Tcp.Ring.available ralph_os.Net.Tcp.Ring.write
    ralph_os.Net.Tcp.Ring.peek_offset ralph_os.Net.Tcp.Header.parse
    ralph_os.Net.Tcp.Header.build_segment ralph_os.Net.Tcp.Header.put_checksum
    ralph_os.Net.Tcp.Tcb.new ralph_os.Net.Tcp.Send.send_segment_seq
    ralph_os.Net.Tcp.Send.send_segment ralph_os.Net.Tcp.Send.send_pending_data
    ralph_os.Net.Tcp.Table.tick ralph_os.Net.Checksum.checksum_accumulate ralph_os.Net.Checksum.fold
    ralph_os.Net.Checksum.fold_checksum ralph_os.Net.Checksum.pseudo_sum
    ralph_os.Net.Checksum.tcp_udp_checksum ralph_os.Net.Env.send_packet
delivered =
    hears {p = record { dst = ip 10 0 2 2; protocol = 6; bytes = segment }} env 0 header host []
      nothing refl refl

Talks-Received_example : Received stream receiver heard × (heard.state ≡ established)
Talks-Received_example =
    Talks-Received stream (tick env written []).0 receiver heard wire talk receiver-IsHearing
      delivered

heard_test : contents heard.rx_buffer ≡ 0 ∷ 1 ∷ 2 ∷ []
unfolding ralph_os.Net.Tcp.Ring.new ralph_os.Net.Tcp.Ring.write ralph_os.Net.Tcp.Ring.read_loop
    ralph_os.Net.Tcp.Header.payload ralph_os.Net.Tcp.Header.is_ack ralph_os.Net.Tcp.Header.is_fin
    ralph_os.Net.Tcp.Header.is_rst ralph_os.Net.Tcp.Header.build_segment
    ralph_os.Net.Tcp.Header.put_checksum ralph_os.Net.Tcp.Tcb.empty_ooo ralph_os.Net.Tcp.Tcb.new
    ralph_os.Net.Tcp.Tcb.update_rcv_wnd ralph_os.Net.Tcp.Tcb.seq_after
    ralph_os.Net.Tcp.Send.duplicate_ack ralph_os.Net.Tcp.Send.process_ack
    ralph_os.Net.Tcp.Segment.take_ready ralph_os.Net.Tcp.Segment.deliver_loop
    ralph_os.Net.Tcp.Segment.deliver_ooo_segments ralph_os.Net.Tcp.Segment.store_data
    ralph_os.Net.Tcp.Segment.accept_data ralph_os.Net.Tcp.Segment.process_data
    ralph_os.Net.Tcp.Segment.on_established ralph_os.Net.Tcp.Segment.process_segment
    ralph_os.Net.Tcp.Ring.Queue.contents
heard_test = refl
