-- ===== src/Net/Tcp/Segment/Examples.antt =====
-- Segments that reach a fresh connection.
use ralph_os.Base.{ℕ, ◌-◌, ◌%◌, ◌<◌, ◌≡◌, refl, true, List, [], ◌∷◌, none, length, take, arith}
use ralph_os.Net.Bytes.{Ip, ip}
use ralph_os.Net.Env.{Env}
use ralph_os.Net.Tcp.Header.{TcpHeader, payload, header_length, segment_bytes}
use ralph_os.Net.Tcp.Header.Roundtrip.{header_of}
use ralph_os.Net.Tcp.Ring.Queue.{new-IsRing}
use ralph_os.Net.Tcp.Tcb
use ralph_os.Net.Tcp.Tcb.{Tcb, established, close_wait}
use ralph_os.Net.Tcp.Segment.{process_data, process_segment, take_ready}
use ralph_os.Net.Tcp.Segment.Progress.{Longer, process_data-in_order}
use ralph_os.Net.Tcp.Ring.{rx_buffer_size}
use ralph_os.Net.Tcp.Segment.States.{arrow, process_segment-arrow}
use ralph_os.Net.Tcp.Segment.Stream.{IsPiece, run, Received, process_data-Received}
use ralph_os.Net.Tcp.Segment.Valid.{IsTcb, new-IsTcb}

abbrev env : Env
env = record { now = 700; our_ip = ip 10 0 2 15; accepts = λ n. true }

abbrev peer : Ip
peer = ip 10 0 2 2

-- The peer's stream of bytes, by sequence number.
abbrev stream : ℕ → ℕ
stream s = s % 256

abbrev body : List ℕ
body = 0 ∷ 1 ∷ 2 ∷ []

-- The segment with ACK and PSH that starts at sequence number 0.
abbrev segment : List ℕ
segment = segment_bytes 23 49152 0 0 24 1024 0 body

abbrev header : TcpHeader
header = header_of 23 49152 0 0 24 1024 0

abbrev conn : Tcb
conn = record Tcb.new { state = established; in_use = true }

process_segment-arrow_example :
    arrow conn.state (process_segment env conn header segment peer []).0.state ≡ true
process_segment-arrow_example = process_segment-arrow env conn header segment peer []

conn-IsTcb : IsTcb conn
conn-IsTcb =
    let t = new-IsTcb.timed in
    let s = new-IsTcb.space in
    record {
      timed = record {
        cwnd_lo = t.cwnd_lo;
        cwnd_hi = t.cwnd_hi;
        ssthresh_lo = t.ssthresh_lo;
        ssthresh_hi = t.ssthresh_hi;
        rto_lo = t.rto_lo;
        rto_hi = t.rto_hi;
      };
      space = record {
        una_in = s.una_in;
        nxt_in = s.nxt_in;
        rcv_in = s.rcv_in;
        wnd_in = s.wnd_in;
        slots = s.slots;
        rx = s.rx;
        tx = s.tx;
      };
    }

piece : IsPiece stream 0 (payload header segment)
unfolding payload header_length segment_bytes run
piece = refl

process_data-Received_example : Received stream conn (process_data env conn header segment []).0
unfolding Tcb.new Tcb.empty_ooo
process_data-Received_example =
    process_data-Received stream env conn header segment [] (omega arith) new-IsRing (tt, (tt, tt))
      piece

has_data : 0 < length (payload header segment)
unfolding payload header_length segment_bytes
has_data = omega arith

at_next : header.seq_num ≡ conn.rcv_nxt
unfolding Tcb.new
at_next = refl

process_data-in_order_example :
    Longer conn
      (process_data env conn header segment []).0
      (take (rx_buffer_size - conn.rx_buffer.len) (payload header segment))
    × (take_ready
          (process_data env conn header segment []).0.rcv_nxt
          (process_data env conn header segment []).0.ooo_segments
        ≡ none)
process_data-in_order_example =
    process_data-in_order env conn header segment [] conn-IsTcb.space.rx at_next has_data
