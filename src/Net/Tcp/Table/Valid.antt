-- ===== src/Net/Tcp/Table/Valid.antt =====
-- The invariant of the connection table, and each call that changes the table.
use ralph_os.Base.{
  ℕ, ◌≤◌, ◌<◌, ◌≡◌, ◌∙◌, not, ◌&&◌, Option, none, some, List, arith, ◌==◌, inl, inr, Bool-cases,
  Option-cases, length, All, length-set, All-get_or, All-set,
}
use ralph_os.Net.Bytes.{Ip}
use ralph_os.Net.Env.{Env, Sent}
use ralph_os.Net.Checksum.{tcp_udp_checksum}
use ralph_os.Net.Checksum.Verify.{AreBytes}
use ralph_os.Net.Tcp.Header.{TcpHeader, parse, fields, is_syn, is_ack}
use ralph_os.Net.Tcp.Tcb
use ralph_os.Net.Tcp.Tcb.{
  Tcb, TcpState, closed, listen, syn_sent, syn_received, established, fin_wait1, fin_wait2,
  close_wait, closing, last_ack, time_wait, update_rcv_wnd,
}
use ralph_os.Net.Tcp.Send.{proto_tcp}
use ralph_os.Net.Tcp.Segment.{process_segment}
use ralph_os.Net.Tcp.Segment.Valid.{IsTcb, IsHeader, new-IsTcb, process_segment-IsTcb}
use ralph_os.Net.Tcp.Table.{
  max_connections, Tcp, find_connection, find_listener, conn_at, set_conn, fresh, alloc_connection,
  deliver, open_passive, dispatch, process_packet,
}
use ralph_os.Net.Tcp.Table.Slots.{Slot, alloc_connection-Slot}

-- Eight valid control blocks, and an ephemeral port.
pub record IsTable (t : Tcp) : Type 0 where
  pub size : length t.connections ≡ max_connections
  pub conns : All IsTcb t.connections
  pub port_lo : 49152 ≤ t.next_port
  pub port_hi : t.next_port ≤ 65535

fresh-IsTcb : IsTcb fresh
unfolding fresh
fresh-IsTcb =
    let v = new-IsTcb in
    record {
      timed = record {
        cwnd_lo = v.timed.cwnd_lo;
        cwnd_hi = v.timed.cwnd_hi;
        ssthresh_lo = v.timed.ssthresh_lo;
        ssthresh_hi = v.timed.ssthresh_hi;
        rto_lo = v.timed.rto_lo;
        rto_hi = v.timed.rto_hi;
      };
      space = record {
        una_in = v.space.una_in;
        nxt_in = v.space.nxt_in;
        rcv_in = v.space.rcv_in;
        wnd_in = v.space.wnd_in;
        slots = v.space.slots;
        rx = v.space.rx;
        tx = v.space.tx;
      };
    }

pub conn_at-IsTcb : (t : Tcp) (i : ℕ) → IsTable t → IsTcb (conn_at t i)
unfolding conn_at
conn_at-IsTcb t i v = All-get_or IsTcb t.connections i Tcb.new v.conns new-IsTcb

pub set_conn-IsTable : (t : Tcp) (i : ℕ) (c : Tcb) → IsTable t → IsTcb c → IsTable (set_conn t i c)
unfolding set_conn
set_conn-IsTable t i c v w = record {
  size = length-set t.connections i c ∙ v.size;
  conns = All-set IsTcb t.connections i c v.conns w;
  port_lo = v.port_lo;
  port_hi = v.port_hi;
}

pub alloc_connection-IsTable : (t : Tcp) → IsTable t → IsTable (alloc_connection t).1
alloc_connection-IsTable t v = go (alloc_connection t) (alloc_connection-Slot t)
  where
    go : (r : Option ℕ × Tcp) → Slot t r → IsTable r.1
    go (none, u) s = rw s.0 v
    go (some i, u) s = rw s.2 (set_conn-IsTable t i fresh v fresh-IsTcb)

parse-IsHeader :
    (input : List ℕ) (h : TcpHeader) → AreBytes input → parse input ≡ some h → IsHeader h
unfolding parse fields
parse-IsHeader input h b e =
    let at = λ (i : ℕ). All-get_or (λ x. x < 256) input i 0 b (omega arith) in
    ground (arith, at 4, at 5, at 6, at 7, at 8, at 9, at 10, at 11)

module _ (env : Env) where
  deliver-IsTable :
      (i : ℕ) (c : Tcb) (h : TcpHeader) (input : List ℕ) (src : Ip) (t : Tcp) (sent : Sent)
      → IsHeader h
      → IsTcb c
      → IsTable t
      → IsTable (deliver env i c h input src t sent).0
  unfolding deliver
  deliver-IsTable i c h input src t sent r w v =
      set_conn-IsTable t i (process_segment env c h input src sent).0 v
        (process_segment-IsTcb env c h input src sent r w)

  open_passive-IsTable :
      (h : TcpHeader) (input : List ℕ) (src dst : Ip) (t : Tcp) (sent : Sent)
      → IsHeader h
      → IsTable t
      → IsTable (open_passive env h input src dst t sent).0
  unfolding open_passive
  open_passive-IsTable h input src dst t sent r v =
      go (alloc_connection t) (alloc_connection-IsTable t v)
    where
      conn : Tcb
      conn = record fresh {
        local_ip = dst;
        local_port = h.dst_port;
        remote_ip = src;
        remote_port = h.src_port;
        state = listen;
      }

      ok : IsTcb conn
      ok = ground (arith, fresh-IsTcb)

      go :
          (s : Option ℕ × Tcp)
          → IsTable s.1
          → IsTable
              (let result : Tcp × Sent = elim s.0 [
                | none ↦ (s.1, sent)
                | some i ↦ deliver env i conn h input src s.1 sent
              ] in
                result).0
      go (none, u) w = w
      go (some i, u) w = deliver-IsTable i conn h input src u sent r ok w

  dispatch-IsTable :
      (h : TcpHeader) (input : List ℕ) (src dst : Ip) (t : Tcp) (sent : Sent)
      → IsHeader h
      → IsTable t
      → IsTable (dispatch env h input src dst t sent).0
  unfolding dispatch
  dispatch-IsTable h input src dst t sent r v =
      elim (Option-cases (find_connection h.dst_port src h.src_port t)) [
        | inr (i, found) ↦
            rw (found, dispatch)
              (deliver-IsTable i (conn_at t i) h input src t sent r (conn_at-IsTcb t i v) v)
        | inl unknown ↦ elim (Bool-cases (is_syn h && not (is_ack h))) [
          | inr other ↦ rw (unknown, dispatch, other) v
          | inl syn ↦ elim (Option-cases (find_listener h.dst_port t)) [
            | inl refused ↦ rw (unknown, dispatch, syn, refused) v
            | inr (l, listens) ↦
                rw (unknown, dispatch, syn, listens)
                  (open_passive-IsTable h input src dst t sent r v)
          ]
        ]
      ]

  pub process_packet-IsTable :
      (input : List ℕ) (src dst : Ip) (t : Tcp) (sent : Sent)
      → AreBytes input
      → IsTable t
      → IsTable (process_packet env input src dst t sent).0
  unfolding process_packet
  process_packet-IsTable input src dst t sent b v = elim (Option-cases (parse input)) [
    | inl bad ↦ rw (bad, process_packet) v
    | inr (h, good) ↦ elim (Bool-cases (tcp_udp_checksum src dst proto_tcp input == 0)) [
      | inl sound ↦
          rw (good, process_packet, sound)
            (dispatch-IsTable h input src dst t sent (parse-IsHeader input h b good) v)
      | inr broken ↦ rw (good, process_packet, broken) v
    ]
  ]
