-- ===== src/Net/Tcp/Table/Reach.antt =====
-- Every state that the kernel can bring the TCP module into, in whatever order packets, timer
-- rounds and socket calls come.
use ralph_os.Base.{
  ℕ, ◌≡◌, refl, Bool, not, ◌&&◌, Option, none, some, List, [], ◌∷◌, arith, inl, inr, Bool-cases,
  if_both, length, All, replicate,
}
use ralph_os.Net.Bytes.{Ip}
use ralph_os.Net.Env.{Env, Sent}
use ralph_os.Net.Checksum.Verify.{AreBytes}
use ralph_os.Net.Tcp.Ring
use ralph_os.Net.Tcp.Ring.Queue.{write_lem, read_lem}
use ralph_os.Net.Tcp.Tcb
use ralph_os.Net.Tcp.Tcb.{
  Tcb, TcpState, closed, listen, syn_sent, syn_received, established, fin_wait1, fin_wait2,
  close_wait, closing, last_ack, time_wait, update_rcv_wnd,
}
use ralph_os.Net.Tcp.Send.{generate_iss, retransmit, send_pending_data}
use ralph_os.Net.Tcp.Segment.Valid.{IsTcb, new-IsTcb}
use ralph_os.Net.Tcp.Table.{
  max_connections, Tcp, Received, conn_at, alloc_port, is_socket, is_closed, is_established,
  is_close_wait, is_listen, process_packet, on_timeout, tick, tick_all, process_timers, connect,
  start_listen, send_fin, close_conn, close, socket, recv, send, accept, accept_at,
}
use ralph_os.Net.Tcp.Table.Valid.{
  IsTable, conn_at-IsTcb, set_conn-IsTable, alloc_connection-IsTable, process_packet-IsTable,
}

module _ (env : Env) where
  pub send_pending_data-IsTcb :
      (c : Tcb) (sent : Sent) → IsTcb c → IsTcb (send_pending_data env c sent).0
  unfolding send_pending_data
  send_pending_data-IsTcb c sent v = ground arith

  pub on_timeout-IsTcb : (c : Tcb) (sent : Sent) → IsTcb c → IsTcb (on_timeout env c sent).0
  unfolding on_timeout retransmit
  on_timeout-IsTcb c sent v = ground (arith, new-IsTcb)

  pub tick-IsTcb : (c : Tcb) (sent : Sent) → IsTcb c → IsTcb (tick env c sent).0
  unfolding tick
  tick-IsTcb c sent v = ground (
    arith,
    new-IsTcb,
    on_timeout-IsTcb c sent v,
    send_pending_data-IsTcb c sent v,
    send_pending_data-IsTcb (on_timeout env c sent).0 (on_timeout env c sent).1,
  )

  tick_all-IsTcb :
      (cs : List Tcb) (sent : Sent)
      → All IsTcb cs
      → All IsTcb (tick_all env cs sent).0 × (length (tick_all env cs sent).0 ≡ length cs)
  unfolding tick_all
  tick_all-IsTcb [] sent h = (tt, refl)
  tick_all-IsTcb (c ∷ cs) sent h =
      let r = tick_all-IsTcb cs (tick env c sent).1 h.1 in
      ((tick-IsTcb c sent h.0, r.0), omega (arith, r.1))

  process_timers-IsTable :
      (t : Tcp) (sent : Sent) → IsTable t → IsTable (process_timers env t sent).0
  unfolding process_timers
  process_timers-IsTable t sent v =
      let r = tick_all-IsTcb t.connections sent v.conns in
      record {
        size = omega (arith, r.1, v.size);
        conns = r.0;
        port_lo = v.port_lo;
        port_hi = v.port_hi;
      }

  alloc_port-IsTable : (t : Tcp) → IsTable t → IsTable (alloc_port t).1
  unfolding alloc_port
  alloc_port-IsTable t v = record {
    size = v.size;
    conns = v.conns;
    port_lo = ground arith;
    port_hi = ground arith;
  }

  send_fin-IsTcb :
      (next : TcpState) (c : Tcb) (sent : Sent) → IsTcb c → IsTcb (send_fin env next c sent).0
  unfolding send_fin
  send_fin-IsTcb next c sent v = ground arith

  close_conn-IsTcb :
      (s : TcpState) (c : Tcb) (sent : Sent) → IsTcb c → IsTcb (close_conn env s c sent).0
  unfolding close_conn
  close_conn-IsTcb established c sent v = send_fin-IsTcb fin_wait1 c sent v
  close_conn-IsTcb close_wait c sent v = send_fin-IsTcb last_ack c sent v
  close_conn-IsTcb syn_sent c sent v = new-IsTcb
  close_conn-IsTcb listen c sent v = new-IsTcb
  close_conn-IsTcb _ c sent v = v

  pub close-IsTable :
      (sock : ℕ) (t : Tcp) (sent : Sent) → IsTable t → IsTable (close env sock t sent).0
  unfolding close
  close-IsTable sock t sent v = elim (Bool-cases (is_socket t sock)) [
    | inl open_sock ↦ rw open_sock (
        set_conn-IsTable t sock (close_conn env (conn_at t sock).state (conn_at t sock) sent).0 v
          (close_conn-IsTcb (conn_at t sock).state (conn_at t sock) sent (conn_at-IsTcb t sock v)))
    | inr bad ↦ rw bad v
  ]

  connect-IsTable :
      (sock : ℕ) (remote : Ip) (port : ℕ) (t : Tcp) (sent : Sent)
      → IsTable t
      → IsTable (connect env sock remote port t sent).1
  unfolding connect generate_iss
  connect-IsTable sock remote port t sent v =
      let w = conn_at-IsTcb t sock v in
      let p = alloc_port-IsTable t v in
      if_both (λ (r : Bool × Tcp × Sent). IsTable r.1) (not (is_socket t sock)) v
        (if_both (λ (r : Bool × Tcp × Sent). IsTable r.1) (not (is_closed (conn_at t sock).state)) v
          (if_both (λ (r : Bool × Tcp × Sent). IsTable r.1) _
            (set_conn-IsTable (alloc_port t).1 sock _ p (ground arith))
            (set_conn-IsTable (alloc_port t).1 sock _ p (ground arith))))

  pub start_listen-IsTable :
      (sock port : ℕ) (t : Tcp) → IsTable t → IsTable (start_listen env sock port t).1
  unfolding start_listen
  start_listen-IsTable sock port t v =
      let w = conn_at-IsTcb t sock v in
      if_both (λ (r : Bool × Tcp). IsTable r.1) (not (is_socket t sock)) v
        (if_both (λ (r : Bool × Tcp). IsTable r.1) (not (is_closed (conn_at t sock).state)) v
          (set_conn-IsTable t sock _ v (ground arith)))

pub recv-IsTable : (sock n : ℕ) (t : Tcp) → IsTable t → IsTable (recv sock n t).1
unfolding recv update_rcv_wnd Ring.free_space
recv-IsTable sock n t v =
    let w = conn_at-IsTcb t sock v in
    if_both (λ (r : Received × Tcp). IsTable r.1) (not (is_socket t sock)) v
      (if_both (λ (r : Received × Tcp). IsTable r.1) (is_closed (conn_at t sock).state) v
        (set_conn-IsTable t sock _ v (ground (arith, read_lem n (conn_at t sock).rx_buffer))))

pub send-IsTable : (sock : ℕ) (input : List ℕ) (t : Tcp) → IsTable t → IsTable (send sock input t).1
unfolding send
send-IsTable sock input t v =
    let w = conn_at-IsTcb t sock v in
    if_both (λ (r : Option ℕ × Tcp). IsTable r.1) (not (is_socket t sock)) v
      (if_both (λ (r : Option ℕ × Tcp). IsTable r.1)
        (not (is_established (conn_at t sock).state) && not (is_close_wait (conn_at t sock).state))
        v
        (set_conn-IsTable t sock _ v (ground (arith, write_lem input (conn_at t sock).tx_buffer))))

accept_at-IsTable : (o : Option ℕ) (t : Tcp) → IsTable t → IsTable (accept_at o t).1
unfolding accept_at
accept_at-IsTable none t v = v
accept_at-IsTable (some i) t v =
    let w = conn_at-IsTcb t i v in set_conn-IsTable t i _ v (ground arith)

pub accept-IsTable : (sock : ℕ) (t : Tcp) → IsTable t → IsTable (accept sock t).1
unfolding accept
accept-IsTable sock t v =
    if_both (λ (r : Option ℕ × Tcp). IsTable r.1) (not (is_socket t sock)) v
      (if_both (λ (r : Option ℕ × Tcp). IsTable r.1) (not (is_listen (conn_at t sock).state)) v
        (accept_at-IsTable _ t v))

-- What the network task and the programs can make the module do.
pub data Event : Type 0 where
  packet : (input : List ℕ) → AreBytes input → (src dst : Ip) → Event
  timers : Event
  open_socket : Event
  connect_to : (sock : ℕ) (remote : Ip) (port : ℕ) → Event
  listen_on : (sock port : ℕ) → Event
  receive : (sock n : ℕ) → Event
  send_bytes : (sock : ℕ) (input : List ℕ) → Event
  close_socket : (sock : ℕ) → Event
  accept_on : (sock : ℕ) → Event

unfoldable pub step : Env → Event → Tcp → Tcp
step env (packet input b src dst) t = (process_packet env input src dst t []).0
step env timers t = (process_timers env t []).0
step env open_socket t = (socket t).1
step env (connect_to sock remote port) t = (connect env sock remote port t []).1
step env (listen_on sock port) t = (start_listen env sock port t).1
step env (receive sock n) t = (recv sock n t).1
step env (send_bytes sock input) t = (send sock input t).1
step env (close_socket sock) t = (close env sock t []).0
step env (accept_on sock) t = (accept sock t).1

-- The tables as they are compiled in.
unfoldable pub boot : Tcp
boot = record { connections = replicate max_connections Tcb.new; next_port = 49152 }

-- A history: each event finds the timer, and the layer below, as they are at that moment.
pub data Reach : Tcp → Type 0 where
  start : Reach boot
  next : {t : Tcp} → Reach t → (env : Env) (e : Event) → Reach (step env e t)

boot-IsTable : IsTable boot
unfolding boot
boot-IsTable = record {
  size = refl;
  conns = let n = new-IsTcb in (n, (n, (n, (n, (n, (n, (n, (n, tt))))))));
  port_lo = omega arith;
  port_hi = omega arith;
}

step-IsTable : (env : Env) (e : Event) (t : Tcp) → IsTable t → IsTable (step env e t)
unfolding step socket
step-IsTable env (packet input b src dst) t v = process_packet-IsTable env input src dst t [] b v
step-IsTable env timers t v = process_timers-IsTable env t [] v
step-IsTable env open_socket t v = alloc_connection-IsTable t v
step-IsTable env (connect_to sock remote port) t v = connect-IsTable env sock remote port t [] v
step-IsTable env (listen_on sock port) t v = start_listen-IsTable env sock port t v
step-IsTable env (receive sock n) t v = recv-IsTable sock n t v
step-IsTable env (send_bytes sock input) t v = send-IsTable sock input t v
step-IsTable env (close_socket sock) t v = close-IsTable env sock t [] v
step-IsTable env (accept_on sock) t v = accept-IsTable sock t v

-- Whatever packets arrive and whatever the programs call, in any order and at any time: there are
-- eight control blocks, in each the queues are sound, the sequence numbers are words, the
-- congestion window is at least a segment and the timeout lies between 20 and 6000 ticks; and the
-- next ephemeral port is one.
pub Reach-IsTable : {t : Tcp} → Reach t → IsTable t
Reach-IsTable start = boot-IsTable
Reach-IsTable (next {t} r env e) = step-IsTable env e t (Reach-IsTable r)
