-- ===== src/Net/Tcp/Table.antt =====
-- The connection table of src/net/tcp.rs: `process_packet`, `process_timers` and the socket calls.
pub mod Slots
pub mod Valid
pub mod Handshake
pub mod Close
pub mod Reach
pub mod Timers
mod Examples
use ralph_os.Base.{
  ℕ, zero, suc, ◌+◌, ◌-◌, ◌*◌, ◌/◌, ◌%◌, ◌^◌, min, max, Bool, true, false, not, ◌&&◌, ◌||◌, Option,
  none, some, List, [], ◌∷◌, ltb, leb, ◌==◌, if◌then◌else◌, length, get_or, set,
}
use ralph_os.Net.Bytes.{Ip, ip_eq, wrapping_add32}
use ralph_os.Net.Env.{Env, Sent}
use ralph_os.Net.Checksum.{tcp_udp_checksum}
use ralph_os.Net.Tcp.Header.{
  mss, flag_fin, flag_syn, flag_ack, TcpHeader, parse, is_syn, is_ack, is_rst,
}
use ralph_os.Net.Tcp.Ring
use ralph_os.Net.Tcp.Tcb
use ralph_os.Net.Tcp.Tcb.{
  TcpState, closed, listen, syn_sent, syn_received, established, fin_wait1, fin_wait2, close_wait,
  closing, last_ack, time_wait, Tcb, max_rto, update_rcv_wnd,
}
use ralph_os.Net.Tcp.Send.{
  proto_tcp, send_segment, send_rst, generate_iss, retransmit, send_pending_data,
}
use ralph_os.Net.Tcp.Segment.{process_segment}

abbrev pub max_connections : ℕ
max_connections = 8

-- `CONNECTIONS` and `NEXT_PORT`.
pub record Tcp : Type 0 where
  pub connections : List Tcb
  pub next_port : ℕ

-- `state == …`, for the states that the code asks for
abbrev pub is_closed : TcpState → Bool
is_closed closed = true
is_closed _ = false

abbrev pub is_listen : TcpState → Bool
is_listen listen = true
is_listen _ = false

abbrev pub is_established : TcpState → Bool
is_established established = true
is_established _ = false

abbrev pub is_close_wait : TcpState → Bool
is_close_wait close_wait = true
is_close_wait _ = false

abbrev pub is_time_wait : TcpState → Bool
is_time_wait time_wait = true
is_time_wait _ = false

-- The states whose slot `alloc_connection` takes over.
abbrev pub is_reusable : TcpState → Bool
is_reusable time_wait = true
is_reusable fin_wait1 = true
is_reusable fin_wait2 = true
is_reusable closing = true
is_reusable last_ack = true
is_reusable _ = false

-- The loops that return the first index, counted from `i`, at which a test passes.
unfoldable pub find_index : (Tcb → Bool) → ℕ → List Tcb → Option ℕ
find_index test i [] = none
find_index test i (c ∷ rest) =
    let later = find_index test (i + 1) rest in if test c then some i else later

abbrev pub matches : ℕ → Ip → ℕ → Tcb → Bool
matches local_port remote_ip remote_port c =
    c.in_use
    && ((c.local_port == local_port)
        && (ip_eq c.remote_ip remote_ip && (c.remote_port == remote_port)))

unfoldable pub find_connection : ℕ → Ip → ℕ → Tcp → Option ℕ
find_connection local_port remote_ip remote_port t =
    find_index (matches local_port remote_ip remote_port) 0 t.connections

abbrev pub listens_on : ℕ → Tcb → Bool
listens_on local_port c = c.in_use && (is_listen c.state && (c.local_port == local_port))

unfoldable pub find_listener : ℕ → Tcp → Option ℕ
find_listener local_port t = find_index (listens_on local_port) 0 t.connections

-- `CONNECTIONS[i]`, and an assignment to it. Every index comes from a search or is tested first;
-- behind the last slot, where the source would panic, this finds one that was never used.
unfoldable pub conn_at : Tcp → ℕ → Tcb
conn_at t i = get_or t.connections i Tcb.new

unfoldable pub set_conn : Tcp → ℕ → Tcb → Tcp
set_conn t i c = record t { connections = set t.connections i c }

-- `conn.reset(); conn.in_use = true`
unfoldable pub fresh : Tcb
fresh = record Tcb.new { in_use = true }

unfoldable pub alloc_connection : Tcp → Option ℕ × Tcp
alloc_connection t = elim (find_index (λ c. not c.in_use) 0 t.connections) [
  | some i ↦ (some i, set_conn t i fresh)
  | none ↦ elim (find_index (λ c. c.in_use && is_reusable c.state) 0 t.connections) [
    | some i ↦ (some i, set_conn t i fresh)
    | none ↦ (none, t)
  ]
]

unfoldable pub alloc_port : Tcp → ℕ × Tcp
alloc_port t =
    (t.next_port, record t { next_port = if leb 65535 t.next_port then 49152 else t.next_port + 1 })

-- `sock >= MAX_CONNECTIONS || !CONNECTIONS[sock].in_use`, negated
unfoldable pub is_socket : Tcp → ℕ → Bool
is_socket t sock = ltb sock max_connections && (conn_at t sock).in_use

module _ (env : Env) where
  -- One slot is handed a segment.
  unfoldable pub deliver : ℕ → Tcb → TcpHeader → List ℕ → Ip → Tcp → Sent → Tcp × Sent
  deliver i conn tcp input src_ip t sent =
      let (conn', sent') = process_segment env conn tcp input src_ip sent in
      (set_conn t i conn', sent')

  -- A SYN for a listener gets a slot of its own, or is dropped.
  unfoldable pub open_passive : TcpHeader → List ℕ → Ip → Ip → Tcp → Sent → Tcp × Sent
  open_passive tcp input src_ip dst_ip t sent =
      let (slot, t') = alloc_connection t in
      let conn = record fresh {
        local_ip = dst_ip;
        local_port = tcp.dst_port;
        remote_ip = src_ip;
        remote_port = tcp.src_port;
        state = listen;
      } in
      elim slot [ none ↦ (t', sent) | some i ↦ deliver i conn tcp input src_ip t' sent ]

  -- `process_packet` behind the parser and the checksum.
  unfoldable pub dispatch : TcpHeader → List ℕ → Ip → Ip → Tcp → Sent → Tcp × Sent
  dispatch tcp input src_ip dst_ip t sent =
      elim (find_connection tcp.dst_port src_ip tcp.src_port t) [
        | some i ↦ deliver i (conn_at t i) tcp input src_ip t sent
        | none ↦
            let refused : Tcp × Sent =
              (t, if is_rst tcp then sent else send_rst env dst_ip src_ip tcp sent) in
            if is_syn tcp && not (is_ack tcp)
            then elim (find_listener tcp.dst_port t) [
              | some _ ↦ open_passive tcp input src_ip dst_ip t sent
              | none ↦ refused
            ]
            else refused
      ]

  unfoldable pub process_packet : List ℕ → Ip → Ip → Tcp → Sent → Tcp × Sent
  process_packet input src_ip dst_ip t sent = elim (parse input) [
    | none ↦ (t, sent)
    | some tcp ↦
        if tcp_udp_checksum src_ip dst_ip proto_tcp input == 0
        then dispatch tcp input src_ip dst_ip t sent
        else (t, sent)
  ]

  -- The retransmission timeout of `process_timers`.
  unfoldable pub on_timeout : Tcb → Sent → Tcb × Sent
  on_timeout conn sent =
      if leb 5 conn.retransmit_count
      then (Tcb.new, sent)
      else retransmit env
          (record conn {
            rto = min (conn.rto * 2) max_rto;
            ssthresh = max (conn.cwnd / 2) (2 * mss);
            cwnd = mss;
          })
          sent

  -- One round of the loop of `process_timers`.
  unfoldable pub tick : Tcb → Sent → Tcb × Sent
  tick conn sent =
      let (conn', sent') =
        if ltb 0 conn.retransmit_timer && leb conn.retransmit_timer env.now
        then on_timeout conn sent
        else (conn, sent) in
      if not conn.in_use
      then (conn, sent)
      else if is_time_wait conn.state
      then (if leb conn.time_wait_timer env.now then (Tcb.new, sent) else (conn, sent))
      else if is_established conn'.state
      then send_pending_data env conn' sent'
      else (conn', sent')

  unfoldable pub tick_all : List Tcb → Sent → List Tcb × Sent
  tick_all [] sent = ([], sent)
  tick_all (c ∷ rest) sent =
      let (c', sent') = tick c sent in
      let (rest', sent'') = tick_all rest sent' in (c' ∷ rest', sent'')

  unfoldable pub process_timers : Tcp → Sent → Tcp × Sent
  process_timers t sent =
      let (cs, sent') = tick_all t.connections sent in (record t { connections = cs }, sent')

  unfoldable pub connect : ℕ → Ip → ℕ → Tcp → Sent → Bool × Tcp × Sent
  connect sock remote_ip remote_port t sent =
      let conn = conn_at t sock in
      let (port, t') = alloc_port t in
      let conn' = record conn {
        local_ip = env.our_ip;
        local_port = port;
        remote_ip = remote_ip;
        remote_port = remote_port;
        iss = generate_iss env;
        snd_nxt = generate_iss env;
        snd_una = generate_iss env;
      } in
      let (done, sent') = send_segment env conn' flag_syn [] sent in
      let waiting = record conn' {
        snd_nxt = wrapping_add32 conn'.snd_nxt 1;
        state = syn_sent;
        last_send_time = env.now;
        retransmit_timer = env.now + conn'.rto;
      } in
      if not (is_socket t sock)
      then (false, t, sent)
      else if not (is_closed conn.state)
      then (false, t, sent)
      else if done
      then (true, set_conn t' sock waiting, sent')
      else (false, set_conn t' sock conn', sent')

  unfoldable pub start_listen : ℕ → ℕ → Tcp → Bool × Tcp
  start_listen sock port t =
      let conn = conn_at t sock in
      if not (is_socket t sock)
      then (false, t)
      else if not (is_closed conn.state)
      then (false, t)
      else (
        true,
        set_conn t sock (record conn { local_ip = env.our_ip; local_port = port; state = listen }),
      )

  -- A FIN goes out, in the two states that send one.
  unfoldable pub send_fin : TcpState → Tcb → Sent → Tcb × Sent
  send_fin next conn sent =
      let (done, sent') = send_segment env conn (flag_fin + flag_ack) [] sent in
      if done
      then (
        record conn {
          snd_nxt = wrapping_add32 conn.snd_nxt 1;
          state = next;
          retransmit_timer = env.now + conn.rto;
        },
        sent',
      )
      else (conn, sent')

  unfoldable pub close_conn : TcpState → Tcb → Sent → Tcb × Sent
  close_conn established conn sent = send_fin fin_wait1 conn sent
  close_conn close_wait conn sent = send_fin last_ack conn sent
  close_conn syn_sent conn sent = (Tcb.new, sent)
  close_conn listen conn sent = (Tcb.new, sent)
  close_conn _ conn sent = (conn, sent)

  unfoldable pub close : ℕ → Tcp → Sent → Tcp × Sent
  close sock t sent =
      let conn = conn_at t sock in
      let (conn', sent') = close_conn conn.state conn sent in
      if is_socket t sock then (set_conn t sock conn', sent') else (t, sent)

unfoldable pub socket : Tcp → Option ℕ × Tcp
socket t = alloc_connection t

unfoldable pub get_state : ℕ → Tcp → TcpState
get_state sock t = if is_socket t sock then (conn_at t sock).state else closed

unfoldable pub is_connected : ℕ → Tcp → Bool
is_connected sock t = is_established (get_state sock t)

unfoldable pub available : ℕ → Tcp → ℕ
available sock t = if is_socket t sock then Ring.available (conn_at t sock).rx_buffer else 0

-- What the calls on data return: -1, or a count (with the bytes, for `recv`).
pub data Received : Type 0 where
  failed : Received
  got : List ℕ → Received

unfoldable pub recv : ℕ → ℕ → Tcp → Received × Tcp
recv sock buf_len t =
    let conn = conn_at t sock in
    let (bytes, rx) = Ring.read buf_len conn.rx_buffer in
    let conn' = update_rcv_wnd (record conn { rx_buffer = rx }) in
    if not (is_socket t sock) then (failed, t) else if is_closed conn.state then (failed, t) else (
      if ltb 0 (length bytes) then got bytes else if conn.remote_closed then failed else got [],
      set_conn t sock conn',
    )

unfoldable pub send : ℕ → List ℕ → Tcp → Option ℕ × Tcp
send sock input t =
    let conn = conn_at t sock in
    let (n, tx) = Ring.write input conn.tx_buffer in
    if not (is_socket t sock)
    then (none, t)
    else if not (is_established conn.state) && not (is_close_wait conn.state)
    then (none, t)
    else (some n, set_conn t sock (record conn { tx_buffer = tx }))

-- The two searches of `accept`, from index `i` on.
unfoldable pub find_accept : (Tcb → Bool) → ℕ → ℕ → ℕ → List Tcb → Option ℕ
find_accept extra sock port i [] = none
find_accept extra sock port i (c ∷ rest) =
    let later = find_accept extra sock port (i + 1) rest in
    if not (i == sock)
      && (c.in_use
          && ((c.local_port == port)
              && (not c.accepted
                  && ((is_established c.state || is_close_wait c.state) && extra c))))
    then some i
    else later

abbrev pub has_bytes : Tcb → Bool
has_bytes c = ltb 0 (Ring.available c.rx_buffer)

unfoldable pub accept_at : Option ℕ → Tcp → Option ℕ × Tcp
accept_at none t = (none, t)
accept_at (some i) t = (some i, set_conn t i (record (conn_at t i) { accepted = true }))

unfoldable pub accept : ℕ → Tcp → Option ℕ × Tcp
unfolding accept_at
accept sock t =
    let listener = conn_at t sock in
    let first = find_accept has_bytes sock listener.local_port 0 t.connections in
    let second = find_accept (λ _. true) sock listener.local_port 0 t.connections in
    if not (is_socket t sock)
    then (none, t)
    else if not (is_listen listener.state)
    then (none, t)
    else accept_at (elim first [ some i ↦ some i | none ↦ second ]) t
