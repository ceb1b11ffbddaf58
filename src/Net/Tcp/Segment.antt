-- ===== src/Net/Tcp/Segment.antt =====
-- The receiving half of src/net/tcp.rs: `process_segment` and what it calls.
pub mod States
pub mod Stream
pub mod Valid
pub mod Progress
mod Examples
use ralph_os.Base.{
  ℕ, zero, suc, ◌+◌, ◌-◌, ◌%◌, ◌^◌, min, Bool, true, false, not, ◌&&◌, Option, none, some, List, [],
  ◌∷◌, ltb, leb, ◌==◌, if◌then◌else◌, length, take,
}
use ralph_os.Net.Bytes.{Ip, wrapping_add32}
use ralph_os.Net.Env.{Env, Sent}
use ralph_os.Net.Tcp.Header.{flag_syn, flag_ack, TcpHeader, payload, is_syn, is_ack, is_fin, is_rst}
use ralph_os.Net.Tcp.Ring
use ralph_os.Net.Tcp.Tcb
use ralph_os.Net.Tcp.Tcb.{
  TcpState, closed, listen, syn_sent, syn_received, established, fin_wait1, fin_wait2, close_wait,
  closing, last_ack, time_wait, OooSegment, ooo_data_size, Tcb, time_wait_timeout, update_rcv_wnd,
  seq_after,
}
use ralph_os.Net.Tcp.Send.{send_segment, generate_iss, update_rtt, process_ack}

-- The first empty slot takes the segment; with none it is dropped.
unfoldable pub put_ooo : ℕ → List ℕ → List OooSegment → List OooSegment
put_ooo seq body [] = []
put_ooo seq body (s ∷ rest) =
    if s.valid
    then s ∷ put_ooo seq body rest
    else record { seq = seq; bytes = take (min (length body) ooo_data_size) body; valid = true }
      ∷ rest

unfoldable pub buffer_ooo_segment : Tcb → ℕ → List ℕ → Tcb
unfolding put_ooo
buffer_ooo_segment conn seq body = record conn { ooo_segments = put_ooo seq body conn.ooo_segments }

-- The `for` loop of `deliver_ooo_segments`: the first segment that comes next, and the segments
-- with that one marked.
unfoldable pub take_ready : ℕ → List OooSegment → Option (List ℕ × List OooSegment)
take_ready rcv_nxt [] = none
take_ready rcv_nxt (s ∷ rest) =
    let later = take_ready rcv_nxt rest in
    if s.valid && (s.seq == rcv_nxt)
    then some (s.bytes, record s { valid = false } ∷ rest)
    else elim later [ none ↦ none | some (body, rest') ↦ some (body, s ∷ rest') ]

-- One round of the outer loop.
unfoldable pub deliver_one : List ℕ → List OooSegment → Tcb → Tcb
deliver_one body segments conn =
    let (written, rx) = Ring.write body conn.rx_buffer in
    record conn {
      rx_buffer = rx;
      rcv_nxt = wrapping_add32 conn.rcv_nxt written;
      ooo_segments = segments;
    }

unfoldable pub deliver_loop : ℕ → Tcb → Tcb
deliver_loop zero conn = conn
deliver_loop (suc fuel) conn = elim (take_ready conn.rcv_nxt conn.ooo_segments) [
  | none ↦ conn
  | some (body, segments) ↦ deliver_loop fuel (deliver_one body segments conn)
]

-- A round that goes on empties a slot, so there are as many rounds as slots at most.
unfoldable pub deliver_ooo_segments : Tcb → Tcb
deliver_ooo_segments conn = deliver_loop (length conn.ooo_segments) conn

-- The in-order branch of `process_data`, up to the buffered segments.
unfoldable pub store_data : Tcb → List ℕ → Tcb
store_data conn body =
    let (written, rx) = Ring.write body conn.rx_buffer in
    update_rcv_wnd (record conn {
      rx_buffer = rx;
      rcv_nxt = wrapping_add32 conn.rcv_nxt written;
      has_data = true;
    })

-- And with them, up to the acknowledgement.
unfoldable pub accept_data : Tcb → List ℕ → Tcb
accept_data conn body = deliver_ooo_segments (store_data conn body)

module _ (env : Env) where
  -- The acknowledgement carries the new `rcv_nxt`; its result is not looked at.
  unfoldable pub process_data : Tcb → TcpHeader → List ℕ → Sent → Tcb × Sent
  process_data conn tcp input sent =
      let body = payload tcp input in
      let accepted = accept_data conn body in
      let buffered = buffer_ooo_segment conn tcp.seq_num body in
      if length body == 0
      then (conn, sent)
      else if tcp.seq_num == conn.rcv_nxt
      then (accepted, (send_segment env accepted flag_ack [] sent).1)
      else if seq_after tcp.seq_num conn.rcv_nxt
      then (buffered, (send_segment env buffered flag_ack [] sent).1)
      else (conn, sent)

  -- The arms of `match conn.state`, one function each.
  unfoldable pub on_listen : Tcb → TcpHeader → Ip → Sent → Tcb × Sent
  on_listen conn tcp src_ip sent =
      let iss = generate_iss env in
      let conn' = record conn {
        irs = tcp.seq_num;
        rcv_nxt = wrapping_add32 tcp.seq_num 1;
        iss = iss;
        snd_nxt = iss;
        snd_una = iss;
        snd_wnd = tcp.window;
        remote_ip = src_ip;
        remote_port = tcp.src_port;
      } in
      let (done, sent') = send_segment env conn' (flag_syn + flag_ack) [] sent in
      if is_syn tcp && not (is_ack tcp)
      then if done
        then (
          record conn' {
            snd_nxt = wrapping_add32 conn'.snd_nxt 1;
            state = syn_received;
            last_send_time = env.now;
            retransmit_timer = env.now + conn'.rto;
          },
          sent',
        )
        else (conn', sent')
      else (conn, sent)

  unfoldable pub on_syn_sent : Tcb → TcpHeader → Sent → Tcb × Sent
  on_syn_sent conn tcp sent =
      let opened = record conn { irs = tcp.seq_num; rcv_nxt = wrapping_add32 tcp.seq_num 1 } in
      let answered = record opened { snd_una = tcp.ack_num; snd_wnd = tcp.window } in
      let (acked, sent_ack) = send_segment env answered flag_ack [] sent in
      let (both, sent_both) = send_segment env opened (flag_syn + flag_ack) [] sent in
      if is_syn tcp && is_ack tcp
      then if tcp.ack_num == conn.snd_nxt
        then if acked
          then (update_rtt env (record answered { state = established }), sent_ack)
          else (answered, sent_ack)
        else (conn, sent)
      else if is_syn tcp
      then if both then (record opened { state = syn_received }, sent_both) else (opened, sent_both)
      else (conn, sent)

  unfoldable pub on_syn_received : Tcb → TcpHeader → List ℕ → Sent → Tcb × Sent
  on_syn_received conn tcp input sent =
      let open_conn =
        update_rtt env
          (record conn { snd_una = tcp.ack_num; snd_wnd = tcp.window; state = established }) in
      if is_ack tcp && (tcp.ack_num == conn.snd_nxt)
      then process_data open_conn tcp input sent
      else (conn, sent)

  unfoldable pub on_established : Tcb → TcpHeader → List ℕ → Sent → Tcb × Sent
  on_established conn tcp input sent =
      let (conn₁, sent₁) =
        if is_ack tcp then process_ack env conn tcp.ack_num sent else (conn, sent) in
      let (conn₂, sent₂) = process_data conn₁ tcp input sent₁ in
      let closed_conn = record conn₂ {
        rcv_nxt = wrapping_add32 conn₂.rcv_nxt 1;
        remote_closed = true;
      } in
      if is_fin tcp
      then (
        record closed_conn { state = close_wait },
        (send_segment env closed_conn flag_ack [] sent₂).1,
      )
      else (conn₂, sent₂)

  -- A FIN is counted and acknowledged, and the state changes whether or not the packet went out.
  unfoldable pub take_fin : TcpState → Tcb → Sent → Tcb × Sent
  take_fin next conn sent =
      let conn' = record conn { rcv_nxt = wrapping_add32 conn.rcv_nxt 1 } in
      (record conn' { state = next }, (send_segment env conn' flag_ack [] sent).1)

  abbrev pub start_time_wait : Tcb → Tcb
  start_time_wait conn = record conn { time_wait_timer = env.now + time_wait_timeout }

  unfoldable pub on_fin_wait1 : Tcb → TcpHeader → Sent → Tcb × Sent
  on_fin_wait1 conn tcp sent =
      let acked = record conn { snd_una = tcp.ack_num } in
      let (both, sent_both) = take_fin time_wait acked sent in
      if is_ack tcp && (tcp.ack_num == conn.snd_nxt)
      then if is_fin tcp
        then (start_time_wait both, sent_both)
        else (record acked { state = fin_wait2 }, sent)
      else if is_fin tcp
      then take_fin closing conn sent
      else (conn, sent)

  unfoldable pub on_fin_wait2 : Tcb → TcpHeader → Sent → Tcb × Sent
  on_fin_wait2 conn tcp sent =
      let (waiting, sent') = take_fin time_wait conn sent in
      if is_fin tcp then (start_time_wait waiting, sent') else (conn, sent)

  unfoldable pub on_close_wait : Tcb → TcpHeader → Sent → Tcb × Sent
  on_close_wait conn tcp sent =
      if is_ack tcp then process_ack env conn tcp.ack_num sent else (conn, sent)

  unfoldable pub on_closing : Tcb → TcpHeader → Sent → Tcb × Sent
  on_closing conn tcp sent =
      if is_ack tcp && (tcp.ack_num == conn.snd_nxt)
      then (start_time_wait (record conn { state = time_wait }), sent)
      else (conn, sent)

  unfoldable pub on_last_ack : Tcb → TcpHeader → Sent → Tcb × Sent
  on_last_ack conn tcp sent =
      if is_ack tcp && (tcp.ack_num == conn.snd_nxt) then (Tcb.new, sent) else (conn, sent)

  unfoldable pub by_state : TcpState → Tcb → TcpHeader → List ℕ → Ip → Sent → Tcb × Sent
  by_state closed conn tcp input src_ip sent = (conn, sent)
  by_state listen conn tcp input src_ip sent = on_listen conn tcp src_ip sent
  by_state syn_sent conn tcp input src_ip sent = on_syn_sent conn tcp sent
  by_state syn_received conn tcp input src_ip sent = on_syn_received conn tcp input sent
  by_state established conn tcp input src_ip sent = on_established conn tcp input sent
  by_state fin_wait1 conn tcp input src_ip sent = on_fin_wait1 conn tcp sent
  by_state fin_wait2 conn tcp input src_ip sent = on_fin_wait2 conn tcp sent
  by_state close_wait conn tcp input src_ip sent = on_close_wait conn tcp sent
  by_state closing conn tcp input src_ip sent = on_closing conn tcp sent
  by_state last_ack conn tcp input src_ip sent = on_last_ack conn tcp sent
  by_state time_wait conn tcp input src_ip sent = (conn, sent)

  unfoldable pub process_segment : Tcb → TcpHeader → List ℕ → Ip → Sent → Tcb × Sent
  unfolding by_state
  process_segment conn tcp input src_ip sent =
      if is_rst tcp then (Tcb.new, sent) else by_state conn.state conn tcp input src_ip sent
