-- ===== src/Net/Tcp/Transfer/Steps.antt =====
-- process_segment and process_timers of src/net/tcp.rs, and the sender's half of an open connection.
use ralph_os.Base.{
  ℕ, ◌*◌, ◌/◌, ◌≡◌, refl, Bool, true, false, min, max, ◌&&◌, List, [], arith, All, Bool-cases, inl,
  inr, leb, ltb, if◌then◌else◌,
}
use ralph_os.Net.Bytes.{Ip, wrapping_add32}
use ralph_os.Net.Env.{Env, Sent}
use ralph_os.Net.Tcp.Header.{mss, TcpHeader, is_ack, is_rst, is_fin, flag_ack}
use ralph_os.Net.Tcp.Ring
use ralph_os.Net.Tcp.Ring.{rx_buffer_size}
use ralph_os.Net.Tcp.Ring.Queue.{contents, new-IsRing}
use ralph_os.Net.Tcp.Tcb
use ralph_os.Net.Tcp.Tcb.{
  Tcb, TcpState, closed, listen, syn_sent, syn_received, established, fin_wait1, fin_wait2,
  close_wait, closing, last_ack, time_wait, max_rto, update_rcv_wnd,
}
use ralph_os.Net.Tcp.Send.{send_segment, process_ack}
use ralph_os.Net.Tcp.Segment.{
  process_data, on_established, on_close_wait, by_state, process_segment,
}
use ralph_os.Net.Tcp.Segment.Stream.{run}
use ralph_os.Net.Tcp.Segment.Valid.{IsHeader, new-IsTcb}
use ralph_os.Net.Tcp.Table.{on_timeout, tick, is_established, is_time_wait}
use ralph_os.Net.Tcp.Transfer.Wire.{Carries}
use ralph_os.Net.Tcp.Transfer.Sender.{
  IsSending, ack_sent-Carries, retransmit-IsSending, send_pending_data-IsSending,
}
use ralph_os.Net.Tcp.Transfer.Handlers.{kept, process_ack-IsSending, process_data-IsSending}

-- The states in which a program may send: before its own FIN.
abbrev pub is_open : TcpState → Bool
is_open established = true
is_open close_wait = true
is_open _ = false

module _ (f : ℕ → ℕ) where
  -- A control block that was reset.
  new-IsSending : (sent : Sent) → All (Carries f) sent → IsSending f Tcb.new sent
  unfolding Tcb.new Ring.new contents run ralph_os.Net.Tcp.Ring.read_loop
  new-IsSending sent wire = record {
    tcb = new-IsTcb;
    sender = record {
      ring = new-IsRing;
      una_in = omega arith;
      nxt_in = omega arith;
      local_in = omega arith;
      remote_in = omega arith;
      bytes = refl;
      flight = omega arith;
    };
    wire = wire;
  }

  module _ (env : Env) where
    acked-IsSending :
        (c : Tcb) (h : TcpHeader) (sent : Sent)
        → IsHeader h
        → IsSending f c sent
        → let r = if is_ack h then process_ack env c h.ack_num sent else (c, sent) in
          IsSending f r.0 r.1
    acked-IsSending c h sent r v = elim (Bool-cases (is_ack h)) [
      | inl ack ↦ rw ack (process_ack-IsSending f env c h.ack_num sent r.ack_in v)
      | inr none_there ↦ rw none_there v
    ]

    -- The peer's FIN.
    finished-IsSending :
        (c : Tcb) (sent : Sent)
        → IsSending f c sent
        → let d = record c { rcv_nxt = wrapping_add32 c.rcv_nxt 1; remote_closed = true } in
          IsSending f (record d { state = close_wait }) (send_segment env d flag_ack [] sent).1
    finished-IsSending c sent v =
        let d = record c { rcv_nxt = wrapping_add32 c.rcv_nxt 1; remote_closed = true } in
        let w = kept f env c d sent (ground (arith, v.tcb)) refl v in
        record {
          tcb = ground (arith, v.tcb);
          sender = w.sender;
          wire = ack_sent-Carries f env d sent w;
        }

    on_established-IsSending :
        (c : Tcb) (h : TcpHeader) (input : List ℕ) (sent : Sent)
        → IsHeader h
        → IsSending f c sent
        → IsSending f (on_established env c h input sent).0 (on_established env c h input sent).1
    unfolding on_established
    on_established-IsSending c h input sent r v =
        let (c1, sent1) = if is_ack h then process_ack env c h.ack_num sent else (c, sent) in
        let (c2, sent2) = process_data env c1 h input sent1 in
        let v2 = process_data-IsSending f env c1 h input sent1 (acked-IsSending c h sent r v) in
        elim (Bool-cases (is_fin h)) [
          | inl fin ↦ rw fin (finished-IsSending c2 sent2 v2)
          | inr more ↦ rw more v2
        ]

    by_state-IsSending :
        (s : TcpState) (c : Tcb) (h : TcpHeader) (input : List ℕ) (src : Ip) (sent : Sent)
        → is_open s ≡ true
        → IsHeader h
        → IsSending f c sent
        → IsSending f (by_state env s c h input src sent).0 (by_state env s c h input src sent).1
    unfolding by_state
    by_state-IsSending established c h input src sent o r v =
        on_established-IsSending c h input sent r v
    by_state-IsSending close_wait c h input src sent o r v =
        unfold on_close_wait in acked-IsSending c h sent r v
    by_state-IsSending _ c h input src sent o r v = cc

    pub process_segment-IsSending :
        (c : Tcb) (h : TcpHeader) (input : List ℕ) (src : Ip) (sent : Sent)
        → is_open c.state ≡ true
        → IsHeader h
        → IsSending f c sent
        → IsSending f
            (process_segment env c h input src sent).0
            (process_segment env c h input src sent).1
    unfolding process_segment
    process_segment-IsSending c h input src sent o r v = elim (Bool-cases (is_rst h)) [
      | inl rst ↦ rw rst (new-IsSending sent v.wire)
      | inr other ↦ rw other (by_state-IsSending c.state c h input src sent o r v)
    ]

    on_timeout-IsSending :
        (c : Tcb) (sent : Sent)
        → IsSending f c sent
        → IsSending f (on_timeout env c sent).0 (on_timeout env c sent).1
    unfolding on_timeout
    on_timeout-IsSending c sent v =
        let slowed = record c {
          rto = min (c.rto * 2) max_rto;
          ssthresh = max (c.cwnd / 2) (2 * mss);
          cwnd = mss;
        } in
        elim (Bool-cases (leb 5 c.retransmit_count)) [
          | inl last ↦ rw last (new-IsSending sent v.wire)
          | inr again ↦ rw again (
              retransmit-IsSending f env slowed sent
                (kept f env c slowed sent (ground (arith, v.tcb)) refl v))
        ]

    timed-IsSending :
        (c : Tcb) (sent : Sent)
        → IsSending f c sent
        → let r =
            if ltb 0 c.retransmit_timer && leb c.retransmit_timer env.now
            then on_timeout env c sent
            else (c, sent) in
          IsSending f r.0 r.1
    timed-IsSending c sent v =
        elim (Bool-cases (ltb 0 c.retransmit_timer && leb c.retransmit_timer env.now)) [
          | inl due ↦ rw due (on_timeout-IsSending c sent v)
          | inr early ↦ rw early v
        ]

    pub tick-IsSending :
        (c : Tcb) (sent : Sent)
        → IsSending f c sent
        → IsSending f (tick env c sent).0 (tick env c sent).1
    unfolding tick
    tick-IsSending c sent v =
        let (d, sent1) =
          if ltb 0 c.retransmit_timer && leb c.retransmit_timer env.now
          then on_timeout env c sent
          else (c, sent) in
        let w = timed-IsSending c sent v in
        elim (Bool-cases c.in_use) [
          | inr unused ↦ simp unused v
          | inl used ↦ elim (Bool-cases (is_time_wait c.state)) [
            | inl waiting ↦ elim (Bool-cases (leb c.time_wait_timer env.now)) [
              | inl over ↦ simp (used, waiting, over) (new-IsSending sent v.wire)
              | inr early ↦ simp (used, waiting, early) v
            ]
            | inr other ↦ elim (Bool-cases (is_established d.state)) [
              | inl sends ↦ simp (used, other, sends) (send_pending_data-IsSending f env d sent1 w)
              | inr silent ↦ simp (used, other, silent) w
            ]
          ]
        ]
