-- ===== src/Net/Tcp/Segment/Valid.antt =====
-- The invariant of a control block, and that every segment keeps it: the queues are queues, the
-- sequence numbers are words, the congestion window never reaches zero (the code divides by it)
-- and the retransmission timeout keeps its bounds.
use ralph_os.Base.{
  ℕ, zero, suc, ◌*◌, ◌^◌, ◌≤◌, ◌<◌, ◌≡◌, refl, ◌∙◌, ◌&&◌, some, List, [], ◌∷◌, arith, ◌==◌, inl,
  inr, Bool-cases, Option-cases, length,
}
use ralph_os.Net.Bytes.{Ip, wrapping_sub32}
use ralph_os.Net.Env.{Env, Sent}
use ralph_os.Net.Tcp.Header.{TcpHeader, payload, is_rst, is_ack, mss}
use ralph_os.Net.Tcp.Ring
use ralph_os.Net.Tcp.Ring.{rx_buffer_size}
use ralph_os.Net.Tcp.Ring.Queue.{IsRing, new-IsRing, write_lem, consume_lem}
use ralph_os.Net.Tcp.Tcb
use ralph_os.Net.Tcp.Tcb.{
  TcpState, closed, listen, syn_sent, syn_received, established, fin_wait1, fin_wait2, close_wait,
  closing, last_ack, time_wait, Tcb, OooSegment, min_rto, max_rto, update_rcv_wnd, ooo_buffer_size,
}
use ralph_os.Net.Tcp.Send.{
  generate_iss, update_rtt, retransmit, new_ack, duplicate_ack, process_ack,
}
use ralph_os.Net.Tcp.Segment.{
  put_ooo, buffer_ooo_segment, take_ready, deliver_one, deliver_loop, deliver_ooo_segments,
  store_data, accept_data, process_data, on_listen, on_syn_sent, on_syn_received, on_established,
  take_fin, on_fin_wait1, on_fin_wait2, on_close_wait, on_closing, on_last_ack, by_state,
  process_segment,
}

-- The fields that congestion control and the timers use.
pub record IsTimed (c : Tcb) : Type 0 where
  pub cwnd_lo : mss ≤ c.cwnd
  pub cwnd_hi : c.cwnd < 2 ^ 32
  pub ssthresh_lo : 2 * mss ≤ c.ssthresh
  pub ssthresh_hi : c.ssthresh ≤ 2 ^ 31
  pub rto_lo : min_rto ≤ c.rto
  pub rto_hi : c.rto ≤ max_rto

-- The sequence space, the queues and the slots.
pub record IsSpace (c : Tcb) : Type 0 where
  pub una_in : c.snd_una < 2 ^ 32
  pub nxt_in : c.snd_nxt < 2 ^ 32
  pub rcv_in : c.rcv_nxt < 2 ^ 32
  pub wnd_in : c.rcv_wnd ≤ rx_buffer_size
  pub slots : length c.ooo_segments ≡ ooo_buffer_size
  pub rx : IsRing c.rx_buffer
  pub tx : IsRing c.tx_buffer

pub record IsTcb (c : Tcb) : Type 0 where
  pub timed : IsTimed c
  pub space : IsSpace c

-- The numbers of a header that comes from a packet.
pub record IsHeader (h : TcpHeader) : Type 0 where
  pub seq_in : h.seq_num < 2 ^ 32
  pub ack_in : h.ack_num < 2 ^ 32

pub new-IsTcb : IsTcb Tcb.new
unfolding Tcb.new
new-IsTcb = record {
  timed = omega arith;
  space = record {
    una_in = omega arith;
    nxt_in = omega arith;
    rcv_in = omega arith;
    wnd_in = omega arith;
    slots = refl;
    rx = new-IsRing;
    tx = new-IsRing;
  };
}

module _ (env : Env) where
  pub update_rtt-IsTimed : (c : Tcb) → IsTimed c → IsTimed (update_rtt env c)
  unfolding update_rtt
  update_rtt-IsTimed c v = omega (arith, v)

  pub retransmit-IsTcb : (c : Tcb) (sent : Sent) → IsTcb c → IsTcb (retransmit env c sent).0
  unfolding retransmit
  retransmit-IsTcb c sent v = ground arith

  pub new_ack-IsTcb : (c : Tcb) (ack : ℕ) → ack < 2 ^ 32 → IsTcb c → IsTcb (new_ack env c ack)
  unfolding new_ack update_rtt
  new_ack-IsTcb c ack h v = ground (arith, consume_lem (wrapping_sub32 ack c.snd_una) c.tx_buffer)

  duplicate_ack-IsTcb : (c : Tcb) (sent : Sent) → IsTcb c → IsTcb (duplicate_ack env c sent).0
  unfolding duplicate_ack retransmit
  duplicate_ack-IsTcb c sent v = ground arith

  pub process_ack-IsTcb :
      (c : Tcb) (ack : ℕ) (sent : Sent)
      → ack < 2 ^ 32
      → IsTcb c
      → IsTcb (process_ack env c ack sent).0
  unfolding process_ack
  process_ack-IsTcb c ack sent h v =
      ground (arith, new_ack-IsTcb c ack h v, duplicate_ack-IsTcb c sent v)

length-put_ooo :
    (seq : ℕ) (body : List ℕ) (segs : List OooSegment)
    → length (put_ooo seq body segs) ≡ length segs
unfolding put_ooo
length-put_ooo seq body [] = refl
length-put_ooo seq body (s ∷ segs) = ground (arith, length-put_ooo seq body segs)

length-take_ready :
    (q : ℕ) (segs : List OooSegment) (body : List ℕ) (rest : List OooSegment)
    → take_ready q segs ≡ some (body, rest)
    → length rest ≡ length segs
unfolding take_ready
length-take_ready q [] body rest e = cc
length-take_ready q (s ∷ segs) body rest e = elim (Option-cases (take_ready q segs)) [
  | inl failed ↦ ground arith
  | inr (r, found) ↦ ground (arith, length-take_ready q segs r.0 r.1)
]

deliver_one-IsTcb :
    (c : Tcb) (body : List ℕ) (segs : List OooSegment)
    → length segs ≡ ooo_buffer_size
    → IsTcb c
    → IsTcb (deliver_one body segs c)
unfolding deliver_one
deliver_one-IsTcb c body segs h v = ground (arith, write_lem body c.rx_buffer)

deliver_loop-IsTcb : (fuel : ℕ) (c : Tcb) → IsTcb c → IsTcb (deliver_loop fuel c)
unfolding deliver_loop
deliver_loop-IsTcb zero c v = v
deliver_loop-IsTcb (suc fuel) c v = elim (Option-cases (take_ready c.rcv_nxt c.ooo_segments)) [
  | inl done ↦ rw (done, deliver_loop) v
  | inr (r, more) ↦
      rw (more, deliver_loop)
        (deliver_loop-IsTcb fuel (deliver_one r.0 r.1 c) (
          deliver_one-IsTcb c r.0 r.1
            (length-take_ready c.rcv_nxt c.ooo_segments r.0 r.1 more ∙ v.space.slots) v))
]

pub accept_data-IsTcb : (c : Tcb) (body : List ℕ) → IsTcb c → IsTcb (accept_data c body)
unfolding accept_data deliver_ooo_segments
accept_data-IsTcb c body v =
    deliver_loop-IsTcb (length (store_data c body).ooo_segments) (store_data c body) stored
  where
    stored : IsTcb (store_data c body)
    stored =
        unfold store_data update_rcv_wnd Ring.free_space in
        ground (arith, write_lem body c.rx_buffer)

pub buffer_ooo_segment-IsTcb :
    (c : Tcb) (seq : ℕ) (body : List ℕ) → IsTcb c → IsTcb (buffer_ooo_segment c seq body)
unfolding buffer_ooo_segment
buffer_ooo_segment-IsTcb c seq body v = ground (arith, length-put_ooo seq body c.ooo_segments)

module _ (env : Env) where
  pub process_data-IsTcb :
      (c : Tcb) (h : TcpHeader) (input : List ℕ) (sent : Sent)
      → IsTcb c
      → IsTcb (process_data env c h input sent).0
  unfolding process_data
  process_data-IsTcb c h input sent v = ground (
    arith,
    accept_data-IsTcb c (payload h input) v,
    buffer_ooo_segment-IsTcb c h.seq_num (payload h input) v,
  )

  on_established-IsTcb :
      (c : Tcb) (h : TcpHeader) (input : List ℕ) (sent : Sent)
      → IsHeader h
      → IsTcb c
      → IsTcb (on_established env c h input sent).0
  unfolding on_established
  on_established-IsTcb c h input sent r v = ground (
    arith,
    process_ack-IsTcb env c h.ack_num sent r.ack_in v,
    process_data-IsTcb c h input sent v,
    process_data-IsTcb (process_ack env c h.ack_num sent).0 h input
        (process_ack env c h.ack_num sent).1,
  )

  on_syn_received-IsTcb :
      (c : Tcb) (h : TcpHeader) (input : List ℕ) (sent : Sent)
      → IsHeader h
      → IsTcb c
      → IsTcb (on_syn_received env c h input sent).0
  unfolding on_syn_received
  on_syn_received-IsTcb c h input sent r v =
      let opened = record c { snd_una = h.ack_num; snd_wnd = h.window; state = established } in
      let ok : IsTcb (update_rtt env opened) = unfold update_rtt in omega (arith, v, r) in
      elim (Bool-cases (is_ack h && (h.ack_num == c.snd_nxt))) [
        | inl acked ↦ rw acked (process_data-IsTcb (update_rtt env opened) h input sent ok)
        | inr other ↦ rw other v
      ]

  by_state-IsTcb :
      (s : TcpState) (c : Tcb) (h : TcpHeader) (input : List ℕ) (src : Ip) (sent : Sent)
      → IsHeader h
      → IsTcb c
      → IsTcb (by_state env s c h input src sent).0
  unfolding by_state
  by_state-IsTcb closed c h input src sent r v = v
  by_state-IsTcb listen c h input src sent r v = unfold on_listen generate_iss in ground arith
  by_state-IsTcb syn_sent c h input src sent r v = unfold on_syn_sent update_rtt in ground arith
  by_state-IsTcb syn_received c h input src sent r v = on_syn_received-IsTcb c h input sent r v
  by_state-IsTcb established c h input src sent r v = on_established-IsTcb c h input sent r v
  by_state-IsTcb fin_wait1 c h input src sent r v = unfold on_fin_wait1 take_fin in ground arith
  by_state-IsTcb fin_wait2 c h input src sent r v = unfold on_fin_wait2 take_fin in ground arith
  by_state-IsTcb close_wait c h input src sent r v =
      unfold on_close_wait in ground (arith, process_ack-IsTcb env c h.ack_num sent r.ack_in v)
  by_state-IsTcb closing c h input src sent r v = unfold on_closing in ground arith
  by_state-IsTcb last_ack c h input src sent r v = unfold on_last_ack in ground (arith, new-IsTcb)
  by_state-IsTcb time_wait c h input src sent r v = v

  -- A segment whose sequence numbers are 32-bit words, in whatever state it finds the connection,
  -- keeps the invariant of the control block.
  pub process_segment-IsTcb :
      (c : Tcb) (h : TcpHeader) (input : List ℕ) (src : Ip) (sent : Sent)
      → IsHeader h
      → IsTcb c
      → IsTcb (process_segment env c h input src sent).0
  unfolding process_segment
  process_segment-IsTcb c h input src sent r v = elim (Bool-cases (is_rst h)) [
    | inl rst ↦ rw rst new-IsTcb
    | inr other ↦ rw other (by_state-IsTcb c.state c h input src sent r v)
  ]
