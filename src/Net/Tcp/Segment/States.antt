-- ===== src/Net/Tcp/Segment/States.antt =====
-- The transitions that a segment can cause.
use ralph_os.Base.{
  zero, suc, length, ◌&&◌, ◌==◌, ◌∙◌, inl, inr, Option-cases, Bool-cases, ◌≡◌, refl, Bool, true,
  false, List, ℕ, arith,
}
use ralph_os.Net.Bytes.{Ip}
use ralph_os.Net.Env.{Env, Sent}
use ralph_os.Net.Tcp.Header.{TcpHeader, payload, is_ack, is_rst}
use ralph_os.Net.Tcp.Tcb
use ralph_os.Net.Tcp.Tcb.{
  TcpState, closed, listen, syn_sent, syn_received, established, fin_wait1, fin_wait2, close_wait,
  closing, last_ack, time_wait, Tcb, OooSegment, update_rcv_wnd,
}
use ralph_os.Net.Tcp.Send.{update_rtt, new_ack, duplicate_ack, process_ack, retransmit}
use ralph_os.Net.Tcp.Segment.{
  process_data, on_listen, on_syn_sent, on_syn_received, on_established, take_fin, on_fin_wait1,
  on_fin_wait2, on_close_wait, on_closing, on_last_ack, by_state, process_segment, store_data,
  accept_data, buffer_ooo_segment, deliver_ooo_segments, deliver_loop, deliver_one, take_ready,
}

-- The arrows of the TCP state diagram that an incoming segment may follow: those of the
-- handshake and of the two closes, and the one that a reset takes to `closed`.
abbrev pub arrow : TcpState → TcpState → Bool
arrow listen listen = true
arrow listen syn_received = true
arrow syn_sent syn_sent = true
arrow syn_sent established = true
arrow syn_sent syn_received = true
arrow syn_received syn_received = true
arrow syn_received established = true
arrow established established = true
arrow established close_wait = true
arrow fin_wait1 fin_wait1 = true
arrow fin_wait1 fin_wait2 = true
arrow fin_wait1 time_wait = true
arrow fin_wait1 closing = true
arrow fin_wait2 fin_wait2 = true
arrow fin_wait2 time_wait = true
arrow close_wait close_wait = true
arrow closing closing = true
arrow closing time_wait = true
arrow last_ack last_ack = true
arrow time_wait time_wait = true
arrow _ closed = true
arrow _ _ = false

pub state-update_rtt : (env : Env) (c : Tcb) → (update_rtt env c).state ≡ c.state
unfolding update_rtt
state-update_rtt env c = refl

state-deliver_one :
    (body : List ℕ) (segs : List OooSegment) (c : Tcb) → (deliver_one body segs c).state ≡ c.state
unfolding deliver_one
state-deliver_one body segs c = refl

pub state-deliver_loop : (fuel : ℕ) (c : Tcb) → (deliver_loop fuel c).state ≡ c.state
unfolding deliver_loop
state-deliver_loop zero c = refl
state-deliver_loop (suc fuel) c = elim (Option-cases (take_ready c.rcv_nxt c.ooo_segments)) [
  | inl done ↦ rw (done, deliver_loop) refl
  | inr (r, more) ↦
      rw (more, deliver_loop)
        (state-deliver_loop fuel (deliver_one r.0 r.1 c) ∙ state-deliver_one r.0 r.1 c)
]

state-store_data : (c : Tcb) (body : List ℕ) → (store_data c body).state ≡ c.state
unfolding store_data update_rcv_wnd
state-store_data c body = refl

state-accept_data : (c : Tcb) (body : List ℕ) → (accept_data c body).state ≡ c.state
unfolding accept_data deliver_ooo_segments
state-accept_data c body =
    state-deliver_loop (length (store_data c body).ooo_segments) (store_data c body)
    ∙ state-store_data c body

module _ (env : Env) where
  pub state-process_data :
      (c : Tcb) (h : TcpHeader) (input : List ℕ) (sent : Sent)
      → (process_data env c h input sent).0.state ≡ c.state
  unfolding process_data buffer_ooo_segment
  state-process_data c h input sent = ground (arith, state-accept_data c (payload h input))

  state-retransmit : (c : Tcb) (sent : Sent) → (retransmit env c sent).0.state ≡ c.state
  unfolding retransmit
  state-retransmit c sent = ground arith

  state-new_ack : (c : Tcb) (ack : ℕ) → (new_ack env c ack).state ≡ c.state
  unfolding new_ack update_rtt
  state-new_ack c ack = ground arith

  state-duplicate_ack : (c : Tcb) (sent : Sent) → (duplicate_ack env c sent).0.state ≡ c.state
  unfolding duplicate_ack retransmit
  state-duplicate_ack c sent = ground arith

  pub state-process_ack :
      (c : Tcb) (ack : ℕ) (sent : Sent) → (process_ack env c ack sent).0.state ≡ c.state
  unfolding process_ack
  state-process_ack c ack sent = ground (arith, state-new_ack c ack, state-duplicate_ack c sent)

  -- Each arm, from the state that it handles.
  arrow-on_listen :
      (c : Tcb) (h : TcpHeader) (src : Ip) (sent : Sent)
      → c.state ≡ listen
      → arrow listen (on_listen env c h src sent).0.state ≡ true
  unfolding on_listen
  arrow-on_listen c h src sent e = ground arith

  arrow-on_syn_sent :
      (c : Tcb) (h : TcpHeader) (sent : Sent)
      → c.state ≡ syn_sent
      → arrow syn_sent (on_syn_sent env c h sent).0.state ≡ true
  unfolding on_syn_sent update_rtt
  arrow-on_syn_sent c h sent e = ground arith

  arrow-on_syn_received :
      (c : Tcb) (h : TcpHeader) (input : List ℕ) (sent : Sent)
      → c.state ≡ syn_received
      → arrow syn_received (on_syn_received env c h input sent).0.state ≡ true
  unfolding on_syn_received
  arrow-on_syn_received c h input sent e =
      let opened =
        update_rtt env
          (record c { snd_una = h.ack_num; snd_wnd = h.window; state = established }) in
      elim (Bool-cases (is_ack h && (h.ack_num == c.snd_nxt))) [
        | inl acked ↦
            rw
              (
                acked,
                state-process_data opened h input sent,
                state-update_rtt env
                    (record c { snd_una = h.ack_num; snd_wnd = h.window; state = established }),
              )
              refl
        | inr other ↦ rw (other, e) refl
      ]

  arrow-on_established :
      (c : Tcb) (h : TcpHeader) (input : List ℕ) (sent : Sent)
      → c.state ≡ established
      → arrow established (on_established env c h input sent).0.state ≡ true
  unfolding on_established
  arrow-on_established c h input sent e = ground (
    arith,
    state-process_ack c h.ack_num sent,
    state-process_data c h input sent,
    state-process_data (process_ack env c h.ack_num sent).0 h input
        (process_ack env c h.ack_num sent).1,
  )

  arrow-by_state :
      (s : TcpState) (c : Tcb) (h : TcpHeader) (input : List ℕ) (src : Ip) (sent : Sent)
      → c.state ≡ s
      → arrow s (by_state env s c h input src sent).0.state ≡ true
  unfolding by_state
  arrow-by_state closed c h input src sent e = rw e refl
  arrow-by_state listen c h input src sent e = arrow-on_listen c h src sent e
  arrow-by_state syn_sent c h input src sent e = arrow-on_syn_sent c h sent e
  arrow-by_state syn_received c h input src sent e = arrow-on_syn_received c h input sent e
  arrow-by_state established c h input src sent e = arrow-on_established c h input sent e
  arrow-by_state fin_wait1 c h input src sent e = unfold on_fin_wait1 take_fin in ground arith
  arrow-by_state fin_wait2 c h input src sent e = unfold on_fin_wait2 take_fin in ground arith
  arrow-by_state close_wait c h input src sent e =
      unfold on_close_wait in ground (arith, state-process_ack c h.ack_num sent)
  arrow-by_state closing c h input src sent e = unfold on_closing in ground arith
  arrow-by_state last_ack c h input src sent e = unfold on_last_ack Tcb.new in ground arith
  arrow-by_state time_wait c h input src sent e = rw e refl

  -- Whatever segment arrives, and whether or not packets can be sent, the connection stays in its
  -- state or follows an arrow of the state diagram.
  pub process_segment-arrow :
      (c : Tcb) (h : TcpHeader) (input : List ℕ) (src : Ip) (sent : Sent)
      → arrow c.state (process_segment env c h input src sent).0.state ≡ true
  unfolding process_segment
  process_segment-arrow c h input src sent = elim (Bool-cases (is_rst h)) [
    | inl rst ↦ rw rst (unfold Tcb.new in to_closed c.state)
    | inr other ↦ rw other (arrow-by_state c.state c h input src sent refl)
  ]
    where
      to_closed : (s : TcpState) → arrow s closed ≡ true
      to_closed closed = refl
      to_closed _ = refl
