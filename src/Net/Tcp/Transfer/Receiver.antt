-- ===== src/Net/Tcp/Transfer/Receiver.antt =====
-- A segment of a stream at process_segment of src/net/tcp.rs, in an open connection.
use mathlib.Core.Path.{subst}
use ralph_os.Base.{
  ℕ, ◌^◌, ◌<◌, ◌≡◌, refl, sym, ap, ◌∙◌, false, some, List, ◌++◌, arith, Bool-cases, inl, inr,
  if◌then◌else◌,
}
use ralph_os.Net.Bytes.{Ip, wrapping_add32}
use ralph_os.Net.Env.{Env, Sent, Packet}
use ralph_os.Net.Tcp.Header.{TcpHeader, parse, payload, is_ack, is_rst, is_fin}
use ralph_os.Net.Tcp.Ring.{RingBuffer}
use ralph_os.Net.Tcp.Ring.Queue.{IsRing, contents}
use ralph_os.Net.Tcp.Tcb.{Tcb, TcpState, established, OooSegment}
use ralph_os.Net.Tcp.Send.{retransmit, update_rtt, new_ack, duplicate_ack, process_ack}
use ralph_os.Net.Tcp.Segment.{process_data, on_established, by_state, process_segment}
use ralph_os.Net.Tcp.Segment.States.{state-process_ack, state-process_data}
use ralph_os.Net.Tcp.Segment.Stream.{IsPiece, run, AreHeld, Received, process_data-Received}
use ralph_os.Net.Tcp.Transfer.Wire.{Carries}

-- The receiver's half of a control block.
abbrev receiving : Tcb → RingBuffer × ℕ × List OooSegment
receiving c = (c.rx_buffer, c.rcv_nxt, c.ooo_segments)

module _ (env : Env) where
  receiving-retransmit : (c : Tcb) (sent : Sent) → receiving (retransmit env c sent).0 ≡ receiving c
  unfolding retransmit
  receiving-retransmit c sent = ground arith

  receiving-new_ack : (c : Tcb) (ack : ℕ) → receiving (new_ack env c ack) ≡ receiving c
  unfolding new_ack update_rtt
  receiving-new_ack c ack = ground arith

  receiving-duplicate_ack :
      (c : Tcb) (sent : Sent) → receiving (duplicate_ack env c sent).0 ≡ receiving c
  unfolding duplicate_ack retransmit
  receiving-duplicate_ack c sent = ground arith

  receiving-process_ack :
      (c : Tcb) (ack : ℕ) (sent : Sent) → receiving (process_ack env c ack sent).0 ≡ receiving c
  unfolding process_ack
  receiving-process_ack c ack sent =
      ground (arith, receiving-new_ack c ack, receiving-duplicate_ack c sent)

-- What the acknowledgement of a segment changes, if it has one.
module _ (env : Env) (c : Tcb) (h : TcpHeader) (sent : Sent) where
  abbrev acknowledged : Tcb × Sent
  acknowledged = if is_ack h then process_ack env c h.ack_num sent else (c, sent)

  receiving-acknowledged : receiving acknowledged.0 ≡ receiving c
  receiving-acknowledged = elim (Bool-cases (is_ack h)) [
    | inl ack ↦ rw ack (receiving-process_ack env c h.ack_num sent)
    | inr none_there ↦ rw none_there refl
  ]

  state-acknowledged : acknowledged.0.state ≡ c.state
  state-acknowledged = elim (Bool-cases (is_ack h)) [
    | inl ack ↦ rw ack (state-process_ack env c h.ack_num sent)
    | inr none_there ↦ rw none_there refl
  ]

-- The receiver, open, with pieces of the stream put aside.
pub record IsHearing (f : ℕ → ℕ) (c : Tcb) : Type 0 where
  pub open_state : c.state ≡ established
  pub next_in : c.rcv_nxt < 2 ^ 32
  pub ring : IsRing c.rx_buffer
  pub held : AreHeld f c.ooo_segments

module _ (f : ℕ → ℕ) where
  -- What process_ack does first makes no difference.
  Received-from : (c c' d : Tcb) → receiving c' ≡ receiving c → Received f c' d → Received f c d
  Received-from c c' d same r = record {
    count = r.count;
    queue = r.queue ∙ ap (λ s. contents s.0 ++ run f s.1 r.count) same;
    next = r.next ∙ ap (λ s. wrapping_add32 s.1 r.count) same;
    ring = r.ring;
    held = r.held;
  }

  module _ (env : Env) (src : Ip) where
    -- A segment of the stream, without FIN and RST, in Established.
    established-Received :
        (c : Tcb) (h : TcpHeader) (input : List ℕ) (sent : Sent)
        → IsHearing f c
        → is_fin h ≡ false
        → IsPiece f h.seq_num (payload h input)
        → Received f c (on_established env c h input sent).0
          × ((on_established env c h input sent).0.state ≡ established)
    unfolding on_established
    established-Received c h input sent v no_fin piece =
        let (c1, sent1) = acknowledged env c h sent in
        let same = receiving-acknowledged env c h sent in
        let taken =
          process_data-Received f env c1 h input sent1
            (subst (λ q. q < 2 ^ 32) (sym (ap (λ s. s.1) same)) v.next_in)
            (subst IsRing (sym (ap (λ s. s.0) same)) v.ring)
            (subst (AreHeld f) (sym (ap (λ s. s.2) same)) v.held) piece in
        rw no_fin (
          Received-from c c1 (process_data env c1 h input sent1).0 same taken,
          state-process_data env c1 h input sent1
              ∙ (state-acknowledged env c h sent ∙ v.open_state),
        )

    by_state-established :
        (s : TcpState) (c : Tcb) (h : TcpHeader) (input : List ℕ) (sent : Sent)
        → s ≡ established
        → by_state env s c h input src sent ≡ on_established env c h input sent
    unfolding by_state
    by_state-established s c h input sent e = rw e refl

    pub segment-Received :
        (c : Tcb) (p : Packet) (h : TcpHeader) (sent : Sent)
        → IsHearing f c
        → Carries f p
        → parse p.bytes ≡ some h
        → Received f c (process_segment env c h p.bytes src sent).0
          × ((process_segment env c h p.bytes src sent).0.state ≡ established)
    unfolding process_segment
    segment-Received c p h sent v r e =
        let same : r.header ≡ h = cc in
        let no_rst : is_rst h ≡ false = ap is_rst (sym same) ∙ r.no_rst in
        let no_fin : is_fin h ≡ false = ap is_fin (sym same) ∙ r.no_fin in
        let piece : IsPiece f h.seq_num (payload h p.bytes) =
          subst (λ g. IsPiece f g.seq_num (payload g p.bytes)) same r.piece in
        let handled : process_segment env c h p.bytes src sent
            ≡ on_established env c h p.bytes sent =
          rw no_rst (by_state-established c.state c h p.bytes sent v.open_state) in
        subst (λ q. Received f c q.0 × (q.0.state ≡ established)) (sym handled)
          (established-Received c h p.bytes sent v no_fin piece)
