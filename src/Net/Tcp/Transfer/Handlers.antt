-- ===== src/Net/Tcp/Transfer/Handlers.antt =====
-- The handlers of an open connection in src/net/tcp.rs, and the sender's half of its state.
use mathlib.Core.Path.{subst}
use ralph_os.Base.{
  ℕ, zero, suc, ◌+◌, ◌*◌, ◌/◌, ◌%◌, max, ◌^◌, ◌≤◌, ◌<◌, ◌≡◌, refl, sym, ◌∙◌, true, not, ◌&&◌, List,
  arith, length, Bool-cases, inl, inr, ◌==◌, Option-cases, ltb,
}
use ralph_os.Net.Bytes.{wrapping_sub32, saturating_add32}
use ralph_os.Net.Env.{Env, Sent}
use ralph_os.Net.Tcp.Header.{mss, TcpHeader, payload}
use ralph_os.Net.Tcp.Ring
use ralph_os.Net.Tcp.Tcb.{Tcb, seq_after, update_rcv_wnd}
use ralph_os.Net.Tcp.Send.{update_rtt, new_ack, duplicate_ack, process_ack}
use ralph_os.Net.Tcp.Segment.{
  take_ready, deliver_one, deliver_loop, deliver_ooo_segments, store_data, accept_data,
  buffer_ooo_segment, process_data,
}
use ralph_os.Net.Tcp.Segment.Valid.{
  IsTcb, new_ack-IsTcb, accept_data-IsTcb, buffer_ooo_segment-IsTcb,
}
use ralph_os.Net.Tcp.Transfer.Sender.{
  sending, IsSender, IsSending, acked, ack_sent-Carries, retransmit-IsSending,
}

-- What arrives does not touch the sender's half.
sending-deliver_loop : (fuel : ℕ) (c : Tcb) → sending (deliver_loop fuel c) ≡ sending c
unfolding deliver_loop
sending-deliver_loop zero c = refl
sending-deliver_loop (suc fuel) c = elim (Option-cases (take_ready c.rcv_nxt c.ooo_segments)) [
  | inl done ↦ rw (done, deliver_loop) refl
  | inr (r, more) ↦
      rw (more, deliver_loop)
        (sending-deliver_loop fuel (deliver_one r.0 r.1 c) ∙ (unfold deliver_one in refl))
]

sending-accept_data : (c : Tcb) (body : List ℕ) → sending (accept_data c body) ≡ sending c
unfolding accept_data deliver_ooo_segments store_data update_rcv_wnd
sending-accept_data c body =
    sending-deliver_loop (length (store_data c body).ooo_segments) (store_data c body)

module _ (f : ℕ → ℕ) (env : Env) where
  -- Only the sender's half counts.
  pub kept :
      (c d : Tcb) (sent : Sent)
      → IsTcb d
      → sending d ≡ sending c
      → IsSending f c sent
      → IsSending f d sent
  kept c d sent t same v = record {
    tcb = t;
    sender = subst (IsSender f) (sym same) v.sender;
    wire = v.wire;
  }

  sending-new_ack :
      (c : Tcb) (ack : ℕ)
      → sending (new_ack env c ack) ≡ record (sending c) {
        una = ack;
        queue = Ring.consume (wrapping_sub32 ack c.snd_una) c.tx_buffer;
      }
  unfolding new_ack update_rtt
  sending-new_ack c ack = elim (Bool-cases (ack == c.snd_nxt)) [
    | inl all ↦ rw all refl
    | inr some_left ↦ rw some_left refl
  ]

  -- An acknowledgement between the oldest unacknowledged byte and what was sent.
  new_ack-IsSending :
      (c : Tcb) (ack : ℕ) (sent : Sent)
      → ack < 2 ^ 32
      → (seq_after ack c.snd_una && not (seq_after ack c.snd_nxt)) ≡ true
      → IsSending f c sent
      → IsSending f (new_ack env c ack) sent
  new_ack-IsSending c ack sent small new v =
      let s = v.sender in
      let below : wrapping_sub32 ack c.snd_una ≤ wrapping_sub32 c.snd_nxt c.snd_una =
        unfold seq_after in ground (arith, new, s.una_in, s.nxt_in, s.flight, s.ring.len_in) in
      record {
        tcb = new_ack-IsTcb env c ack small v.tcb;
        sender =
            subst (IsSender f) (sym (sending-new_ack c ack))
              (acked f (sending c) s ack small below);
        wire = v.wire;
      }

  duplicate_ack-IsSending :
      (c : Tcb) (sent : Sent)
      → IsSending f c sent
      → IsSending f (duplicate_ack env c sent).0 (duplicate_ack env c sent).1
  unfolding duplicate_ack
  duplicate_ack-IsSending c sent v =
      let count = (c.dup_ack_count + 1) % 2 ^ 8 in
      let counted = record c { dup_ack_count = count } in
      let threshold = max (c.cwnd / 2) (2 * mss) in
      elim (Bool-cases (count == 3)) [
        | inl third ↦
            let slowed = record counted {
              ssthresh = threshold;
              cwnd = (threshold + 3 * mss) % 2 ^ 32;
            } in
            rw third (
              retransmit-IsSending f env slowed sent
                (kept c slowed sent (ground (arith, v.tcb)) refl v))
        | inr other ↦ elim (Bool-cases (ltb 3 count)) [
          | inl more ↦
              let grown = record counted { cwnd = saturating_add32 c.cwnd mss } in
              rw (other, more) (kept c grown sent (ground (arith, v.tcb)) refl v)
          | inr few ↦ rw (other, few) (kept c counted sent (ground (arith, v.tcb)) refl v)
        ]
      ]

  pub process_ack-IsSending :
      (c : Tcb) (ack : ℕ) (sent : Sent)
      → ack < 2 ^ 32
      → IsSending f c sent
      → IsSending f (process_ack env c ack sent).0 (process_ack env c ack sent).1
  unfolding process_ack
  process_ack-IsSending c ack sent small v =
      elim (Bool-cases (seq_after ack c.snd_una && not (seq_after ack c.snd_nxt))) [
        | inl new ↦ rw new (new_ack-IsSending c ack sent small new v)
        | inr other ↦ elim (Bool-cases (ack == c.last_ack_num)) [
          | inl same ↦ rw (other, same) (duplicate_ack-IsSending c sent v)
          | inr stale ↦ rw (other, stale) v
        ]
      ]

  pub process_data-IsSending :
      (c : Tcb) (h : TcpHeader) (input : List ℕ) (sent : Sent)
      → IsSending f c sent
      → IsSending f (process_data env c h input sent).0 (process_data env c h input sent).1
  unfolding process_data
  process_data-IsSending c h input sent v =
      let body = payload h input in
      let accepted = accept_data c body in
      let buffered = buffer_ooo_segment c h.seq_num body in
      elim (Bool-cases (length body == 0)) [
        | inl empty ↦ rw empty v
        | inr some_left ↦ elim (Bool-cases (h.seq_num == c.rcv_nxt)) [
          | inl in_order ↦
              let a =
                kept c accepted sent (accept_data-IsTcb c body v.tcb) (sending-accept_data c body)
                  v in
              rw (some_left, in_order)
                (record {
                  tcb = a.tcb;
                  sender = a.sender;
                  wire = ack_sent-Carries f env accepted sent a;
                })
          | inr not_next ↦ elim (Bool-cases (seq_after h.seq_num c.rcv_nxt)) [
            | inl early ↦
                let b =
                  kept c buffered sent (buffer_ooo_segment-IsTcb c h.seq_num body v.tcb)
                    (unfold buffer_ooo_segment in refl) v in
                rw (some_left, not_next, early)
                  (record {
                    tcb = b.tcb;
                    sender = b.sender;
                    wire = ack_sent-Carries f env buffered sent b;
                  })
            | inr old ↦ rw (some_left, not_next, old) v
          ]
        ]
      ]
