-- ===== src/Net/Tcp/Transfer/Sender.antt =====
-- The sender's half of a connection of src/net/tcp.rs: the transmit queue and the stream behind it.
use mathlib.Core.Path.{subst}
use ralph_os.Base.{
  ℕ, zero, suc, ◌+◌, ◌-◌, ◌^◌, ◌≤◌, ◌<◌, ◌≡◌, refl, sym, ap, ◌∙◌, min, List, [], arith, All, length,
  take, drop,
}
use ralph_os.Net.Bytes.{wrapping_add32, wrapping_sub32}
use ralph_os.Net.Env.{Env, Sent}
use ralph_os.Net.Tcp.Header.{mss, flag_ack, flag_psh}
use ralph_os.Net.Tcp.Header.Roundtrip.{AreFields}
use ralph_os.Net.Tcp.Ring
use ralph_os.Net.Tcp.Ring.{RingBuffer}
use ralph_os.Net.Tcp.Ring.Queue.{IsRing, contents, peek_offset_lem, consume_lem}
use ralph_os.Net.Tcp.Tcb.{Tcb}
use ralph_os.Net.Tcp.Send.{send_segment_seq, send_segment, retransmit, send_pending_data}
use ralph_os.Net.Tcp.Segment.Valid.{IsTcb, retransmit-IsTcb}
use ralph_os.Net.Tcp.Segment.Stream.{IsPiece, run, run_at, length-run, take-run}
use ralph_os.Net.Tcp.Table.Reach.{send_pending_data-IsTcb}
use ralph_os.Net.Tcp.Transfer.Wire.{Carries, send_segment_seq-Carries}

-- What of a control block the sender's half is about.
pub record Sending : Type 0 where
  pub queue : RingBuffer
  pub una : ℕ
  pub nxt : ℕ
  pub local_port : ℕ
  pub remote_port : ℕ

abbrev pub sending : Tcb → Sending
sending c = record {
  queue = c.tx_buffer;
  una = c.snd_una;
  nxt = c.snd_nxt;
  local_port = c.local_port;
  remote_port = c.remote_port;
}

-- The transmit queue is the stream from the oldest unacknowledged byte on, and what is in flight is in
-- the queue.
pub record IsSender (f : ℕ → ℕ) (s : Sending) : Type 0 where
  pub ring : IsRing s.queue
  pub una_in : s.una < 2 ^ 32
  pub nxt_in : s.nxt < 2 ^ 32
  pub local_in : s.local_port < 2 ^ 16
  pub remote_in : s.remote_port < 2 ^ 16
  pub bytes : contents s.queue ≡ run f s.una s.queue.len
  pub flight : wrapping_sub32 s.nxt s.una ≤ s.queue.len

drop-run :
    (f : ℕ → ℕ) (s k n : ℕ) → s < 2 ^ 32 → drop k (run f s n) ≡ run f (wrapping_add32 s k) (n - k)
unfolding run
drop-run f s zero n h = run_at f s (wrapping_add32 s 0) n (n - 0) (omega arith) (omega arith)
drop-run f s (suc k) zero h =
    let q = wrapping_add32 s (suc k) in run_at f q q 0 (0 - suc k) refl (omega arith)
drop-run f s (suc k) (suc n) h =
    drop-run f (wrapping_add32 s 1) k n (omega arith)
    ∙ run_at f (wrapping_add32 (wrapping_add32 s 1) k) (wrapping_add32 s (suc k)) (n - k)
        (suc n - suc k) (omega arith) (omega arith)

-- The bytes that a segment takes out of the queue, from an offset on.
module _ (f : ℕ → ℕ) (s : Sending) (v : IsSender f s) where
  peeked :
      (offset n : ℕ) → IsPiece f (wrapping_add32 s.una offset) (Ring.peek_offset offset n s.queue)
  peeked offset n = IsPiece-run _ _ (
      peek_offset_lem offset n s.queue v.ring
      ∙ (ap (λ l. take n (drop offset l)) v.bytes
          ∙ (ap (take n) (drop-run f s.una offset s.queue.len v.una_in)
              ∙ take-run f (wrapping_add32 s.una offset) n (s.queue.len - offset))))
    where
      IsPiece-run : (q k : ℕ) {l : List ℕ} → l ≡ run f q k → IsPiece f q l
      IsPiece-run q k {l} e =
          e ∙ run_at f q q k (length l) refl (sym (ap length e ∙ length-run f q k))

  -- An acknowledgement of what is in flight drops it from the queue.
  pub acked :
      (ack : ℕ)
      → ack < 2 ^ 32
      → wrapping_sub32 ack s.una ≤ wrapping_sub32 s.nxt s.una
      → IsSender f (record s { una = ack; queue = Ring.consume (wrapping_sub32 ack s.una) s.queue })
  acked ack small le =
      let k = wrapping_sub32 ack s.una in
      let (rest, ring) = consume_lem k s.queue v.ring in
      record {
        ring = ring;
        una_in = small;
        nxt_in = v.nxt_in;
        local_in = v.local_in;
        remote_in = v.remote_in;
        bytes =
            rest
            ∙ (ap (drop k) v.bytes
                ∙ (drop-run f s.una k s.queue.len v.una_in
                    ∙ run_at f (wrapping_add32 s.una k) ack (s.queue.len - k)
                        (Ring.consume k s.queue).len (omega arith)
                        (unfold Ring.consume in omega arith)));
        flight = unfold Ring.consume in omega (arith, v.flight, v.una_in, v.nxt_in);
      }

-- The numbers of a segment that such a connection sends.
fields_in :
    (f : ℕ → ℕ) (c : Tcb) (seq flags : ℕ)
    → IsTcb c
    → IsSender f (sending c)
    → seq < 2 ^ 32
    → flags < 64
    → AreFields c.local_port c.remote_port seq c.rcv_nxt flags c.rcv_wnd
fields_in f c seq flags t v seq_in flags_in = record {
  src_in = v.local_in;
  dst_in = v.remote_in;
  seq_in = seq_in;
  ack_in = t.space.rcv_in;
  flags_in = flags_in;
  window_in = omega (arith, t.space.wnd_in);
}

-- A connection that sends the stream, and packets that carry pieces of it.
pub record IsSending (f : ℕ → ℕ) (c : Tcb) (sent : Sent) : Type 0 where
  pub tcb : IsTcb c
  pub sender : IsSender f (sending c)
  pub wire : All (Carries f) sent

module _ (f : ℕ → ℕ) (env : Env) where
  -- An acknowledgement without data.
  pub ack_sent-Carries :
      (c : Tcb) (sent : Sent)
      → IsSending f c sent
      → All (Carries f) (send_segment env c flag_ack [] sent).1
  unfolding send_segment run
  ack_sent-Carries c sent v =
      send_segment_seq-Carries f env c c.snd_nxt flag_ack []
        (fields_in f c c.snd_nxt flag_ack v.tcb v.sender v.sender.nxt_in (omega arith)) sent refl
        refl refl v.wire

  -- A segment with bytes of the queue.
  data_sent-Carries :
      (c : Tcb) (seq offset n : ℕ) (sent : Sent)
      → seq ≡ wrapping_add32 c.snd_una offset
      → IsSending f c sent
      → All
          (Carries f)
          (send_segment_seq env c seq
            (flag_ack + flag_psh)
            (Ring.peek_offset offset n c.tx_buffer)
            sent).1
  data_sent-Carries c seq offset n sent e v =
      send_segment_seq-Carries f env c seq (flag_ack + flag_psh)
        (Ring.peek_offset offset n c.tx_buffer)
        (fields_in f c seq (flag_ack + flag_psh) v.tcb v.sender (omega (arith, e)) (omega arith))
        sent refl refl
        (subst (λ q. IsPiece f q (Ring.peek_offset offset n c.tx_buffer)) (sym e)
          (peeked f (sending c) v.sender offset n))
        v.wire

  -- What is sent again is the front of the queue.
  pub retransmit-IsSending :
      (c : Tcb) (sent : Sent)
      → IsSending f c sent
      → IsSending f (retransmit env c sent).0 (retransmit env c sent).1
  unfolding retransmit Ring.available
  retransmit-IsSending c sent v = record {
    tcb = retransmit-IsTcb env c sent v.tcb;
    sender = ground arith;
    wire =
        let in_flight = wrapping_sub32 c.snd_nxt c.snd_una in
        let unacked = min (Ring.available c.tx_buffer) in_flight in
        let again =
          data_sent-Carries c c.snd_una 0 (min unacked mss) sent (omega (arith, v.sender.una_in))
            v in
        ground (arith, again);
  }

  -- What is sent for the first time lies behind what is in flight.
  pub send_pending_data-IsSending :
      (c : Tcb) (sent : Sent)
      → IsSending f c sent
      → IsSending f (send_pending_data env c sent).0 (send_pending_data env c sent).1
  unfolding send_pending_data send_segment Ring.available
  send_pending_data-IsSending c sent v = record {
    tcb = send_pending_data-IsTcb env c sent v.tcb;
    sender = ground arith;
    wire =
        let flight = wrapping_sub32 c.snd_nxt c.snd_una in
        let unsent = c.tx_buffer.len - flight in
        let can_send = min c.snd_wnd c.cwnd - flight in
        let new =
          data_sent-Carries c c.snd_nxt flight (min (min unsent can_send) mss) sent
            (omega (arith, v.sender.una_in, v.sender.nxt_in)) v in
        ground (arith, new);
  }
