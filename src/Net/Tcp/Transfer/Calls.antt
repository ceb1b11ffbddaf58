-- ===== src/Net/Tcp/Transfer/Calls.antt =====
-- The socket calls of src/net/tcp.rs on the sending side: connect, write and read.
use ralph_os.Base.{
  ℕ, ◌+◌, ◌-◌, ◌^◌, ◌<◌, ◌≡◌, refl, sym, ap, ◌∙◌, min, List, [], ◌++◌, arith, length, take,
  length-take,
}
use ralph_os.Net.Bytes.{wrapping_add32}
use ralph_os.Net.Env.{Sent}
use ralph_os.Net.Tcp.Ring
use ralph_os.Net.Tcp.Ring.{rx_buffer_size}
use ralph_os.Net.Tcp.Ring.Queue.{length-contents, contents, write_lem, read_lem}
use ralph_os.Net.Tcp.Tcb.{Tcb, update_rcv_wnd}
use ralph_os.Net.Tcp.Segment.Stream.{IsPiece, run, run_at, run-add, length-run}
use ralph_os.Net.Tcp.Segment.Valid.{IsTcb}
use ralph_os.Net.Tcp.Transfer.Sender.{IsSending}

module _ (f : ℕ → ℕ) where
  -- A write of the program: the bytes that there is room for are those of the stream behind the queue.
  pub write-IsSending :
      (c : Tcb) (input : List ℕ) (sent : Sent)
      → IsPiece f
          (wrapping_add32 c.snd_una c.tx_buffer.len)
          (take (rx_buffer_size - c.tx_buffer.len) input)
      → IsSending f c sent
      → IsSending f (record c { tx_buffer = (Ring.write input c.tx_buffer).1 }) sent
  write-IsSending c input sent piece v =
      let (count, longer, ring) = write_lem input c.tx_buffer v.sender.ring in
      let grown = (Ring.write input c.tx_buffer).1 in
      let space = rx_buffer_size - c.tx_buffer.len in
      let bytes : contents grown ≡ run f c.snd_una (c.tx_buffer.len + min space (length input)) =
        longer
        ∙ (ap (λ l. l ++ take space input) v.sender.bytes
            ∙ (ap (λ l. run f c.snd_una c.tx_buffer.len ++ l)
                  (piece
                    ∙ run_at f (wrapping_add32 c.snd_una c.tx_buffer.len)
                        (wrapping_add32 c.snd_una c.tx_buffer.len) (length (take space input))
                        (min space (length input)) refl (length-take space input))
                ∙ sym (
                    run-add f c.snd_una c.tx_buffer.len (min space (length input))
                      v.sender.una_in))) in
      let len : grown.len ≡ c.tx_buffer.len + min space (length input) =
        sym (length-contents grown)
        ∙ (ap length bytes ∙ length-run f c.snd_una (c.tx_buffer.len + min space (length input))) in
      record {
        tcb = ground (arith, v.tcb, ring);
        sender = record {
          ring = ring;
          una_in = v.sender.una_in;
          nxt_in = v.sender.nxt_in;
          local_in = v.sender.local_in;
          remote_in = v.sender.remote_in;
          bytes =
              bytes
              ∙ run_at f c.snd_una c.snd_una (c.tx_buffer.len + min space (length input)) grown.len
                  refl (sym len);
          flight = omega (arith, len, v.sender.flight);
        };
        wire = v.wire;
      }

  -- A read of the program.
  pub read-IsSending :
      (c : Tcb) (n : ℕ) (sent : Sent)
      → IsSending f c sent
      → IsSending f (update_rcv_wnd (record c { rx_buffer = (Ring.read n c.rx_buffer).1 })) sent
  unfolding update_rcv_wnd Ring.free_space
  read-IsSending c n sent v = record {
    tcb = ground (arith, v.tcb, read_lem n c.rx_buffer);
    sender = v.sender;
    wire = v.wire;
  }

  -- A connection that has nothing to send and nothing in flight.
  pub idle-IsSending :
      (c : Tcb)
      → IsTcb c
      → c.local_port < 2 ^ 16
      → c.remote_port < 2 ^ 16
      → c.snd_nxt ≡ c.snd_una
      → c.tx_buffer.len ≡ 0
      → IsSending f c []
  idle-IsSending c t local remote same empty = record {
    tcb = t;
    sender = record {
      ring = t.space.tx;
      una_in = t.space.una_in;
      nxt_in = t.space.nxt_in;
      local_in = local;
      remote_in = remote;
      bytes = unfold contents run ralph_os.Net.Tcp.Ring.read_loop in simp empty refl;
      flight = omega (arith, same, t.space.una_in);
    };
    wire = tt;
  }
