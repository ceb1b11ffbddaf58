-- ===== src/Net/Tcp/Transfer/Talk.antt =====
-- The life of a connection of src/net/tcp.rs, and what it puts on the wire.
use ralph_os.Base.{ℕ, ◌-◌, ◌^◌, ◌<◌, ◌≡◌, true, List, [], take}
use ralph_os.Net.Bytes.{Ip, wrapping_add32}
use ralph_os.Net.Env.{Env, Sent}
use ralph_os.Net.Tcp.Header.{TcpHeader}
use ralph_os.Net.Tcp.Ring
use ralph_os.Net.Tcp.Ring.{RingBuffer, rx_buffer_size}
use ralph_os.Net.Tcp.Tcb.{Tcb, update_rcv_wnd}
use ralph_os.Net.Tcp.Segment.{process_segment}
use ralph_os.Net.Tcp.Segment.Valid.{IsTcb, IsHeader}
use ralph_os.Net.Tcp.Segment.Stream.{IsPiece}
use ralph_os.Net.Tcp.Table.{tick}
use ralph_os.Net.Tcp.Transfer.Sender.{IsSending}
use ralph_os.Net.Tcp.Transfer.Steps.{is_open, process_segment-IsSending, tick-IsSending}
use ralph_os.Net.Tcp.Transfer.Calls.{idle-IsSending, write-IsSending, read-IsSending}

-- A connection, and what it has put on the wire, from when it opened with nothing to send: segments
-- arrive, the timers run, and the program reads and writes, in any order, each in any environment.
-- What it writes is the stream `f`, by sequence number.
pub data Talks (f : ℕ → ℕ) : Tcb → Sent → Type 0 where
  opened :
      (c : Tcb)
      → IsTcb c
      → c.local_port < 2 ^ 16
      → c.remote_port < 2 ^ 16
      → c.snd_nxt ≡ c.snd_una
      → c.tx_buffer.len ≡ 0
      → Talks f c []
  arrives :
      {c : Tcb} {sent : Sent} (env : Env) (h : TcpHeader) (input : List ℕ) (src : Ip)
      → Talks f c sent
      → is_open c.state ≡ true
      → IsHeader h
      → Talks f
          (process_segment env c h input src sent).0
          (process_segment env c h input src sent).1
  timers :
      {c : Tcb} {sent : Sent} (env : Env)
      → Talks f c sent
      → Talks f (tick env c sent).0 (tick env c sent).1
  writes :
      {c : Tcb} {sent : Sent} (input : List ℕ)
      → Talks f c sent
      → IsPiece f
          (wrapping_add32 c.snd_una c.tx_buffer.len)
          (take (rx_buffer_size - c.tx_buffer.len) input)
      → Talks f (record c { tx_buffer = (Ring.write input c.tx_buffer).1 }) sent
  reads :
      {c : Tcb} {sent : Sent} (n : ℕ)
      → Talks f c sent
      → Talks f (update_rcv_wnd (record c { rx_buffer = (Ring.read n c.rx_buffer).1 })) sent

-- For a connection that opened with a valid control block, 16-bit ports and nothing queued or in
-- flight, and then through any segments with 32-bit numbers that reach it in Established or
-- CloseWait, any rounds of the timers, and any reads and writes of its program, where what a write
-- puts into the queue is the stream from there on: the transmit queue holds the stream from the
-- oldest unacknowledged byte on, what is in flight is in the queue, the control block is valid, and
-- every packet that it put on the wire is read as a segment without FIN and RST whose payload is
-- the piece of the stream at its sequence number.
pub Talks-IsSending : {f : ℕ → ℕ} {c : Tcb} {sent : Sent} → Talks f c sent → IsSending f c sent
Talks-IsSending {f} (opened c t local remote same empty) =
    idle-IsSending f c t local remote same empty
Talks-IsSending {f} (arrives {c} {sent} env h input src r o i) =
    process_segment-IsSending f env c h input src sent o i (Talks-IsSending r)
Talks-IsSending {f} (timers {c} {sent} env r) = tick-IsSending f env c sent (Talks-IsSending r)
Talks-IsSending {f} (writes {c} {sent} input r piece) =
    write-IsSending f c input sent piece (Talks-IsSending r)
Talks-IsSending {f} (reads {c} {sent} n r) = read-IsSending f c n sent (Talks-IsSending r)
