-- ===== src/Net/Tcp/Table/Timers.antt =====
-- What the timer does for a connection whose transmit queue is empty.
use ralph_os.Base.{◌*◌, ◌/◌, ◌<◌, ◌≡◌, refl, true, false, arith, min, max}
use ralph_os.Net.Env.{Env, Sent}
use ralph_os.Net.Tcp.Ring
use ralph_os.Net.Tcp.Tcb.{Tcb, max_rto}
use ralph_os.Net.Tcp.Header.{mss}
use ralph_os.Net.Tcp.Send.{retransmit, send_pending_data}
use ralph_os.Net.Tcp.Table.{tick, on_timeout, is_time_wait}

module _ (env : Env) where
  retransmit-empty :
      (c : Tcb) (sent : Sent) → c.tx_buffer.len ≡ 0 → retransmit env c sent ≡ (c, sent)
  unfolding retransmit Ring.available
  retransmit-empty c sent e = ground (arith, e)

  send_pending_data-empty :
      (c : Tcb) (sent : Sent) → c.tx_buffer.len ≡ 0 → send_pending_data env c sent ≡ (c, sent)
  unfolding send_pending_data Ring.available
  send_pending_data-empty c sent e = rw e refl

  -- While nothing waits in its transmit queue, a connection in use outside of TimeWait that has
  -- fewer than five counted retransmissions sends nothing when the timers run, even when its timer
  -- has expired; its state, count and queue stay as they are.
  pub tick-empty :
      (c : Tcb) (sent : Sent)
      → c.in_use ≡ true
      → is_time_wait c.state ≡ false
      → c.tx_buffer.len ≡ 0
      → c.retransmit_count < 5
      → let r = tick env c sent in
        (r.1 ≡ sent)
        × (r.0.state ≡ c.state)
        × (r.0.retransmit_count ≡ c.retransmit_count)
        × (r.0.tx_buffer ≡ c.tx_buffer)
  unfolding tick on_timeout
  tick-empty c sent used alive empty few =
      let d = record c {
        rto = min (c.rto * 2) max_rto;
        ssthresh = max (c.cwnd / 2) (2 * mss);
        cwnd = mss;
      } in
      ground (
        arith,
        retransmit-empty d sent empty,
        send_pending_data-empty c sent empty,
        send_pending_data-empty d sent empty,
      )
