-- ===== src/Net/Env.antt =====
-- What a handler of the stack finds around it: the timer, and the answer of the layer below to
-- each packet that it is handed. The packets themselves are recorded, the latest first.
use ralph_os.Base.{ℕ, Bool, List, ◌∷◌, length}
use ralph_os.Net.Bytes.{Ip}

-- A call of `ipv4::send_packet`.
pub record Packet : Type 0 where
  pub dst : Ip
  pub protocol : ℕ
  pub bytes : List ℕ

abbrev pub Sent : Type 0
Sent = List Packet

-- `now` is `timer::ticks()`; `our_ip` is `CONFIG.ip`; `accepts n` is the result of
-- `ipv4::send_packet` for the packet that has `n` packets before it (false while the destination's
-- hardware address is not known).
pub record Env : Type 0 where
  pub now : ℕ
  pub our_ip : Ip
  pub accepts : ℕ → Bool

unfoldable pub send_packet : Env → Packet → Sent → Bool × Sent
send_packet env p sent = (env.accepts (length sent), p ∷ sent)
