-- ===== src/Net/Tcp/Transfer/Delivery.antt =====
-- The packets of a sender at process_packet of a receiver, both of src/net/tcp.rs.
use mathlib.Core.Path.{subst}
use ralph_os.Base.{ℕ, zero, suc, ◌≡◌, refl, some, [], ◌∷◌, arith, All, get_elem?}
use ralph_os.Net.Bytes.{Ip}
use ralph_os.Net.Env.{Env, Sent, Packet}
use ralph_os.Net.Tcp.Header.{TcpHeader, parse}
use ralph_os.Net.Tcp.Tcb.{Tcb, established}
use ralph_os.Net.Tcp.Segment.{process_segment}
use ralph_os.Net.Tcp.Segment.Stream.{Received, Received-refl, Received-trans}
use ralph_os.Net.Tcp.Transfer.Wire.{Carries}
use ralph_os.Net.Tcp.Transfer.Talk.{Talks, Talks-IsSending}
use ralph_os.Net.Tcp.Transfer.Receiver.{IsHearing, segment-Received}

-- Packets of the wire reach a connection: any of them, in any order, lost or repeated.
pub data Hears (wire : Sent) (d : Tcb) : Tcb → Type 0 where
  nothing : Hears wire d d
  hears :
      {e : Tcb} {p : Packet} (env : Env) (i : ℕ) (h : TcpHeader) (src : Ip) (sent : Sent)
      → Hears wire d e
      → get_elem? wire i ≡ some p
      → parse p.bytes ≡ some h
      → Hears wire d (process_segment env e h p.bytes src sent).0

module _ (f : ℕ → ℕ) where
  All-get_elem? :
      (sent : Sent) (i : ℕ) (p : Packet)
      → All (Carries f) sent
      → get_elem? sent i ≡ some p
      → Carries f p
  All-get_elem? [] i p held e = cc
  All-get_elem? (q ∷ sent) zero p (now, held) e = subst (Carries f) (cc) now
  All-get_elem? (q ∷ sent) (suc i) p (now, held) e = All-get_elem? sent i p held e

  Hears-Received :
      (sent : Sent) (d e : Tcb)
      → All (Carries f) sent
      → IsHearing f d
      → Hears sent d e
      → Received f d e × (e.state ≡ established)
  Hears-Received sent d _ wire v nothing =
      (Received-refl f d d v.next_in v.ring refl refl v.held, v.open_state)
  Hears-Received sent d _ wire v (hears {e} {p} env i h src s r at parsed) =
      let (before, open_state) = Hears-Received sent d e wire v r in
      let (now, after) =
        segment-Received f env src e p h s
          (record {
            open_state = open_state;
            next_in = omega (arith, before.next);
            ring = before.ring;
            held = before.held;
          })
          (All-get_elem? sent i p wire at) parsed in
      (Received-trans f d e _ v.next_in before now, after)

-- The sender opened with a valid control block, 16-bit ports and nothing queued or in flight; then
-- segments with 32-bit numbers reached it in Established or CloseWait, its timers ran, and its
-- program read, and wrote the stream. The receiver is in Established, with a 32-bit rcv_nxt, a
-- sound receive queue and only pieces of the stream put aside. Whichever of the sender's packets
-- reach the receiver, in any order, lost or repeated: its receive queue gains the next bytes of the
-- stream, from rcv_nxt on, in order and once each, rcv_nxt counts them modulo 2^32, and the
-- receiver stays in Established.
pub Talks-Received :
    (f : ℕ → ℕ) (c d e : Tcb) (sent : Sent)
    → Talks f c sent
    → IsHearing f d
    → Hears sent d e
    → Received f d e × (e.state ≡ established)
Talks-Received f c d e sent talk v heard =
    Hears-Received f sent d e (Talks-IsSending talk).wire v heard
