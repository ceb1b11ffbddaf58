-- ===== src/Net/Tcp/Segment/Progress.antt =====
-- Data that is in order is taken at once, and the loop over the segments put aside ends.
use mathlib.Core.List.{append-nil, append_assoc}
use ralph_os.Base.{
  ℕ, zero, suc, ◌-◌, ◌≤◌, ◌<◌, ◌≡◌, ap, sym, ◌∙◌, true, false, Option, none, some, List, [], ◌∷◌,
  ◌++◌, arith, ◌==◌, inl, inr, Option-cases, length, take, if◌then◌else◌,
}
use ralph_os.Net.Env.{Env, Sent}
use ralph_os.Net.Tcp.Header.{TcpHeader, payload}
use ralph_os.Net.Tcp.Ring.{rx_buffer_size}
use ralph_os.Net.Tcp.Ring.Queue.{IsRing, contents, write_lem}
use ralph_os.Net.Tcp.Tcb.{Tcb, OooSegment, update_rcv_wnd}
use ralph_os.Net.Tcp.Segment.{
  take_ready, deliver_one, deliver_loop, deliver_ooo_segments, store_data, accept_data,
  process_data,
}

-- The slots in use.
unfoldable pub used : List OooSegment → ℕ
used [] = 0
used (s ∷ rest) = if s.valid then suc (used rest) else used rest

used-length : (l : List OooSegment) → used l ≤ length l
unfolding used
used-length [] = omega arith
used-length (s ∷ rest) = ground (arith, used-length rest)

-- A segment that is delivered empties one slot.
used-take_ready :
    (q : ℕ) (l : List OooSegment) (body : List ℕ) (rest : List OooSegment)
    → take_ready q l ≡ some (body, rest)
    → used l ≡ suc (used rest)
unfolding used take_ready
used-take_ready q [] body rest e = absurd (ground arith)
used-take_ready q (s ∷ l) body rest e = elim (Option-cases (take_ready q l)) [
  | inl stop ↦ ground arith
  | inr (r, found) ↦ ground (arith, used-take_ready q l r.0 r.1 found)
]

unfoldable pub is_ready : Tcb → Option (List ℕ × List OooSegment)
is_ready c = take_ready c.rcv_nxt c.ooo_segments

deliver_loop-done :
    (fuel : ℕ) (c : Tcb) → used c.ooo_segments ≤ fuel → is_ready (deliver_loop fuel c) ≡ none
unfolding deliver_loop deliver_one is_ready
deliver_loop-done zero c h = elim (Option-cases (take_ready c.rcv_nxt c.ooo_segments)) [
  | inl done ↦ done
  | inr (r, found) ↦ absurd (omega (arith, used-take_ready c.rcv_nxt c.ooo_segments r.0 r.1 found))
]
deliver_loop-done (suc fuel) c h = elim (Option-cases (take_ready c.rcv_nxt c.ooo_segments)) [
  | inl done ↦ rw (deliver_loop, done) done
  | inr (r, found) ↦
      rw (deliver_loop, found)
        (deliver_loop-done fuel (deliver_one r.0 r.1 c)
          (omega (arith, used-take_ready c.rcv_nxt c.ooo_segments r.0 r.1 found)))
]

-- As many rounds as there are slots are enough for the loop of deliver_ooo_segments: it ends with
-- no segment put aside that could be delivered.
deliver_ooo_segments-done :
    (c : Tcb)
    → take_ready (deliver_ooo_segments c).rcv_nxt (deliver_ooo_segments c).ooo_segments ≡ none
unfolding deliver_ooo_segments is_ready
deliver_ooo_segments-done c =
    deliver_loop-done (length c.ooo_segments) c (used-length c.ooo_segments)

-- The receive queue of `d` is that of `c` with more behind it.
pub record Longer (c d : Tcb) (first : List ℕ) : Type 0 where
  pub more : List ℕ
  pub queue : contents d.rx_buffer ≡ contents c.rx_buffer ++ (first ++ more)
  pub ring : IsRing d.rx_buffer

Longer-refl : (c : Tcb) → IsRing c.rx_buffer → Longer c c []
Longer-refl c v = record { more = []; queue = sym (append-nil (contents c.rx_buffer)); ring = v }

Longer-trans :
    (c d e : Tcb) (first : List ℕ)
    → contents d.rx_buffer ≡ contents c.rx_buffer ++ first
    → Longer d e []
    → Longer c e first
Longer-trans c d e first p r = record {
  more = r.more;
  queue = r.queue ∙ (ap (λ l. l ++ r.more) p ∙ append_assoc (contents c.rx_buffer) first r.more);
  ring = r.ring;
}

Longer-deliver_loop : (fuel : ℕ) (c : Tcb) → IsRing c.rx_buffer → Longer c (deliver_loop fuel c) []
unfolding deliver_loop deliver_one
Longer-deliver_loop zero c v = Longer-refl c v
Longer-deliver_loop (suc fuel) c v = elim (Option-cases (take_ready c.rcv_nxt c.ooo_segments)) [
  | inl done ↦ rw (deliver_loop, done) (Longer-refl c v)
  | inr (r, found) ↦
      let d = deliver_one r.0 r.1 c in
      let w = write_lem r.0 c.rx_buffer v in
      let rest = Longer-deliver_loop fuel d w.2 in
      let all =
        Longer-trans c d (deliver_loop fuel d) (take (rx_buffer_size - c.rx_buffer.len) r.0) w.1
          rest in
      rw (deliver_loop, found)
        (record {
          more = take (rx_buffer_size - c.rx_buffer.len) r.0 ++ all.more;
          queue = all.queue;
          ring = all.ring;
        })
]

-- An in-order segment with data, in a connection with a sound receive queue: as much of the data
-- as there is room for goes to the end of the receive queue, before anything else, and afterwards
-- no segment put aside could be delivered.
pub process_data-in_order :
    (env : Env) (c : Tcb) (h : TcpHeader) (input : List ℕ) (sent : Sent)
    → IsRing c.rx_buffer
    → h.seq_num ≡ c.rcv_nxt
    → 0 < length (payload h input)
    → let d = (process_data env c h input sent).0 in
      Longer c d (take (rx_buffer_size - c.rx_buffer.len) (payload h input))
      × (take_ready d.rcv_nxt d.ooo_segments ≡ none)
unfolding process_data accept_data deliver_ooo_segments store_data update_rcv_wnd
process_data-in_order env c h input sent v at some_bytes =
    let body = payload h input in
    let some_data : (length body == 0) ≡ false = ground (arith, some_bytes) in
    let here : (h.seq_num == c.rcv_nxt) ≡ true = ground (arith, at) in
    let w = write_lem body c.rx_buffer v in
    let d = store_data c body in
    rw (some_data, here)
      (
        Longer-trans c d (deliver_loop (length d.ooo_segments) d)
            (take (rx_buffer_size - c.rx_buffer.len) body) w.1
            (Longer-deliver_loop (length d.ooo_segments) d w.2),
        deliver_ooo_segments-done d,
      )
