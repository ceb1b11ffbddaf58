-- ===== src/Net/Tcp/Table/Close.antt =====
-- `close` of src/net/tcp.rs in Established, and process_segment on the segments that follow.
use mathlib.Core.Bool.{or_assoc, or-false}
use mathlib.Core.Path.{subst₂}
use ralph_os.Base.{
  ℕ, ◌≡◌, refl, sym, ap, Bool, true, false, ◌&&◌, ◌||◌, List, [], ◌∷◌, ◌==◌, length, All,
  if◌then◌else◌, Bool-cases, inl, inr,
}
use ralph_os.Net.Bytes.{Ip, wrapping_add32}
use ralph_os.Net.Env.{Env, Sent, send_packet}
use ralph_os.Net.Tcp.Header.{TcpHeader, is_ack, is_rst, is_fin, build_segment}
use ralph_os.Net.Tcp.Tcb.{Tcb, TcpState, established, fin_wait1, fin_wait2, closing, time_wait}
use ralph_os.Net.Tcp.Send.{send_segment, send_segment_seq}
use ralph_os.Net.Tcp.Segment.{
  process_segment, by_state, on_fin_wait1, on_fin_wait2, on_closing, take_fin,
}
use ralph_os.Net.Tcp.Table.{close_conn, send_fin}

-- A segment, and what the handler finds when it arrives.
pub record Arrival : Type 0 where
  pub env : Env
  pub header : TcpHeader
  pub input : List ℕ
  pub src : Ip

unfoldable pub arrive : List Arrival → Tcb × Sent → Tcb × Sent
arrive [] r = r
arrive (a ∷ rest) (c, sent) = arrive rest (process_segment a.env c a.header a.input a.src sent)

-- Whether one of them acknowledges up to `end`, and whether one has FIN.
abbrev pub acks : ℕ → TcpHeader → Bool
acks end h = is_ack h && (h.ack_num == end)

unfoldable pub any_acks : ℕ → List Arrival → Bool
any_acks end [] = false
any_acks end (a ∷ rest) = acks end a.header || any_acks end rest

unfoldable pub any_fin : List Arrival → Bool
any_fin [] = false
any_fin (a ∷ rest) = is_fin a.header || any_fin rest

-- The state, from whether our FIN was acknowledged and whether the peer's has arrived.
abbrev pub closing_state : (acked finned : Bool) → TcpState
closing_state false false = fin_wait1
closing_state true false = fin_wait2
closing_state false true = closing
closing_state true true = time_wait

pub record IsClosing (end next : ℕ) (acked finned : Bool) (c : Tcb) : Type 0 where
  pub state : c.state ≡ closing_state acked finned
  pub sends : c.snd_nxt ≡ end
  pub expects : c.rcv_nxt ≡ (if finned then wrapping_add32 next 1 else next)

process_segment-IsClosing :
    (env : Env) (h : TcpHeader) (input : List ℕ) (src : Ip) (sent : Sent) (end next : ℕ)
    (acked finned : Bool) (c : Tcb)
    → is_rst h ≡ false
    → IsClosing end next acked finned c
    → IsClosing end next
        (acked || acks end h)
        (finned || is_fin h)
        (process_segment env c h input src sent).0
unfolding process_segment by_state on_fin_wait1 on_fin_wait2 on_closing take_fin
process_segment-IsClosing env h input src sent end next false false c live i =
    let bump = ap (λ n. wrapping_add32 n 1) i.expects in
    let same : acks c.snd_nxt h ≡ acks end h = ap (λ n. acks n h) i.sends in
    elim (Bool-cases (acks end h)) [
      | inl a ↦ elim (Bool-cases (is_fin h)) [
        | inl f ↦
            simp (live, i.state, same, a, f)
              (record { state = refl; sends = i.sends; expects = bump })
        | inr f ↦
            simp (live, i.state, same, a, f)
              (record { state = refl; sends = i.sends; expects = i.expects })
      ]
      | inr a ↦ elim (Bool-cases (is_fin h)) [
        | inl f ↦
            simp (live, i.state, same, a, f)
              (record { state = refl; sends = i.sends; expects = bump })
        | inr f ↦ simp (live, i.state, same, a, f) i
      ]
    ]
process_segment-IsClosing env h input src sent end next true false c live i =
    elim (Bool-cases (is_fin h)) [
      | inl f ↦
          simp (live, i.state, f)
            (record {
              state = refl;
              sends = i.sends;
              expects = ap (λ n. wrapping_add32 n 1) i.expects;
            })
      | inr f ↦ simp (live, i.state, f) i
    ]
process_segment-IsClosing env h input src sent end next false true c live i =
    let same : acks c.snd_nxt h ≡ acks end h = ap (λ n. acks n h) i.sends in
    elim (Bool-cases (acks end h)) [
      | inl a ↦
          simp (live, i.state, same, a)
            (record { state = refl; sends = i.sends; expects = i.expects })
      | inr a ↦ simp (live, i.state, same, a) i
    ]
process_segment-IsClosing env h input src sent end next true true c live i = simp (live, i.state) i

arrive-IsClosing :
    (arrivals : List Arrival) (end next : ℕ) (acked finned : Bool) (c : Tcb) (sent : Sent)
    → All (λ a. is_rst a.header ≡ false) arrivals
    → IsClosing end next acked finned c
    → IsClosing end next
        (acked || any_acks end arrivals)
        (finned || any_fin arrivals)
        (arrive arrivals (c, sent)).0
unfolding arrive any_acks any_fin
arrive-IsClosing [] end next acked finned c sent live i =
    subst₂ (λ x y. IsClosing end next x y c) (sym (or-false acked)) (sym (or-false finned)) i
arrive-IsClosing (a ∷ rest) end next acked finned c sent live i =
    let r = process_segment a.env c a.header a.input a.src sent in
    subst₂ (λ x y. IsClosing end next x y (arrive rest r).0)
      (or_assoc acked (acks end a.header) (any_acks end rest))
      (or_assoc finned (is_fin a.header) (any_fin rest))
      (arrive-IsClosing rest end next (acked || acks end a.header) (finned || is_fin a.header) r.0
        r.1 live.1
        (process_segment-IsClosing a.env a.header a.input a.src sent end next acked finned c live.0
          i))

-- A connection in Established that is closed, when the FIN can be sent, and then, with no timer and no
-- call between them, any segments without RST, in any order and however often each: whether one of them acknowledges the FIN
-- and whether one has the peer's FIN decide the state, FinWait1, FinWait2, Closing or TimeWait; the
-- FIN has taken one sequence number, and the peer's FIN, however often it came, is counted once.
pub close_conn-arrive :
    (env : Env) (c : Tcb) (sent : Sent) (arrivals : List Arrival)
    → c.state ≡ established
    → env.accepts (length sent) ≡ true
    → All (λ a. is_rst a.header ≡ false) arrivals
    → let end = wrapping_add32 c.snd_nxt 1 in
      IsClosing end c.rcv_nxt
        (any_acks end arrivals)
        (any_fin arrivals)
        (arrive arrivals (close_conn env c.state c sent)).0
unfolding close_conn send_fin send_segment send_segment_seq build_segment send_packet
close_conn-arrive env c sent arrivals opened go live =
    let begun : IsClosing (wrapping_add32 c.snd_nxt 1) c.rcv_nxt false false
        (close_conn env c.state c sent).0 =
      simp (opened, go) (record { state = refl; sends = refl; expects = refl }) in
    arrive-IsClosing arrivals (wrapping_add32 c.snd_nxt 1) c.rcv_nxt false false
      (close_conn env c.state c sent).0 (close_conn env c.state c sent).1 live begun
