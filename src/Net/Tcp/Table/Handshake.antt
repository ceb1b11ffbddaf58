-- ===== src/Net/Tcp/Table/Handshake.antt =====
-- The passive open: a SYN to a listening port, and the ACK that ends the handshake.
use mathlib.Core.Path.{subst}
use ralph_os.Base.{
  set-set, ℕ, ◌≡◌, refl, ap, ◌∙◌, true, false, Option, none, some, List, arith, ◌==◌, length, set,
  get_or-set_self, length-set,
}
use ralph_os.Net.Bytes.{Ip, ip_eq_iff, wrapping_add32}
use ralph_os.Net.Env.{Env, Sent, send_packet}
use ralph_os.Net.Tcp.Header.{TcpHeader, is_syn, is_ack, is_rst, build_segment}
use ralph_os.Net.Tcp.Tcb
use ralph_os.Net.Tcp.Tcb.{Tcb, TcpState, listen, syn_received, established}
use ralph_os.Net.Tcp.Send.{send_segment, send_segment_seq, generate_iss, update_rtt}
use ralph_os.Net.Tcp.Segment.{process_segment, by_state, on_listen, on_syn_received}
use ralph_os.Net.Tcp.Segment.States.{state-process_data, state-update_rtt}
use ralph_os.Net.Tcp.Table.{
  Tcp, find_connection, find_listener, matches, conn_at, set_conn, fresh, alloc_connection, deliver,
  open_passive, dispatch,
}
use ralph_os.Net.Tcp.Table.Slots.{Slot, IsTaken, alloc_connection-Slot, find_index-set, find_first}

-- A header that has SYN and neither ACK nor RST; one that has ACK and neither RST nor a payload.
pub record IsSyn (h : TcpHeader) : Type 0 where
  pub syn : is_syn h ≡ true
  pub ack : is_ack h ≡ false
  pub rst : is_rst h ≡ false

-- The connection that the SYN `h` from `src` opens in a slot, after the SYN-ACK.
pub record IsHalfOpen (env : Env) (h : TcpHeader) (src : Ip) (c : Tcb) : Type 0 where
  pub state : c.state ≡ syn_received
  pub port : c.local_port ≡ h.dst_port
  pub remote : c.remote_ip ≡ src
  pub remote_port : c.remote_port ≡ h.src_port
  pub expects : c.rcv_nxt ≡ wrapping_add32 h.seq_num 1
  pub una : c.snd_una ≡ generate_iss env
  pub sends : c.snd_nxt ≡ wrapping_add32 (generate_iss env) 1
  pub used : c.in_use ≡ true

passive : TcpHeader → Ip → Ip → Tcb
passive h src dst = record fresh {
  local_ip = dst;
  local_port = h.dst_port;
  remote_ip = src;
  remote_port = h.src_port;
  state = listen;
}

process_segment-passive :
    (env : Env) (h : TcpHeader) (input : List ℕ) (src dst : Ip) (sent : Sent)
    → IsSyn h
    → env.accepts (length sent) ≡ true
    → IsHalfOpen env h src (process_segment env (passive h src dst) h input src sent).0
unfolding process_segment by_state on_listen passive fresh send_segment send_segment_seq
    build_segment send_packet
process_segment-passive env h input src dst sent s go = ground (arith, s)

-- The SYN is for a listening port, from a peer that has no connection there, and a slot is handed
-- out.
pub record CanOpen (h : TcpHeader) (src : Ip) (t : Tcp) (i : ℕ) : Type 0 where
  pub unknown : find_connection h.dst_port src h.src_port t ≡ none
  pub listener : ℕ
  pub listens : find_listener h.dst_port t ≡ some listener
  pub slot : (alloc_connection t).0 ≡ some i

opened : Env → TcpHeader → List ℕ → Ip → Ip → Sent → Tcb
opened env h input src dst sent = (process_segment env (passive h src dst) h input src sent).0

dispatch-syn :
    (env : Env) (h : TcpHeader) (input : List ℕ) (src dst : Ip) (t : Tcp) (sent : Sent) (i : ℕ)
    → IsSyn h
    → CanOpen h src t i
    → (dispatch env h input src dst t sent).0
      ≡ set_conn (alloc_connection t).1 i (opened env h input src dst sent)
unfolding opened passive dispatch open_passive deliver
dispatch-syn env h input src dst t sent i s c =
    rw (c.unknown, dispatch, s.syn, s.ack, c.listens, c.slot, open_passive) refl

taken :
    (h : TcpHeader) (src : Ip) (t : Tcp) (i : ℕ)
    → CanOpen h src t i
    → IsTaken t i (alloc_connection t).1
taken h src t i c = go (alloc_connection t) c.slot (alloc_connection-Slot t)
  where
    go : (r : Option ℕ × Tcp) → r.0 ≡ some i → Slot t r → IsTaken t i r.1
    go (none, u) e s = cc
    go (some j, u) e s = let q : j ≡ i = cc in subst (λ k. IsTaken t k u) q s

-- A SYN without ACK and RST to a listening port from a peer without a connection, when a slot is
-- to be had and the answer can be sent: the slot then holds a connection with that peer in
-- SynReceived that expects the byte after the SYN, and the next segment from that peer finds it.
pub dispatch-syn_received :
    (env : Env) (h : TcpHeader) (input : List ℕ) (src dst : Ip) (t : Tcp) (sent : Sent) (i : ℕ)
    → IsSyn h
    → CanOpen h src t i
    → env.accepts (length sent) ≡ true
    → let u = (dispatch env h input src dst t sent).0 in
      IsHalfOpen env h src (conn_at u i) × (find_connection h.dst_port src h.src_port u ≡ some i)
dispatch-syn_received env h input src dst t sent i s c go =
    rw (dispatch-syn env h input src dst t sent i s c, (taken h src t i c).2)
      (
        rw (at_slot) half,
        unfold find_connection set_conn in
            rw (set-set t.connections i fresh new) (
              find_index-set (matches h.dst_port src h.src_port) 0 t.connections i new
                (unfold find_connection in c.unknown) (taken h src t i c).0 known
              ∙ ap some (omega arith)),
      )
  where
    new : Tcb
    new = opened env h input src dst sent

    half : IsHalfOpen env h src new
    half = unfold opened in process_segment-passive env h input src dst sent s go

    at_slot : conn_at (set_conn (set_conn t i fresh) i new) i ≡ new
    at_slot =
        unfold conn_at set_conn in
        get_or-set_self (set t.connections i fresh) i new Tcb.new
          (omega (arith, length-set t.connections i fresh, (taken h src t i c).0))

    known : matches h.dst_port src h.src_port new ≡ true
    known = ground (arith, half, ip_eq_iff new.remote_ip src)

-- The ACK of the SYN-ACK, from the peer of a half-open connection.
pub record IsFinalAck (env : Env) (h h' : TcpHeader) : Type 0 where
  pub ack : is_ack h' ≡ true
  pub rst : is_rst h' ≡ false
  pub acks : h'.ack_num ≡ wrapping_add32 (generate_iss env) 1
  pub from : h'.src_port ≡ h.src_port
  pub to : h'.dst_port ≡ h.dst_port

-- A segment of a known connection is handed to it.
dispatch-known :
    (env : Env) (h : TcpHeader) (input : List ℕ) (src dst : Ip) (t : Tcp) (sent : Sent) (i : ℕ)
    → find_connection h.dst_port src h.src_port t ≡ some i
    → conn_at (dispatch env h input src dst t sent).0 i
      ≡ (process_segment env (conn_at t i) h input src sent).0
unfolding dispatch deliver
dispatch-known env h input src dst t sent i e =
    rw (e, dispatch)
      (unfold conn_at set_conn in
        get_or-set_self t.connections i (process_segment env (conn_at t i) h input src sent).0
          Tcb.new
          (find_first (matches h.dst_port src h.src_port) t.connections i Tcb.new
            (unfold find_connection in e)).0)

process_segment-final :
    (env env' : Env) (h h' : TcpHeader) (input : List ℕ) (src : Ip) (c : Tcb) (sent : Sent)
    → IsHalfOpen env h src c
    → IsFinalAck env h h'
    → (process_segment env' c h' input src sent).0.state ≡ established
unfolding process_segment by_state on_syn_received
process_segment-final env env' h h' input src c sent half f =
    let answered = record c { snd_una = h'.ack_num; snd_wnd = h'.window; state = established } in
    let acked : (h'.ack_num == c.snd_nxt) ≡ true = ground (arith, half, f) in
    rw (f.rst, half.state, f.ack, acked)
      (state-process_data env' (update_rtt env' answered) h' input sent
        ∙ state-update_rtt env' answered)

-- A SYN without ACK and RST to a listening port from a peer without a connection, when a slot is
-- to be had and the answer can be sent, and then with any later environment the ACK of the answer,
-- without RST: the connection in the slot is established.
pub handshake :
    (env env' : Env) (h h' : TcpHeader) (input input' : List ℕ) (src dst : Ip) (t : Tcp)
    (sent sent' : Sent) (i : ℕ)
    → IsSyn h
    → CanOpen h src t i
    → env.accepts (length sent) ≡ true
    → IsFinalAck env h h'
    → let u = (dispatch env h input src dst t sent).0 in
      (conn_at (dispatch env' h' input' src dst u sent').0 i).state ≡ established
handshake env env' h h' input input' src dst t sent sent' i s c go f =
    let u = (dispatch env h input src dst t sent).0 in
    let (half, found) = dispatch-syn_received env h input src dst t sent i s c go in
    let found' : find_connection h'.dst_port src h'.src_port u ≡ some i = rw (f.to, f.from) found in
    ap (λ d. d.state) (dispatch-known env' h' input' src dst u sent' i found')
    ∙ process_segment-final env env' h h' input' src (conn_at u i) sent' half f
