-- ===== src/Net/Sockets.antt =====
-- The network calls of src/api.rs, on the connection table. An `i32` is its 32 bits.
mod Examples
use ralph_os.Base.{
  ℕ, ◌+◌, ◌-◌, ◌*◌, ◌/◌, ◌%◌, ◌^◌, Bool, true, false, not, ◌&&◌, ◌||◌, Option, none, some, List, [],
  ◌∷◌, ltb, leb, ◌==◌, if◌then◌else◌, length,
}
use ralph_os.Net.Bytes.{Ip, ip}
use ralph_os.Net.Env.{Env, Sent}
use ralph_os.Net.Tcp.Tcb.{
  TcpState, closed, listen, syn_sent, syn_received, established, fin_wait1, fin_wait2, close_wait,
  closing, last_ack, time_wait,
}
use ralph_os.Net.Tcp.Table
use ralph_os.Net.Tcp.Table.{Tcp, Received, failed, got}

-- -1
abbrev pub minus_one : ℕ
minus_one = 2 ^ 32 - 1

abbrev pub is_negative : ℕ → Bool
is_negative w = leb (2 ^ 31) w

unfoldable pub api_net_socket : Tcp → ℕ × Tcp
api_net_socket t =
    let (slot, t') = Table.socket t in (elim slot [ some i ↦ i | none ↦ minus_one ], t')

-- The address is a `u32` in network byte order.
abbrev pub to_ip : ℕ → Ip
to_ip w = ip (w / 2 ^ 24 % 256) (w / 2 ^ 16 % 256) (w / 2 ^ 8 % 256) (w % 256)

unfoldable pub api_net_connect : Env → (sock addr port : ℕ) → Tcp → Sent → ℕ × Tcp × Sent
api_net_connect env sock addr port t sent =
    let (done, t', sent') = Table.connect env sock (to_ip addr) port t sent in
    if is_negative sock then (minus_one, t, sent) else (if done then 0 else minus_one, t', sent')

abbrev pub status_of : TcpState → ℕ
status_of syn_sent = 0
status_of syn_received = 0
status_of listen = 0
status_of established = 1
status_of _ = 2

unfoldable pub api_net_status : (sock : ℕ) → Tcp → ℕ
api_net_status sock t = if is_negative sock then minus_one else status_of (Table.get_state sock t)

-- `none` is a null pointer.
unfoldable pub api_net_send : (sock : ℕ) → Option (List ℕ) → Tcp → ℕ × Tcp
api_net_send sock none t = (minus_one, t)
api_net_send sock (some d) t =
    let (n, t') = Table.send sock d t in
    if is_negative sock
    then (minus_one, t)
    else (elim n [ some k ↦ k % 2 ^ 32 | none ↦ minus_one ], t')

-- The answer, the bytes put in the buffer, and the table. `null` says that there is no buffer.
unfoldable pub api_net_recv : (sock : ℕ) → (null : Bool) → (len : ℕ) → Tcp → ℕ × List ℕ × Tcp
api_net_recv sock null len t =
    let (r, t') = Table.recv sock len t in
    if is_negative sock || null
    then (minus_one, [], t)
    else elim r [ got bytes ↦ (length bytes % 2 ^ 32, bytes, t') | failed ↦ (minus_one, [], t') ]

unfoldable pub api_net_available : (sock : ℕ) → Tcp → ℕ
api_net_available sock t = if is_negative sock then 0 else Table.available sock t % 2 ^ 32

unfoldable pub api_net_close : Env → (sock : ℕ) → Tcp → Sent → Tcp × Sent
api_net_close env sock t sent =
    let done = Table.close env sock t sent in if is_negative sock then (t, sent) else done

unfoldable pub api_net_listen : Env → (sock port : ℕ) → Tcp → ℕ × Tcp
api_net_listen env sock port t =
    let (done, t') = Table.start_listen env sock port t in
    if is_negative sock then (minus_one, t) else (if done then 0 else minus_one, t')

unfoldable pub api_net_accept : (sock : ℕ) → Tcp → ℕ × Tcp
api_net_accept sock t =
    let (slot, t') = Table.accept sock t in
    if is_negative sock then (minus_one, t) else (elim slot [ some i ↦ i % 2 ^ 32 | none ↦ 0 ], t')
