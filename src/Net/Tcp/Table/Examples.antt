-- ===== src/Net/Tcp/Table/Examples.antt =====
-- A telnet server: a listener on port 23, and a peer that opens a connection.
use ralph_os.Base.{ℕ, ◌≡◌, refl, true, List, [], ◌∷◌, arith}
use ralph_os.Net.Bytes.{Ip, ip}
use ralph_os.Net.Env.{Env}
use ralph_os.Net.Tcp.Header.{TcpHeader, flag_syn, flag_ack, segment_bytes}
use ralph_os.Net.Tcp.Header.Roundtrip.{header_of}
use ralph_os.Net.Tcp.Ring
use ralph_os.Net.Tcp.Tcb
use ralph_os.Net.Tcp.Tcb.{Tcb, established, syn_sent}
use ralph_os.Net.Tcp.Send.{generate_iss}
use ralph_os.Net.Tcp.Table.{
  Tcp, conn_at, alloc_connection, find_connection, dispatch, tick, is_time_wait, close_conn,
}
use ralph_os.Net.Tcp.Table.Timers.{tick-empty}
use ralph_os.Net.Tcp.Table.Valid.{IsTable}
use ralph_os.Net.Tcp.Table.Reach.{
  Reach, start, next, step, boot, open_socket, listen_on, Reach-IsTable,
}
use ralph_os.Net.Tcp.Table.Close.{Arrival, arrive, IsClosing, close_conn-arrive}
use ralph_os.Net.Tcp.Table.Handshake.{IsSyn, CanOpen, IsFinalAck, handshake}

abbrev env : Env
env = record { now = 0; our_ip = ip 10 0 2 15; accepts = λ n. true }

abbrev host : Ip
host = ip 10 0 2 15

abbrev peer : Ip
peer = ip 10 0 2 2

abbrev listening : Tcp
listening = step env (listen_on 0 23) (step env open_socket boot)

history : Reach listening
history = next (next start env open_socket) env (listen_on 0 23)

Reach-IsTable_example : IsTable listening
Reach-IsTable_example = Reach-IsTable history

abbrev syn : List ℕ
syn = segment_bytes 50000 23 1000 0 flag_syn 1024 0 []

abbrev syn_header : TcpHeader
syn_header = header_of 50000 23 1000 0 flag_syn 1024 0

abbrev ack : List ℕ
ack = segment_bytes 50000 23 1001 12346 flag_ack 1024 0 []

abbrev ack_header : TcpHeader
ack_header = header_of 50000 23 1001 12346 flag_ack 1024 0

syn_header-IsSyn : IsSyn syn_header
unfolding ralph_os.Net.Tcp.Header.is_syn ralph_os.Net.Tcp.Header.is_ack
    ralph_os.Net.Tcp.Header.is_rst
syn_header-IsSyn = record { syn = refl; ack = refl; rst = refl }

can_open : CanOpen syn_header peer listening 1
unfolding step boot ralph_os.Net.Tcp.Table.socket ralph_os.Net.Tcp.Table.start_listen
    ralph_os.Net.Tcp.Table.find_connection ralph_os.Net.Tcp.Table.find_listener
    ralph_os.Net.Tcp.Table.alloc_connection ralph_os.Net.Tcp.Table.find_index
    ralph_os.Net.Tcp.Table.is_socket conn_at ralph_os.Net.Tcp.Tcb.new
    ralph_os.Net.Tcp.Table.set_conn ralph_os.Net.Tcp.Table.fresh
can_open = record { unknown = refl; listener = 0; listens = refl; slot = refl }

final : IsFinalAck env syn_header ack_header
unfolding ralph_os.Net.Tcp.Header.is_ack ralph_os.Net.Tcp.Header.is_rst generate_iss
final = record { ack = refl; rst = refl; acks = refl; from = refl; to = refl }

handshake_example :
    (conn_at
      (dispatch env ack_header ack peer host
        (dispatch env syn_header syn peer host listening []).0
        []).0
      1).state
    ≡ established
handshake_example =
    handshake env env syn_header ack_header syn ack peer host listening [] [] 1 syn_header-IsSyn
      can_open refl final

-- The connection that waits for the answer to its SYN, past its timeout.
abbrev waiting : Tcb
waiting = record Tcb.new { state = syn_sent; in_use = true; retransmit_timer = 20 }

abbrev later : Env
later = record env { now = 1000 }

tick-empty_example :
    ((tick later waiting []).1 ≡ [])
    × ((tick later waiting []).0.state ≡ waiting.state)
    × ((tick later waiting []).0.retransmit_count ≡ waiting.retransmit_count)
    × ((tick later waiting []).0.tx_buffer ≡ waiting.tx_buffer)
unfolding Tcb.new Ring.new
tick-empty_example = tick-empty later waiting [] refl refl refl (omega arith)

-- The peer's FIN, the acknowledgement of ours, and the FIN again.
abbrev arriving : ℕ → ℕ → Arrival
arriving flags ack_num = record {
  env = env;
  header = header_of 50000 23 1001 ack_num flags 1024 0;
  input = [];
  src = peer;
}

abbrev farewell : List Arrival
farewell = arriving 17 100 ∷ arriving 16 101 ∷ arriving 17 101 ∷ []

abbrev closing_conn : Tcb
closing_conn = record Tcb.new { state = established; in_use = true; snd_nxt = 100; rcv_nxt = 1001 }

close_conn-arrive_example :
    IsClosing 101 1001 true true (arrive farewell (close_conn env established closing_conn [])).0
unfolding ralph_os.Net.Tcp.Header.is_ack ralph_os.Net.Tcp.Header.is_fin
    ralph_os.Net.Tcp.Table.Close.any_acks ralph_os.Net.Tcp.Table.Close.any_fin
close_conn-arrive_example =
    close_conn-arrive env closing_conn [] farewell refl refl
      (unfold ralph_os.Net.Tcp.Header.is_rst in (refl, (refl, (refl, tt))))
