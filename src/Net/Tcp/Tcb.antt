-- ===== src/Net/Tcp/Tcb.antt =====
-- `TcpState`, `OooSegment` and `TcpControlBlock` of src/net/tcp.rs.
use ralph_os.Base.{ℕ, ◌%◌, ◌^◌, Bool, false, ◌&&◌, List, [], ltb, replicate}
use ralph_os.Net.Bytes.{Ip, ip, wrapping_sub32}
use ralph_os.Net.Tcp.Header.{mss}
use ralph_os.Net.Tcp.Ring
use ralph_os.Net.Tcp.Ring.{RingBuffer, rx_buffer_size}

pub data TcpState : Type 0 where
  closed listen syn_sent syn_received established fin_wait1 fin_wait2 close_wait closing last_ack
        time_wait :
      TcpState

abbrev pub initial_rto : ℕ
initial_rto = 20

abbrev pub min_rto : ℕ
min_rto = 20

abbrev pub max_rto : ℕ
max_rto = 6000

abbrev pub time_wait_timeout : ℕ
time_wait_timeout = 3000

abbrev pub ooo_buffer_size : ℕ
ooo_buffer_size = 2

abbrev pub ooo_data_size : ℕ
ooo_data_size = 512

-- `bytes` are the first `len` bytes of the source's array: no more of it is read.
pub record OooSegment : Type 0 where
  pub seq : ℕ
  pub bytes : List ℕ
  pub valid : Bool

unfoldable pub empty_ooo : OooSegment
empty_ooo = record { seq = 0; bytes = []; valid = false }

pub record Tcb : Type 0 where
  pub state : TcpState
  pub local_ip : Ip
  pub local_port : ℕ
  pub remote_ip : Ip
  pub remote_port : ℕ
  pub snd_una : ℕ
  pub snd_nxt : ℕ
  pub snd_wnd : ℕ
  pub iss : ℕ
  pub rcv_nxt : ℕ
  pub rcv_wnd : ℕ
  pub irs : ℕ
  pub rto : ℕ
  pub srtt : ℕ
  pub rttvar : ℕ
  pub last_send_time : ℕ
  pub retransmit_timer : ℕ
  pub retransmit_count : ℕ
  pub cwnd : ℕ
  pub ssthresh : ℕ
  pub dup_ack_count : ℕ
  pub last_ack_num : ℕ
  pub ooo_segments : List OooSegment
  pub rx_buffer : RingBuffer
  pub tx_buffer : RingBuffer
  pub time_wait_timer : ℕ
  pub in_use : Bool
  pub has_data : Bool
  pub remote_closed : Bool
  pub accepted : Bool

-- `TcpControlBlock::new`, and so `reset`.
unfoldable pub new : Tcb
new = record {
  state = closed;
  local_ip = ip 0 0 0 0;
  local_port = 0;
  remote_ip = ip 0 0 0 0;
  remote_port = 0;
  snd_una = 0;
  snd_nxt = 0;
  snd_wnd = 0;
  iss = 0;
  rcv_nxt = 0;
  rcv_wnd = rx_buffer_size % 2 ^ 16;
  irs = 0;
  rto = initial_rto;
  srtt = 0;
  rttvar = 0;
  last_send_time = 0;
  retransmit_timer = 0;
  retransmit_count = 0;
  cwnd = mss;
  ssthresh = 65535;
  dup_ack_count = 0;
  last_ack_num = 0;
  ooo_segments = replicate ooo_buffer_size empty_ooo;
  rx_buffer = Ring.new;
  tx_buffer = Ring.new;
  time_wait_timer = 0;
  in_use = false;
  has_data = false;
  remote_closed = false;
  accepted = false;
}

unfoldable pub update_rcv_wnd : Tcb → Tcb
update_rcv_wnd conn = record conn { rcv_wnd = Ring.free_space conn.rx_buffer % 2 ^ 16 }

-- `(a.wrapping_sub(b) as i32) > 0`
unfoldable pub seq_after : ℕ → ℕ → Bool
seq_after a b = ltb 0 (wrapping_sub32 a b) && ltb (wrapping_sub32 a b) (2 ^ 31)
