-- ===== src/Net/Tcp/Send.antt =====
-- The sending half of src/net/tcp.rs: segments, acknowledgements, round-trip times,
-- retransmission. Each function takes the environment and the packets sent so far.
use ralph_os.Base.{
  ℕ, ◌+◌, ◌-◌, ◌*◌, ◌/◌, ◌%◌, ◌^◌, min, max, Bool, false, not, ◌&&◌, none, some, List, [], ltb,
  ◌==◌, if◌then◌else◌,
}
use ralph_os.Net.Bytes.{Ip, wrapping_add32, wrapping_sub32, saturating_add32}
use ralph_os.Net.Env.{Env, Sent, Packet, send_packet}
use ralph_os.Net.Checksum.{tcp_udp_checksum}
use ralph_os.Net.Tcp.Header.{
  mss, flag_rst, flag_psh, flag_ack, TcpHeader, is_ack, build_segment, put_checksum,
}
use ralph_os.Net.Tcp.Ring
use ralph_os.Net.Tcp.Tcb.{Tcb, min_rto, max_rto, seq_after}

-- `ipv4::PROTO_TCP`
abbrev pub proto_tcp : ℕ
proto_tcp = 6

abbrev pub tcp_packet : Ip → Ip → List ℕ → Packet
tcp_packet src dst segment = record {
  dst = dst;
  protocol = proto_tcp;
  bytes = put_checksum (tcp_udp_checksum src dst proto_tcp segment) segment;
}

module _ (env : Env) where
  unfoldable pub send_segment_seq : Tcb → ℕ → ℕ → List ℕ → Sent → Bool × Sent
  send_segment_seq conn seq flags body sent =
      elim (build_segment 1500 conn.local_port conn.remote_port seq conn.rcv_nxt flags conn.rcv_wnd
        body) [
          | none ↦ (false, sent)
          | some segment ↦ send_packet env (tcp_packet conn.local_ip conn.remote_ip segment) sent
        ]

  unfoldable pub send_segment : Tcb → ℕ → List ℕ → Sent → Bool × Sent
  send_segment conn flags body sent = send_segment_seq conn conn.snd_nxt flags body sent

  -- The answer to a segment that no connection takes.
  unfoldable pub send_rst : Ip → Ip → TcpHeader → Sent → Sent
  send_rst src_ip dst_ip header sent =
      elim (build_segment 20 header.dst_port header.src_port
        (if is_ack header then header.ack_num else 0) (wrapping_add32 header.seq_num 1)
        (flag_rst + (if is_ack header then 0 else flag_ack)) 0 []) [
          | none ↦ sent
          | some segment ↦ (send_packet env (tcp_packet src_ip dst_ip segment) sent).1
        ]

  unfoldable pub generate_iss : ℕ
  generate_iss = (env.now % 2 ^ 32 * 0x41C64E6D % 2 ^ 32 + 0x3039) % 2 ^ 32

  -- The measured round trip, `now.saturating_sub(last_send_time)`.
  unfoldable pub update_rtt : Tcb → Tcb
  update_rtt conn =
      let measured = env.now - conn.last_send_time in
      let diff = if ltb conn.srtt measured then measured - conn.srtt else conn.srtt - measured in
      let rttvar = if conn.srtt == 0 then measured / 2 else (3 * conn.rttvar + diff) % 2 ^ 64 / 4 in
      let srtt = if conn.srtt == 0 then measured else (7 * conn.srtt + measured) % 2 ^ 64 / 8 in
      record conn {
        srtt = srtt;
        rttvar = rttvar;
        rto = min (max ((srtt + 4 * rttvar) % 2 ^ 64) min_rto) max_rto;
      }

  unfoldable pub retransmit : Tcb → Sent → Tcb × Sent
  retransmit conn sent =
      let in_flight = wrapping_sub32 conn.snd_nxt conn.snd_una in
      let unacked = min (Ring.available conn.tx_buffer) in_flight in
      let body = Ring.peek_offset 0 (min unacked mss) conn.tx_buffer in
      if in_flight == 0 then (conn, sent) else if unacked == 0 then (conn, sent) else (
        record conn {
          retransmit_timer = env.now + conn.rto;
          retransmit_count = (conn.retransmit_count + 1) % 2 ^ 8;
        },
        (send_segment_seq conn conn.snd_una (flag_ack + flag_psh) body sent).1,
      )

  -- The first branch of `process_ack`: data that was in flight is acknowledged.
  unfoldable pub new_ack : Tcb → ℕ → Tcb
  new_ack conn ack =
      let bytes_acked = wrapping_sub32 ack conn.snd_una in
      let measured =
        update_rtt
          (record conn { snd_una = ack; tx_buffer = Ring.consume bytes_acked conn.tx_buffer }) in
      let grown = record measured {
        cwnd =
            if ltb measured.cwnd measured.ssthresh
            then saturating_add32 measured.cwnd bytes_acked
            else saturating_add32 measured.cwnd (mss * mss / measured.cwnd);
        dup_ack_count = 0;
        last_ack_num = ack;
      } in
      if grown.snd_una == grown.snd_nxt
      then record grown { retransmit_timer = 0; retransmit_count = 0 }
      else record grown { retransmit_timer = env.now + grown.rto }

  -- The second branch: a duplicate. The counter is a `u8`.
  unfoldable pub duplicate_ack : Tcb → Sent → Tcb × Sent
  duplicate_ack conn sent =
      let count = (conn.dup_ack_count + 1) % 2 ^ 8 in
      let counted = record conn { dup_ack_count = count } in
      let threshold = max (conn.cwnd / 2) (2 * mss) in
      if count == 3
      then retransmit
          (record counted { ssthresh = threshold; cwnd = (threshold + 3 * mss) % 2 ^ 32 }) sent
      else if ltb 3 count
      then (record counted { cwnd = saturating_add32 conn.cwnd mss }, sent)
      else (counted, sent)

  unfoldable pub process_ack : Tcb → ℕ → Sent → Tcb × Sent
  process_ack conn ack sent =
      if seq_after ack conn.snd_una && not (seq_after ack conn.snd_nxt)
      then (new_ack conn ack, sent)
      else if ack == conn.last_ack_num
      then duplicate_ack conn sent
      else (conn, sent)

  unfoldable pub send_pending_data : Tcb → Sent → Tcb × Sent
  send_pending_data conn sent =
      let total_buffered = Ring.available conn.tx_buffer in
      let flight_size = wrapping_sub32 conn.snd_nxt conn.snd_una in
      let window = min conn.snd_wnd conn.cwnd in
      let can_send = window - flight_size in
      let unsent = total_buffered - flight_size in
      let to_send = min (min unsent can_send) mss in
      let body = Ring.peek_offset flight_size to_send conn.tx_buffer in
      let (done, sent') = send_segment conn (flag_ack + flag_psh) body sent in
      if total_buffered == 0
      then (conn, sent)
      else if can_send == 0
      then (conn, sent)
      else if unsent == 0
      then (conn, sent)
      else if done
      then (
        record conn {
          snd_nxt = wrapping_add32 conn.snd_nxt to_send;
          last_send_time = env.now;
          retransmit_timer =
              if conn.retransmit_timer == 0 then env.now + conn.rto else conn.retransmit_timer;
        },
        sent',
      )
      else (conn, sent')
