-- ===== src/Net/Tcp/Transfer/Wire.antt =====
-- A packet that carries a piece of a byte stream, and those of send_segment_seq of src/net/tcp.rs.
use mathlib.Core.Path.{subst}
use ralph_os.Base.{ℕ, ◌^◌, ◌<◌, ◌≡◌, sym, false, some, List, All, Option-cases, inl, inr}
use ralph_os.Net.Bytes.{Ip}
use ralph_os.Net.Env.{Env, Sent, Packet, send_packet}
use ralph_os.Net.Checksum.{tcp_udp_checksum}
use ralph_os.Net.Checksum.Verify.{fold_checksum-lt}
use ralph_os.Net.Tcp.Header.{
  TcpHeader, parse, payload, has_flag, flag_fin, flag_rst, is_fin, is_rst, build_segment,
}
use ralph_os.Net.Tcp.Header.Roundtrip.{AreFields, header_of, parse-build_segment}
use ralph_os.Net.Tcp.Tcb.{Tcb}
use ralph_os.Net.Tcp.Send.{proto_tcp, tcp_packet, send_segment_seq}
use ralph_os.Net.Tcp.Segment.Stream.{IsPiece}

-- The packet is read as a segment without FIN and RST whose payload is the piece of the stream at
-- its sequence number. Without payload it is so at once.
pub record Carries (f : ℕ → ℕ) (p : Packet) : Type 0 where
  pub header : TcpHeader
  pub parsed : parse p.bytes ≡ some header
  pub no_fin : is_fin header ≡ false
  pub no_rst : is_rst header ≡ false
  pub acks_in : header.ack_num < 2 ^ 32
  pub piece : IsPiece f header.seq_num (payload header p.bytes)

tcp_udp_checksum-lt :
    (a b : Ip) (protocol : ℕ) (l : List ℕ) → tcp_udp_checksum a b protocol l < 2 ^ 16
unfolding tcp_udp_checksum
tcp_udp_checksum-lt a b protocol l = fold_checksum-lt _

-- A segment that send_segment_seq builds with fields in their ranges carries its body.
module _ (f : ℕ → ℕ) (env : Env) (c : Tcb) (seq flags : ℕ) (body : List ℕ)
    (r : AreFields c.local_port c.remote_port seq c.rcv_nxt flags c.rcv_wnd) where
  built-Carries :
      (segment : List ℕ)
      → build_segment 1500 c.local_port c.remote_port seq c.rcv_nxt flags c.rcv_wnd body
        ≡ some segment
      → has_flag flag_fin flags ≡ false
      → has_flag flag_rst flags ≡ false
      → IsPiece f seq body
      → Carries f (tcp_packet c.local_ip c.remote_ip segment)
  unfolding is_fin is_rst
  built-Carries segment e no_fin no_rst piece =
      let k = tcp_udp_checksum c.local_ip c.remote_ip proto_tcp segment in
      let (parsed, same) =
        parse-build_segment c.local_port c.remote_port seq c.rcv_nxt flags c.rcv_wnd r 1500 body
          segment k (tcp_udp_checksum-lt c.local_ip c.remote_ip proto_tcp segment) e in
      record {
        header = header_of c.local_port c.remote_port seq c.rcv_nxt flags c.rcv_wnd k;
        parsed = parsed;
        no_fin = no_fin;
        no_rst = no_rst;
        acks_in = r.ack_in;
        piece = subst (IsPiece f seq) (sym same) piece;
      }

  pub send_segment_seq-Carries :
      (sent : Sent)
      → has_flag flag_fin flags ≡ false
      → has_flag flag_rst flags ≡ false
      → IsPiece f seq body
      → All (Carries f) sent
      → All (Carries f) (send_segment_seq env c seq flags body sent).1
  unfolding send_packet send_segment_seq
  send_segment_seq-Carries sent no_fin no_rst piece held =
      elim (Option-cases
        (build_segment 1500 c.local_port c.remote_port seq c.rcv_nxt flags c.rcv_wnd body)) [
          | inl none_built ↦ rw (none_built, send_segment_seq) held
          | inr (segment, e) ↦
              rw (e, send_segment_seq) (built-Carries segment e no_fin no_rst piece, held)
        ]
