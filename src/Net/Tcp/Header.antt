-- ===== src/Net/Tcp/Header.antt =====
-- The header of src/net/tcp.rs: its flags, `TcpHeader::parse` and `build_segment`.
pub mod Roundtrip
mod Examples
use ralph_os.Base.{
  ℕ, ◌+◌, ◌-◌, ◌*◌, ◌/◌, ◌%◌, ◌^◌, Bool, true, false, not, Option, none, some, List, [], ◌∷◌, ◌++◌,
  ltb, leb, ◌==◌, if◌then◌else◌, length, drop, set,
}
use ralph_os.Net.Bytes.{be16, be32, put16, put32, byte_at}

abbrev pub header_size : ℕ
header_size = 20

abbrev pub mss : ℕ
mss = 1460

-- Sets of flags, as the source's `FLAG_…` constants combine.
abbrev pub flag_fin : ℕ
flag_fin = 0x01

abbrev pub flag_syn : ℕ
flag_syn = 0x02

abbrev pub flag_rst : ℕ
flag_rst = 0x04

abbrev pub flag_psh : ℕ
flag_psh = 0x08

abbrev pub flag_ack : ℕ
flag_ack = 0x10

pub record TcpHeader : Type 0 where
  pub src_port : ℕ
  pub dst_port : ℕ
  pub seq_num : ℕ
  pub ack_num : ℕ
  pub data_offset : ℕ
  pub flags : ℕ
  pub window : ℕ
  pub checksum : ℕ
  pub urgent_ptr : ℕ

-- The fields at their places in the bytes.
unfoldable pub fields : List ℕ → TcpHeader
fields d = record {
  src_port = be16 (byte_at d 0) (byte_at d 1);
  dst_port = be16 (byte_at d 2) (byte_at d 3);
  seq_num = be32 (byte_at d 4) (byte_at d 5) (byte_at d 6) (byte_at d 7);
  ack_num = be32 (byte_at d 8) (byte_at d 9) (byte_at d 10) (byte_at d 11);
  data_offset = byte_at d 12 / 16 % 16;
  flags = byte_at d 13 % 64;
  window = be16 (byte_at d 14) (byte_at d 15);
  checksum = be16 (byte_at d 16) (byte_at d 17);
  urgent_ptr = be16 (byte_at d 18) (byte_at d 19);
}

unfoldable pub parse : List ℕ → Option TcpHeader
unfolding fields
parse d =
    if ltb (length d) header_size
    then none
    else if ltb (fields d).data_offset 5
    then none
    else some (fields d)

unfoldable pub header_length : TcpHeader → ℕ
header_length h = h.data_offset * 4

unfoldable pub payload : TcpHeader → List ℕ → List ℕ
unfolding header_length
payload h d = if ltb (header_length h) (length d) then drop (header_length h) d else []

-- `flags & FLAG != 0`, for a flag that is a power of two
abbrev pub has_flag : ℕ → ℕ → Bool
has_flag flag flags = flags / flag % 2 == 1

unfoldable pub is_syn : TcpHeader → Bool
is_syn h = has_flag flag_syn h.flags

unfoldable pub is_ack : TcpHeader → Bool
is_ack h = has_flag flag_ack h.flags

unfoldable pub is_fin : TcpHeader → Bool
is_fin h = has_flag flag_fin h.flags

unfoldable pub is_rst : TcpHeader → Bool
is_rst h = has_flag flag_rst h.flags

-- The bytes of a segment, whose checksum field holds `cksum`.
unfoldable pub segment_bytes : (src dst seq ack flags window cksum : ℕ) → List ℕ → List ℕ
segment_bytes src dst seq ack flags window cksum body =
    put16 src
      (put16 dst (put32 seq (put32 ack (0x50 ∷ flags ∷ put16 window (put16 cksum (put16 0 body))))))

-- `none` is the source's 0: the buffer of `room` bytes is too small.
unfoldable pub build_segment : (room src dst seq ack flags window : ℕ) → List ℕ → Option (List ℕ)
unfolding segment_bytes
build_segment room src dst seq ack flags window body =
    if ltb room (header_size + length body)
    then none
    else some (segment_bytes src dst seq ack flags window 0 body)

-- The write of the checksum into bytes 16 and 17.
unfoldable pub put_checksum : ℕ → List ℕ → List ℕ
put_checksum c d = set (set d 16 (c / 256 % 256)) 17 (c % 256)
