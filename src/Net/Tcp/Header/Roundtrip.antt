-- ===== src/Net/Tcp/Header/Roundtrip.antt =====
-- A segment that is built is read back, and its checksum is right at the receiver.
use ralph_os.Base.{
  All-append, false, ℕ, ◌+◌, ◌*◌, ◌/◌, ◌%◌, ◌^◌, ◌≤◌, ◌<◌, ◌≡◌, refl, some, List, [], ◌∷◌, arith,
  length, ltb,
}
use ralph_os.Net.Bytes.{Ip, IsIp, put16, put32}
use ralph_os.Net.Checksum.{tcp_udp_checksum}
use ralph_os.Net.Checksum.Verify.{AreBytes, tcp_udp_checksum_self}
use ralph_os.Net.Tcp.Header.{
  header_size, TcpHeader, fields, parse, header_length, payload, segment_bytes, build_segment,
  put_checksum,
}

-- The ranges of the values that `build_segment` is given.
pub record AreFields (src dst seq ack flags window : ℕ) : Type 0 where
  pub src_in : src < 2 ^ 16
  pub dst_in : dst < 2 ^ 16
  pub seq_in : seq < 2 ^ 32
  pub ack_in : ack < 2 ^ 32
  pub flags_in : flags < 64
  pub window_in : window < 2 ^ 16

-- The header of a built segment.
abbrev pub header_of : (src dst seq ack flags window c : ℕ) → TcpHeader
header_of src dst seq ack flags window c = record {
  src_port = src;
  dst_port = dst;
  seq_num = seq;
  ack_num = ack;
  data_offset = 5;
  flags = flags;
  window = window;
  checksum = c;
  urgent_ptr = 0;
}

split16 : (x : ℕ) → x < 2 ^ 16 → x / 256 % 256 * 256 + x % 256 ≡ x
split16 x h = omega arith

split32 :
    (x : ℕ)
    → x < 2 ^ 32
    → ((x / 2 ^ 24 % 256 * 256 + x / 2 ^ 16 % 256) * 256 + x / 256 % 256) * 256 + x % 256 ≡ x
split32 x h = omega arith

module _ (src dst seq ack flags window : ℕ) (r : AreFields src dst seq ack flags window) where
  fields-segment_bytes :
      (c : ℕ) (body : List ℕ)
      → c < 2 ^ 16
      → fields (segment_bytes src dst seq ack flags window c body)
        ≡ header_of src dst seq ack flags window c
  unfolding fields segment_bytes
  fields-segment_bytes c body h = λ i. record {
    src_port = split16 src r.src_in i;
    dst_port = split16 dst r.dst_in i;
    seq_num = split32 seq r.seq_in i;
    ack_num = split32 ack r.ack_in i;
    data_offset = 5;
    flags = small i;
    window = split16 window r.window_in i;
    checksum = split16 c h i;
    urgent_ptr = 0;
  }
    where
      small : flags % 64 ≡ flags
      small = omega (arith, r.flags_in)

  long_enough :
      (c : ℕ) (body : List ℕ)
      → ltb (length (segment_bytes src dst seq ack flags window c body)) header_size ≡ false
  unfolding segment_bytes
  long_enough c body = ground arith

  parse-segment_bytes :
      (c : ℕ) (body : List ℕ)
      → c < 2 ^ 16
      → parse (segment_bytes src dst seq ack flags window c body)
        ≡ some (header_of src dst seq ack flags window c)
  unfolding parse segment_bytes
  parse-segment_bytes c body h = rw (long_enough c body, fields-segment_bytes c body h) refl

  payload-segment_bytes :
      (c : ℕ) (body : List ℕ)
      → payload
          (header_of src dst seq ack flags window c)
          (segment_bytes src dst seq ack flags window c body)
        ≡ body
  unfolding payload header_length segment_bytes
  payload-segment_bytes c [] = refl
  payload-segment_bytes c (b ∷ body) = ground arith

  built :
      (room : ℕ) (body segment : List ℕ)
      → build_segment room src dst seq ack flags window body ≡ some segment
      → segment_bytes src dst seq ack flags window 0 body ≡ segment
  unfolding build_segment
  built room body segment e = ground arith

  put_checksum-segment_bytes :
      (c : ℕ) (body : List ℕ)
      → put_checksum c (segment_bytes src dst seq ack flags window 0 body)
        ≡ segment_bytes src dst seq ack flags window c body
  unfolding put_checksum segment_bytes
  put_checksum-segment_bytes c body = refl

  -- For field values in their ranges, parse and payload give back the fields, the 16-bit checksum
  -- and the body that were put into a built segment.
  pub parse-build_segment :
      (room : ℕ) (body segment : List ℕ) (c : ℕ)
      → c < 2 ^ 16
      → build_segment room src dst seq ack flags window body ≡ some segment
      → let h = header_of src dst seq ack flags window c in
        (parse (put_checksum c segment) ≡ some h) × (payload h (put_checksum c segment) ≡ body)
  parse-build_segment room body segment c h e =
      rw (← built room body segment e, put_checksum-segment_bytes c body)
        (parse-segment_bytes c body h, payload-segment_bytes c body)

  -- For field values and addresses in their ranges and a body of bytes, the checksum that is put
  -- into a built segment of at most 65,535 bytes makes the receiver's sum zero.
  checksum-build_segment :
      (room : ℕ) (from to : Ip) (body segment : List ℕ)
      → IsIp from
      → IsIp to
      → AreBytes body
      → length body ≤ 65515
      → build_segment room src dst seq ack flags window body ≡ some segment
      → tcp_udp_checksum from to 6 (put_checksum (tcp_udp_checksum from to 6 segment) segment) ≡ 0
  checksum-build_segment room from to body segment i j b short e =
      rw (← built room body segment e, put_checksum-segment_bytes)
        (unfold segment_bytes in
          tcp_udp_checksum_self from to 6
            (put16 src (put16 dst (put32 seq (put32 ack (0x50 ∷ flags ∷ put16 window [])))))
            (put16 0 body) i j (omega arith) tt
            (All-append (λ b. b < 256)
              (put16 src (put16 dst (put32 seq (put32 ack (0x50 ∷ flags ∷ put16 window [])))))
              (put16 0 body) (omega (arith, r)) (omega arith, (omega arith, b)))
            (omega arith))
