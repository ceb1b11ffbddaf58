-- ===== src/Net/Ipv4/Roundtrip.antt =====
-- A packet that another host builds passes the checks and arrives without its padding.
use ralph_os.Base.{
  ℕ, suc, ◌+◌, ◌*◌, ◌/◌, ◌%◌, ◌^◌, ◌<◌, ◌≡◌, refl, ap, ◌∙◌, true, false, some, List, [], ◌∷◌, ◌++◌,
  arith, ltb, leb, length, take, drop, length-append, take_count,
}
use ralph_os.Net.Bytes.{Ip, ip, IsIp, ip_eq, ip_eq_iff, put16}
use ralph_os.Net.Checksum.{internet_checksum}
use ralph_os.Net.Checksum.Verify.{AreBytes, verify_checksum-internet_checksum, fold_checksum-lt}
use ralph_os.Net.Arp.{NetConfig, put_ip}
use ralph_os.Net.Ipv4.{
  Ipv4Header, header_size, header_length, fields, parse, payload, is_for_us, verify_checksum,
  is_fragmented, head_bytes, address_bytes, build_header, dispatch, process_packet,
}

take-append : (pre l : List ℕ) (n : ℕ) → take (length pre + n) (pre ++ l) ≡ pre ++ take n l
take-append [] l n = take_count (0 + n) n l (omega arith)
take-append (x ∷ pre) l n =
    take_count (length (x ∷ pre) + n) (suc (length pre + n)) (x ∷ (pre ++ l)) (omega arith)
    ∙ ap (λ r. x ∷ r) (take-append pre l n)

take-length : (l rest : List ℕ) → take (length l) (l ++ rest) ≡ l
take-length [] rest = refl
take-length (x ∷ l) rest = ap (λ r. x ∷ r) (take-length l rest)

-- The header that a built packet is read as.
abbrev pub built : (src : Ip) (id protocol : ℕ) (dst : Ip) (payload_len : ℕ) → Ipv4Header
built src id protocol dst payload_len = record {
  version = 4;
  ihl = 5;
  tos = 0;
  total_length = header_size + payload_len;
  identification = id;
  flags_fragment = 0x4000;
  ttl = 64;
  protocol = protocol;
  checksum =
      internet_checksum (head_bytes id protocol payload_len ++ put16 0 (address_bytes src dst));
  src_ip = src;
  dst_ip = dst;
}

whole16 : (x : ℕ) → x < 2 ^ 16 → x / 256 % 256 * 256 + x % 256 ≡ x
whole16 x h = omega arith

-- The header as a function of its total length and its checksum.
abbrev header_of : (src dst : Ip) (total id protocol ck : ℕ) → Ipv4Header
header_of src dst total id protocol ck = record {
  version = 4;
  ihl = 5;
  tos = 0;
  total_length = total;
  identification = id;
  flags_fragment = 0x4000;
  ttl = 64;
  protocol = protocol;
  checksum = ck;
  src_ip = src;
  dst_ip = dst;
}

parse-fields :
    (src dst : Ip) (total id protocol ck : ℕ) (rest : List ℕ)
    → total < 2 ^ 16
    → id < 2 ^ 16
    → ck < 2 ^ 16
    → parse (
        0x45
        ∷ 0
        ∷ put16 total
            (put16 id (put16 0x4000 (64 ∷ protocol ∷ put16 ck (put_ip src (put_ip dst rest))))))
      ≡ some (header_of src dst total id protocol ck)
unfolding parse fields
parse-fields (ip a b c d) (ip e f g h) total id protocol ck rest p q r =
    rw (parse, whole16 total p, whole16 id q, whole16 ck r) (ground arith)

pub parse-build_header :
    (src dst : Ip) (id protocol : ℕ) (body rest : List ℕ)
    → id < 2 ^ 16
    → header_size + length body < 2 ^ 16
    → parse (build_header src id protocol dst (length body) ++ rest)
      ≡ some (built src id protocol dst (length body))
unfolding build_header
parse-build_header (ip a b c d) (ip e f g h) id protocol body rest small fits =
    let ck =
      internet_checksum (
        head_bytes id protocol (length body)
        ++ put16 0 (address_bytes (ip a b c d) (ip e f g h))) in
    let wrap : (header_size + length body) % 2 ^ 16 ≡ header_size + length body = omega arith in
    let ck_small : ck < 2 ^ 16 = unfold internet_checksum in fold_checksum-lt _ in
    parse-fields (ip a b c d) (ip e f g h) ((header_size + length body) % 2 ^ 16) id protocol ck
      rest (omega arith) small ck_small
    ∙ ap (λ t. some (header_of (ip a b c d) (ip e f g h) t id protocol ck)) wrap

verify-build_header :
    (src dst : Ip) (id protocol : ℕ) (body rest : List ℕ)
    → IsIp src
    → IsIp dst
    → protocol < 256
    → verify_checksum
        (built src id protocol dst (length body))
        (build_header src id protocol dst (length body) ++ rest)
      ≡ true
unfolding verify_checksum build_header
verify-build_header (ip a b c d) (ip e f g h) id protocol body rest i j small =
    let before = head_bytes id protocol (length body) in
    let after = address_bytes (ip a b c d) (ip e f g h) in
    let bytes : AreBytes (before ++ after) = (
      omega arith,
      (
        omega arith,
        (
          omega arith,
          (
            omega arith,
            (
              omega arith,
              (
                omega arith,
                (
                  omega arith,
                  (
                    omega arith,
                    (
                      omega arith,
                      (small, (i.0, (i.1, (i.2, (i.3, (j.0, (j.1, (j.2, (j.3, tt))))))))),
                    ),
                  ),
                ),
              ),
            ),
          ),
        ),
      ),
    ) in
    let ok = verify_checksum-internet_checksum before after tt bytes (omega arith) in
    let head = build_header (ip a b c d) id protocol (ip e f g h) (length body) in
    let long : ltb (length (head ++ rest))
          (header_length (built (ip a b c d) id protocol (ip e f g h) (length body)))
        ≡ false =
      ground arith in
    rw (verify_checksum, long) ok

payload-build_header :
    (src dst : Ip) (id protocol : ℕ) (body rest : List ℕ)
    → 0 < length body
    → payload
        (built src id protocol dst (length body))
        (build_header src id protocol dst (length body) ++ (body ++ rest))
      ≡ body
unfolding payload build_header
payload-build_header (ip a b c d) (ip e f g h) id protocol body rest some_body =
    let head = build_header (ip a b c d) id protocol (ip e f g h) (length body) in
    let len = length-append body rest in
    let taken : take (20 + length body) (head ++ (body ++ rest)) ≡ head ++ body =
      take-append head (body ++ rest) (length body) ∙ ap (λ l. head ++ l) (take-length body rest) in
    let enough : leb (20 + length body) (length (head ++ (body ++ rest))) ≡ true =
      ground (arith, len) in
    let more : ltb 20 (20 + length body) ≡ true = ground arith in
    rw (enough, more) (ap (drop 20) taken)

-- A packet for us with the header that build_header writes, for addresses, identification and
-- protocol in their ranges and 1 to 65,515 bytes of payload, followed by any padding, passes all
-- checks: the handler of its protocol gets the fields that were put in and exactly the payload.
pub process_packet-build_header :
    (cfg : NetConfig) (src : Ip) (id protocol : ℕ) (body rest : List ℕ)
    → IsIp src
    → IsIp cfg.ip
    → id < 2 ^ 16
    → protocol < 256
    → 0 < length body
    → header_size + length body < 2 ^ 16
    → process_packet cfg (build_header src id protocol cfg.ip (length body) ++ (body ++ rest))
      ≡ dispatch (built src id protocol cfg.ip (length body)) body
unfolding process_packet is_for_us is_fragmented
process_packet-build_header cfg src id protocol body rest i j small p some_body fits =
    let ours : ip_eq cfg.ip cfg.ip ≡ true = (ip_eq_iff cfg.ip cfg.ip).1 refl in
    rw
      (
        process_packet,
        parse-build_header src cfg.ip id protocol body (body ++ rest) small fits,
        ours,
        verify-build_header src cfg.ip id protocol body (body ++ rest) i j p,
      )
      (ap (dispatch (built src id protocol cfg.ip (length body)))
        (payload-build_header src cfg.ip id protocol body rest some_body))
