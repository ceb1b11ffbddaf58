-- ===== src/Net/Icmp/Echo.antt =====
-- Echo messages are read back; a request is answered and a reply is not.
use ralph_os.Base.{
  ℕ, ◌+◌, ◌*◌, ◌/◌, ◌%◌, ◌^◌, ◌<◌, ◌≤◌, ◌≡◌, refl, true, some, List, [], ◌∷◌, arith, ltb, length,
}
use ralph_os.Net.Bytes.{put16}
use ralph_os.Net.Checksum.{internet_checksum, verify_checksum}
use ralph_os.Net.Checksum.Verify.{AreBytes, verify_checksum-internet_checksum, fold_checksum-lt}
use ralph_os.Net.Ethernet.{Link}
use ralph_os.Net.Ipv4.{Ipv4Header}
use ralph_os.Net.Icmp.{
  header_size, type_echo_request, type_echo_reply, parse, payload, message, send_echo_reply,
  process_packet,
}

abbrev pub checksum_of : (icmp_type identifier sequence : ℕ) → List ℕ → ℕ
checksum_of icmp_type identifier sequence d =
    internet_checksum (icmp_type ∷ 0 ∷ put16 0 (put16 identifier (put16 sequence d)))

whole16 : (x : ℕ) → x < 2 ^ 16 → x / 256 % 256 * 256 + x % 256 ≡ x
whole16 x h = omega arith

parse-fields :
    (icmp_type ck identifier sequence : ℕ) (d : List ℕ)
    → ck < 2 ^ 16
    → identifier < 2 ^ 16
    → sequence < 2 ^ 16
    → parse (icmp_type ∷ 0 ∷ put16 ck (put16 identifier (put16 sequence d)))
      ≡ some (record {
        icmp_type = icmp_type;
        code = 0;
        checksum = ck;
        identifier = identifier;
        sequence = sequence;
      })
unfolding parse
parse-fields icmp_type ck identifier sequence d p q r =
    rw (parse, whole16 ck p, whole16 identifier q, whole16 sequence r) (ground arith)

pub parse-message :
    (icmp_type identifier sequence : ℕ) (d : List ℕ)
    → identifier < 2 ^ 16
    → sequence < 2 ^ 16
    → parse (message icmp_type identifier sequence d)
      ≡ some (record {
        icmp_type = icmp_type;
        code = 0;
        checksum = checksum_of icmp_type identifier sequence d;
        identifier = identifier;
        sequence = sequence;
      })
parse-message icmp_type identifier sequence d p q =
    parse-fields icmp_type (checksum_of icmp_type identifier sequence d) identifier sequence d
      (unfold internet_checksum in fold_checksum-lt _) p q

pub verify-message :
    (icmp_type identifier sequence : ℕ) (d : List ℕ)
    → icmp_type < 256
    → AreBytes d
    → length d ≤ 1472
    → verify_checksum (message icmp_type identifier sequence d) ≡ true
verify-message icmp_type identifier sequence d small bytes short =
    verify_checksum-internet_checksum (icmp_type ∷ 0 ∷ []) (put16 identifier (put16 sequence d)) tt
      (small, (omega arith, (omega arith, (omega arith, (omega arith, (omega arith, bytes))))))
      (omega arith)

payload-message :
    (icmp_type identifier sequence : ℕ) (d : List ℕ)
    → payload (message icmp_type identifier sequence d) ≡ d
unfolding payload
payload-message icmp_type identifier sequence [] = refl
payload-message icmp_type identifier sequence (b ∷ d) =
    let long : ltb header_size (length (message icmp_type identifier sequence (b ∷ d))) ≡ true =
      ground arith in
    rw (payload, long) refl

-- A request with at most 1472 bytes of data.
pub process_packet-request :
    (h : Ipv4Header) (identifier sequence : ℕ) (d : List ℕ) (l : Link)
    → identifier < 2 ^ 16
    → sequence < 2 ^ 16
    → AreBytes d
    → length d ≤ 1472
    → process_packet h (message type_echo_request identifier sequence d) l
      ≡ send_echo_reply h.src_ip identifier sequence d l
unfolding process_packet
process_packet-request h identifier sequence d l p q bytes short =
    rw
      (
        process_packet,
        parse-message type_echo_request identifier sequence d p q,
        verify-message type_echo_request identifier sequence d (omega arith) bytes short,
        payload-message type_echo_request identifier sequence d,
      )
      refl

pub process_packet-reply :
    (h : Ipv4Header) (identifier sequence : ℕ) (d : List ℕ) (l : Link)
    → identifier < 2 ^ 16
    → sequence < 2 ^ 16
    → AreBytes d
    → length d ≤ 1472
    → process_packet h (message type_echo_reply identifier sequence d) l ≡ l
unfolding process_packet
process_packet-reply h identifier sequence d l p q bytes short =
    rw
      (
        process_packet,
        parse-message type_echo_reply identifier sequence d p q,
        verify-message type_echo_reply identifier sequence d (omega arith) bytes short,
      )
      refl
