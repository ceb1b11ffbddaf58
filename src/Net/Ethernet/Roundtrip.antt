-- ===== src/Net/Ethernet/Roundtrip.antt =====
-- A frame is read back by the host that it is for.
use ralph_os.Base.{
  ℕ, ◌+◌, ◌-◌, ◌*◌, ◌/◌, ◌%◌, ◌^◌, ◌<◌, ◌≡◌, some, List, ◌++◌, arith, length, replicate,
  length-append, length-replicate,
}
use ralph_os.Net.Arp.{Mac, mac}
use ralph_os.Net.Ethernet.{header_size, min_frame_size, parse, payload, build_frame, frame}

abbrev pub padding : List ℕ → List ℕ
padding d = replicate (min_frame_size - (header_size + length d)) 0

-- The three fields of a frame.
pub parse-frame :
    (our_mac dst : Mac) (ethertype : ℕ) (d : List ℕ)
    → ethertype < 2 ^ 16
    → (parse (frame our_mac dst ethertype d)
        ≡ some (record { dst_mac = dst; src_mac = our_mac; ethertype = ethertype }))
      × (payload (frame our_mac dst ethertype d) ≡ d ++ padding d)
unfolding parse payload frame build_frame
parse-frame (mac a b c d e f) (mac g h i j k l) ethertype body small =
    let whole : ethertype / 256 % 256 * 256 + ethertype % 256 ≡ ethertype = omega arith in
    let long : length (body ++ padding body) ≡ length body + length (padding body) =
      length-append body (padding body) in
    let pad : length (padding body) ≡ min_frame_size - (header_size + length body) =
      length-replicate (min_frame_size - (header_size + length body)) 0 in
    (rw (parse, whole) (ground arith), ground (arith, long, pad))
