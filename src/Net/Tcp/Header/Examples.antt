-- ===== src/Net/Tcp/Header/Examples.antt =====
-- A segment with five bytes in it.
use ralph_os.Base.{ℕ, ◌≡◌, refl, some, List, [], ◌∷◌, arith}
use ralph_os.Net.Bytes.{Ip, ip}
use ralph_os.Net.Tcp.Header.{parse, payload, build_segment, segment_bytes, put_checksum}
use ralph_os.Net.Tcp.Header.Roundtrip.{AreFields, header_of, parse-build_segment}

abbrev host : Ip
host = ip 10 0 2 15

abbrev peer : Ip
peer = ip 10 0 2 2

abbrev body : List ℕ
body = 104 ∷ 101 ∷ 108 ∷ 108 ∷ 111 ∷ []

abbrev segment : List ℕ
segment = segment_bytes 49152 23 1000 2000 24 1024 0 body

fields_in : AreFields 49152 23 1000 2000 24 1024
fields_in = omega arith

built : build_segment 1500 49152 23 1000 2000 24 1024 body ≡ some segment
unfolding build_segment
built = refl

parse-build_segment_example :
    (parse (put_checksum 4660 segment) ≡ some (header_of 49152 23 1000 2000 24 1024 4660))
    × (payload (header_of 49152 23 1000 2000 24 1024 4660) (put_checksum 4660 segment) ≡ body)
parse-build_segment_example =
    parse-build_segment 49152 23 1000 2000 24 1024 fields_in 1500 body segment 4660 (omega arith)
      built
