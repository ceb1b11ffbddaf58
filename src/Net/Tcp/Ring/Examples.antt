-- ===== src/Net/Tcp/Ring/Examples.antt =====
-- The byte queue on a few bytes.
use ralph_os.Base.{ℕ, ◌-◌, ◌≡◌, List, [], ◌∷◌, ◌++◌, length, min, take, drop}
use ralph_os.Net.Tcp.Ring.{RingBuffer, rx_buffer_size, new, write, read}
use ralph_os.Net.Tcp.Ring.Queue.{IsRing, contents, new-IsRing, write_lem, read_lem}

abbrev hello : List ℕ
hello = 104 ∷ 101 ∷ 108 ∷ 108 ∷ 111 ∷ []

abbrev filled : RingBuffer
filled = (write hello new).1

filled-IsRing : IsRing filled
filled-IsRing = (write_lem hello new new-IsRing).2

write_lem_example :
    ((write hello filled).0 ≡ min (length hello) (rx_buffer_size - filled.len))
    × (contents (write hello filled).1
        ≡ contents filled ++ take (rx_buffer_size - filled.len) hello)
    × IsRing (write hello filled).1
write_lem_example = write_lem hello filled filled-IsRing

read_lem_example :
    ((read 3 filled).0 ≡ take 3 (contents filled))
    × (contents (read 3 filled).1 ≡ drop 3 (contents filled))
    × IsRing (read 3 filled).1
read_lem_example = read_lem 3 filled filled-IsRing
