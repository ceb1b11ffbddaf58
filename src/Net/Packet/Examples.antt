-- ===== src/Net/Packet/Examples.antt =====
-- The receive ring with one packet in it.
use ralph_os.Base.{
  ℕ, ◌+◌, ◌%◌, ◌^◌, ◌<◌, ◌≤◌, ◌≡◌, refl, none, List, [], ◌∷◌, ◌++◌, ◌⊎◌, replicate, arith,
}
use ralph_os.Net.Packet.{PacketPool, new_buffer, rx_buffer_count, tx_buffer_count, get_rx_packet}
use ralph_os.Net.Packet.Fifo.{
  IsRxRing, count, rx_queue, receive, receive_lem, Taken, get_rx_packet_lem,
}

abbrev empty_pool : PacketPool
empty_pool = record {
  rx_buffers = replicate rx_buffer_count new_buffer;
  tx_buffers = replicate tx_buffer_count new_buffer;
  rx_head = 3;
  rx_tail = 3;
  tx_head = 0;
  tx_tail = 0;
  rx_count = 0;
  tx_count = 0;
  rx_dropped = 0;
}

empty-IsRxRing : IsRxRing empty_pool
empty-IsRxRing = record { size = refl; head_in = omega arith; tail_in = omega arith; full = tt }

abbrev frame : List ℕ
frame = 1 ∷ 2 ∷ 3 ∷ []

receive_lem_example :
    IsRxRing (receive frame empty_pool)
    × ((count empty_pool < 15)
          × (rx_queue (receive frame empty_pool) ≡ rx_queue empty_pool ++ (frame ∷ []))
          × ((receive frame empty_pool).rx_dropped ≡ empty_pool.rx_dropped)
        ⊎ (15 ≤ count empty_pool)
          × (rx_queue (receive frame empty_pool) ≡ rx_queue empty_pool)
          × ((receive frame empty_pool).rx_dropped ≡ (empty_pool.rx_dropped + 1) % 2 ^ 64))
receive_lem_example = receive_lem frame empty_pool empty-IsRxRing (omega arith)

get_rx_packet_lem_example :
    (get_rx_packet (receive frame empty_pool) ≡ none) × (rx_queue (receive frame empty_pool) ≡ [])
    ⊎ Taken (receive frame empty_pool)
get_rx_packet_lem_example = get_rx_packet_lem (receive frame empty_pool) receive_lem_example.0
