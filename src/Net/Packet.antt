-- ===== src/Net/Packet.antt =====
-- src/net/packet.rs: the receive and transmit rings that the interrupt handler and the network
-- task share. Each operation is one step: the handler runs to its end.
pub mod Fifo
mod Examples
use ralph_os.Base.{
  ℕ, ◌+◌, ◌-◌, ◌%◌, ◌^◌, Bool, true, false, not, Option, none, some, List, [], ◌∷◌, ◌==◌,
  if◌then◌else◌, get_or, set, take,
}

abbrev pub packet_size : ℕ
packet_size = 1536

abbrev pub rx_buffer_count : ℕ
rx_buffer_count = 16

abbrev pub tx_buffer_count : ℕ
tx_buffer_count = 8

abbrev pub buffer_empty : ℕ
buffer_empty = 0

abbrev pub buffer_full : ℕ
buffer_full = 1

pub record PacketBuffer : Type 0 where
  pub bytes : List ℕ
  pub len : ℕ
  pub flags : ℕ

abbrev pub new_buffer : PacketBuffer
new_buffer = record { bytes = []; len = 0; flags = buffer_empty }

pub record PacketPool : Type 0 where
  pub rx_buffers : List PacketBuffer
  pub tx_buffers : List PacketBuffer
  pub rx_head : ℕ
  pub rx_tail : ℕ
  pub tx_head : ℕ
  pub tx_tail : ℕ
  pub rx_count : ℕ
  pub tx_count : ℕ
  pub rx_dropped : ℕ

-- `init` resets the indices and the counters, and leaves the buffers as they are.
unfoldable pub init : PacketPool → PacketPool
init p = record p {
  rx_head = 0;
  rx_tail = 0;
  tx_head = 0;
  tx_tail = 0;
  rx_count = 0;
  tx_count = 0;
  rx_dropped = 0;
}

-- The index of the buffer that the caller may fill.
unfoldable pub get_rx_buffer_for_write : PacketPool → Option ℕ × PacketPool
get_rx_buffer_for_write p =
    if (p.rx_head + 1) % rx_buffer_count == p.rx_tail
    then (none, record p { rx_dropped = (p.rx_dropped + 1) % 2 ^ 64 })
    else (some p.rx_head, p)

-- The caller's copy into the slice that it was given.
unfoldable pub fill_rx : ℕ → List ℕ → PacketPool → PacketPool
fill_rx i input p = record p {
  rx_buffers = set p.rx_buffers i (record (get_or p.rx_buffers i new_buffer) { bytes = input });
}

unfoldable pub rx_buffer_ready : ℕ → PacketPool → PacketPool
rx_buffer_ready len p =
    let b = get_or p.rx_buffers p.rx_head new_buffer in
    record p {
      rx_buffers =
          set p.rx_buffers p.rx_head (record b { len = len % 2 ^ 16; flags = buffer_full });
      rx_head = (p.rx_head + 1) % rx_buffer_count;
      rx_count = (p.rx_count + 1) % 2 ^ 64;
    }

unfoldable pub get_rx_packet : PacketPool → Option (List ℕ × ℕ)
get_rx_packet p =
    let b = get_or p.rx_buffers p.rx_tail new_buffer in
    if p.rx_head == p.rx_tail
    then none
    else if b.flags == buffer_full
    then some (take b.len b.bytes, b.len)
    else none

unfoldable pub release_rx_buffer : PacketPool → PacketPool
release_rx_buffer p =
    let b = get_or p.rx_buffers p.rx_tail new_buffer in
    record p {
      rx_buffers = set p.rx_buffers p.rx_tail (record b { flags = buffer_empty });
      rx_tail = (p.rx_tail + 1) % rx_buffer_count;
    }

unfoldable pub get_tx_buffer : PacketPool → Option ℕ
get_tx_buffer p = if (p.tx_head + 1) % tx_buffer_count == p.tx_tail then none else some p.tx_head

unfoldable pub fill_tx : ℕ → List ℕ → PacketPool → PacketPool
fill_tx i input p = record p {
  tx_buffers = set p.tx_buffers i (record (get_or p.tx_buffers i new_buffer) { bytes = input });
}

unfoldable pub tx_buffer_ready : ℕ → PacketPool → ℕ × PacketPool
tx_buffer_ready len p =
    let b = get_or p.tx_buffers p.tx_head new_buffer in
    (
      p.tx_head,
      record p {
        tx_buffers =
            set p.tx_buffers p.tx_head (record b { len = len % 2 ^ 16; flags = buffer_full });
        tx_head = (p.tx_head + 1) % tx_buffer_count;
        tx_count = (p.tx_count + 1) % 2 ^ 64;
      },
    )

unfoldable pub get_tx_packet : PacketPool → Option (List ℕ × ℕ × ℕ)
get_tx_packet p =
    let b = get_or p.tx_buffers p.tx_tail new_buffer in
    if p.tx_head == p.tx_tail
    then none
    else if b.flags == buffer_full
    then some (take b.len b.bytes, b.len, p.tx_tail)
    else none

unfoldable pub tx_complete : PacketPool → PacketPool
tx_complete p =
    let b = get_or p.tx_buffers p.tx_tail new_buffer in
    record p {
      tx_buffers = set p.tx_buffers p.tx_tail (record b { flags = buffer_empty });
      tx_tail = (p.tx_tail + 1) % tx_buffer_count;
    }

unfoldable pub stats : PacketPool → ℕ × ℕ × ℕ
stats p = (p.rx_count, p.tx_count, p.rx_dropped)

unfoldable pub has_rx_pending : PacketPool → Bool
has_rx_pending p = not (p.rx_head == p.rx_tail)

unfoldable pub has_tx_pending : PacketPool → Bool
has_tx_pending p = not (p.tx_head == p.tx_tail)
