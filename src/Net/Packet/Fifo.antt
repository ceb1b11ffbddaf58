-- ===== src/Net/Packet/Fifo.antt =====
-- The receive ring is a queue of at most 15 packets, filled at one end by the interrupt handler
-- and emptied at the other by the network task.
use ralph_os.Base.{
  ℕ, zero, suc, ◌+◌, ◌-◌, ◌%◌, ◌^◌, ◌≤◌, ◌<◌, ◌≡◌, refl, ap, ◌∙◌, Option, none, some, List, [], ◌∷◌,
  ◌++◌, arith, ◌==◌, ◌⊎◌, ltb, inl, inr, true, false, Bool-cases, ltb→lt, lt→ltb, length, get_or,
  set, take, length-set, get_or-set_self, get_or-set_ne, set-set, take-length_le,
}
use ralph_os.Net.Packet.{
  PacketBuffer, PacketPool, new_buffer, rx_buffer_count, packet_size, buffer_full, buffer_empty,
  get_rx_buffer_for_write, fill_rx, rx_buffer_ready, get_rx_packet, release_rx_buffer,
}

-- The packets in the `n` slots from `i` on.
unfoldable pub queued : List PacketBuffer → ℕ → ℕ → List (List ℕ)
queued bs i zero = []
queued bs i (suc n) =
    let b = get_or bs i new_buffer in take b.len b.bytes ∷ queued bs ((i + 1) % rx_buffer_count) n

-- The slots from `i` on that wait to be read are marked full.
abbrev pub AreFull : List PacketBuffer → ℕ → ℕ → Type 0
AreFull bs i zero = Unit {0}
AreFull bs i (suc n) =
    ((get_or bs i new_buffer).flags ≡ buffer_full) × AreFull bs ((i + 1) % rx_buffer_count) n

-- The number of packets in the ring.
abbrev pub count : PacketPool → ℕ
count p = (p.rx_head + rx_buffer_count - p.rx_tail) % rx_buffer_count

pub record IsRxRing (p : PacketPool) : Type 0 where
  pub size : length p.rx_buffers ≡ rx_buffer_count
  pub head_in : p.rx_head < rx_buffer_count
  pub tail_in : p.rx_tail < rx_buffer_count
  pub full : AreFull p.rx_buffers p.rx_tail (count p)

-- The queue, oldest packet first.
unfoldable pub rx_queue : PacketPool → List (List ℕ)
rx_queue p = queued p.rx_buffers p.rx_tail (count p)

-- A write to a slot that does not wait to be read shows nowhere.
queued-set :
    (bs : List PacketBuffer) (i h n : ℕ) (b : PacketBuffer)
    → i < rx_buffer_count
    → h < rx_buffer_count
    → n ≤ (h + rx_buffer_count - i) % rx_buffer_count
    → (queued (set bs h b) i n ≡ queued bs i n) × (AreFull bs i n → AreFull (set bs h b) i n)
unfolding queued
queued-set bs i h zero b p q r = (refl, λ f. f)
queued-set bs i h (suc n) b p q r =
    let rest = queued-set bs ((i + 1) % rx_buffer_count) h n b (omega arith) q (omega arith) in
    let same = get_or-set_ne bs h i b new_buffer (omega arith) in
    (rw (same, rest.0), λ f. (rw same f.0, rest.1 f.1))

queued-snoc :
    (bs : List PacketBuffer) (i n : ℕ)
    → i < rx_buffer_count
    → let b = get_or bs ((i + n) % rx_buffer_count) new_buffer in
      (queued bs i (suc n) ≡ queued bs i n ++ (take b.len b.bytes ∷ []))
      × (AreFull bs i n → b.flags ≡ buffer_full → AreFull bs i (suc n))
unfolding queued
queued-snoc bs i zero p =
    let e : (i + 0) % rx_buffer_count ≡ i = omega arith in (rw e refl, λ f g. (rw (← e) g, tt))
queued-snoc bs i (suc n) p =
    let e : ((i + 1) % rx_buffer_count + n) % rx_buffer_count ≡ (i + suc n) % rx_buffer_count =
      omega arith in
    let rest = queued-snoc bs ((i + 1) % rx_buffer_count) n (omega arith) in
    (
      ap (λ l. take (get_or bs i new_buffer).len (get_or bs i new_buffer).bytes ∷ l)
          (rw (← e) rest.0),
      λ f g. (f.0, rest.1 f.1 (rw e g)),
    )

-- The interrupt handler's use of the ring, as in `ne2000::receive_packets`: ask for a buffer, copy
-- the frame, mark it ready.
unfoldable pub fill_given : List ℕ → Option ℕ × PacketPool → PacketPool
fill_given frame (none, p) = p
fill_given frame (some i, p) = rx_buffer_ready (length frame) (fill_rx i frame p)

unfoldable pub receive : List ℕ → PacketPool → PacketPool
receive frame p = fill_given frame (get_rx_buffer_for_write p)

-- The slot of a received frame.
abbrev full_buffer : List ℕ → PacketBuffer
full_buffer frame = record { bytes = frame; len = length frame % 2 ^ 16; flags = buffer_full }

take-length :
    (frame : List ℕ) → length frame ≤ packet_size → take (length frame % 2 ^ 16) frame ≡ frame
take-length frame h = take-length_le (length frame % 2 ^ 16) frame (omega arith)

-- What the handler's copy and `rx_buffer_ready` do to the buffers.
abbrev pushed : List ℕ → PacketPool → List PacketBuffer
pushed frame p = set p.rx_buffers p.rx_head (full_buffer frame)

pub record Received (frame : List ℕ) (p q : PacketPool) : Type 0 where
  pub buffers : q.rx_buffers ≡ pushed frame p
  pub head : q.rx_head ≡ (p.rx_head + 1) % rx_buffer_count
  pub tail : q.rx_tail ≡ p.rx_tail
  pub dropped : q.rx_dropped ≡ p.rx_dropped

receive-filled :
    (frame : List ℕ) (p : PacketPool)
    → p.rx_head < length p.rx_buffers
    → Received frame p (rx_buffer_ready (length frame) (fill_rx p.rx_head frame p))
unfolding rx_buffer_ready fill_rx
receive-filled frame p h = record {
  buffers =
      rw
        (get_or-set_self p.rx_buffers p.rx_head
          (record (get_or p.rx_buffers p.rx_head new_buffer) { bytes = frame }) new_buffer h)
        (set-set p.rx_buffers p.rx_head
          (record (get_or p.rx_buffers p.rx_head new_buffer) { bytes = frame })
          (record { bytes = frame; len = length frame % 2 ^ 16; flags = buffer_full }));
  head = refl;
  tail = refl;
  dropped = refl;
}

receive-room :
    (frame : List ℕ) (p : PacketPool)
    → IsRxRing p
    → count p < 15
    → Received frame p (receive frame p)
unfolding receive get_rx_buffer_for_write fill_given
receive-room frame p v h =
    let free : ((p.rx_head + 1) % rx_buffer_count == p.rx_tail) ≡ false = ground (arith, v) in
    let given : get_rx_buffer_for_write p ≡ (some p.rx_head, p) = rw free refl in
    rw given (receive-filled frame p (omega (arith, v)))

receive-no_room :
    (frame : List ℕ) (p : PacketPool)
    → IsRxRing p
    → 15 ≤ count p
    → receive frame p ≡ record p { rx_dropped = (p.rx_dropped + 1) % 2 ^ 64 }
unfolding receive get_rx_buffer_for_write fill_given
receive-no_room frame p v h =
    let taken : ((p.rx_head + 1) % rx_buffer_count == p.rx_tail) ≡ true = ground (arith, v) in
    let given : get_rx_buffer_for_write p
        ≡ (none, record p { rx_dropped = (p.rx_dropped + 1) % 2 ^ 64 }) =
      rw taken refl in
    ap (fill_given frame) given

received-IsRxRing :
    (frame : List ℕ) (p q : PacketPool)
    → IsRxRing p
    → count p < 15
    → length frame ≤ packet_size
    → Received frame p q
    → IsRxRing q × (rx_queue q ≡ rx_queue p ++ (frame ∷ []))
unfolding rx_queue
received-IsRxRing frame p q v h short r =
    let more : count q ≡ suc (count p) = ground (arith, r) in
    let at : (p.rx_tail + count p) % rx_buffer_count ≡ p.rx_head = omega (arith, v) in
    let kept =
      queued-set p.rx_buffers p.rx_tail p.rx_head (count p) (full_buffer frame) v.tail_in v.head_in
        (omega (arith, v)) in
    let new = queued-snoc (pushed frame p) p.rx_tail (count p) v.tail_in in
    let slot : get_or (pushed frame p) ((p.rx_tail + count p) % rx_buffer_count) new_buffer
        ≡ full_buffer frame =
      rw at (
        get_or-set_self p.rx_buffers p.rx_head (full_buffer frame) new_buffer (omega (arith, v))) in
    (
      record {
        size = rw (r.buffers, length-set) v.size;
        head_in = rw r.head (omega arith);
        tail_in = rw r.tail v.tail_in;
        full = rw (r.buffers, more, r.tail) (new.1 (kept.1 v.full) (ap (λ b. b.flags) slot));
      },
      rw (r.buffers, more, r.tail) (new.0 ∙ rw (slot, kept.0, take-length frame short) refl),
    )

-- A received frame that fits a buffer goes to the end of the queue while the queue has fewer than
-- 15 packets; when it has 15, the frame is lost and counted as dropped. The ring stays sound.
pub receive_lem :
    (frame : List ℕ) (p : PacketPool)
    → IsRxRing p
    → length frame ≤ packet_size
    → let q = receive frame p in
      IsRxRing q
      × ((count p < 15) × (rx_queue q ≡ rx_queue p ++ (frame ∷ [])) × (q.rx_dropped ≡ p.rx_dropped)
          ⊎ (15 ≤ count p)
            × (rx_queue q ≡ rx_queue p)
            × (q.rx_dropped ≡ (p.rx_dropped + 1) % 2 ^ 64))
unfolding rx_queue
receive_lem frame p v short = elim (Bool-cases (ltb (count p) 15)) [
  | inl e ↦
      let h = ltb→lt (count p) 15 e in
      let r = receive-room frame p v h in
      let s = received-IsRxRing frame p (receive frame p) v h short r in
      (s.0, inl (h, s.1, r.dropped))
  | inr e ↦
      let h : 15 ≤ count p = ground (arith, e, lt→ltb (count p) 15) in
      rw (receive-no_room frame p v h) (
        record { size = v.size; head_in = v.head_in; tail_in = v.tail_in; full = v.full },
        inr (h, refl, refl),
      )
]

pub record Taken (p : PacketPool) : Type 0 where
  pub head : List ℕ
  pub rest : List (List ℕ)
  pub size : ℕ
  pub was : rx_queue p ≡ head ∷ rest
  pub got : get_rx_packet p ≡ some (head, size)
  pub left : rx_queue (release_rx_buffer p) ≡ rest
  pub sound : IsRxRing (release_rx_buffer p)

AreFull-count : (bs : List PacketBuffer) (i n m : ℕ) → n ≡ m → AreFull bs i m → AreFull bs i n
AreFull-count bs i n m e f = rw e f

get_rx_packet-some : (p : PacketPool) (n : ℕ) → IsRxRing p → suc n ≡ count p → Taken p
unfolding rx_queue queued get_rx_packet release_rx_buffer
get_rx_packet-some p n v e =
    let b = get_or p.rx_buffers p.rx_tail new_buffer in
    let next : ℕ = (p.rx_tail + 1) % rx_buffer_count in
    let left : (p.rx_head + rx_buffer_count - next) % rx_buffer_count ≡ n = omega (arith, v) in
    let differ : (p.rx_head == p.rx_tail) ≡ false = ground (arith, v) in
    let all : AreFull p.rx_buffers p.rx_tail (suc n) =
      AreFull-count p.rx_buffers p.rx_tail (suc n) (count p) e v.full in
    let kept =
      queued-set p.rx_buffers next p.rx_tail n (record b { flags = buffer_empty }) (omega arith)
        v.tail_in (omega (arith, v)) in
    record {
      head = take b.len b.bytes;
      rest = queued p.rx_buffers next n;
      size = b.len;
      was = rw (← e) refl;
      got = rw (differ, all.0) refl;
      left = rw (left, kept.0) refl;
      sound = record {
        size = rw length-set v.size;
        head_in = v.head_in;
        tail_in = omega arith;
        full = rw left (kept.1 all.1);
      };
    }

get_rx_packet-none :
    (p : PacketPool) → IsRxRing p → 0 ≡ count p → (get_rx_packet p ≡ none) × (rx_queue p ≡ [])
unfolding rx_queue queued get_rx_packet
get_rx_packet-none p v e =
    let same : (p.rx_head == p.rx_tail) ≡ true = ground (arith, v) in (rw same refl, rw (← e) refl)

cases_of_count :
    (p : PacketPool) (n : ℕ)
    → IsRxRing p
    → n ≡ count p
    → (get_rx_packet p ≡ none) × (rx_queue p ≡ []) ⊎ Taken p
cases_of_count p zero v e = inl (get_rx_packet-none p v e)
cases_of_count p (suc n) v e = inr (get_rx_packet-some p n v e)

-- On a sound ring, the packet that get_rx_packet returns and that release_rx_buffer gives back is
-- the oldest of the queue, the ring stays sound, and there is no packet to return only when the
-- queue is empty.
pub get_rx_packet_lem :
    (p : PacketPool) → IsRxRing p → (get_rx_packet p ≡ none) × (rx_queue p ≡ []) ⊎ Taken p
get_rx_packet_lem p v = cases_of_count p (count p) v refl
