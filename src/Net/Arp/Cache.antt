-- ===== src/Net/Arp/Cache.antt =====
-- What the cache answers: the mapping learned last, and the same after old entries have expired.
use ralph_os.Base.{
  ℕ, zero, suc, ◌+◌, ◌-◌, ◌^◌, ◌≤◌, ◌<◌, ◌≡◌, refl, Bool, true, false, ◌&&◌, none, some, List, [],
  ◌∷◌, arith, ltb, inl, inr, Bool-cases, Option-cases, length, set, All,
}
use ralph_os.Net.Bytes.{Ip, ip_eq, ip_eq_iff, wrapping_sub64}
use ralph_os.Net.Arp.{
  Mac, ArpEntry, arp_timeout_ticks, refresh, victim, update_cache, lookup, expire,
  expire_old_entries,
}

-- The entry is the one that a search for `i` stops at.
abbrev pub hit : Ip → ArpEntry → Bool
hit i e = e.valid && ip_eq e.ip i

fresh : (now : ℕ) → now < 2 ^ 64 → ltb (wrapping_sub64 now now) arp_timeout_ticks ≡ true
fresh now h = ground arith

-- A refreshed cache answers with the new address, for a search by `i`.
refresh-some :
    (now : ℕ) (i : Ip) (m : Mac) (c after : List ArpEntry)
    → now < 2 ^ 64
    → refresh now i m c ≡ some after
    → lookup now i after ≡ some m
unfolding refresh lookup
refresh-some now i m [] after h e = absurd (ground arith)
refresh-some now i m (x ∷ xs) after h e = elim (Bool-cases (hit i x)) [
  | inl same_ip ↦ ground (arith, fresh now h)
  | inr other ↦ elim (Option-cases (refresh now i m xs)) [
    | inl stop ↦ absurd (ground arith)
    | inr (l, found) ↦ ground (arith, refresh-some now i m xs l h found)
  ]
]

refresh-none :
    (now : ℕ) (i : Ip) (m : Mac) (c : List ArpEntry)
    → refresh now i m c ≡ none
    → All (λ x. hit i x ≡ false) c
unfolding refresh
refresh-none now i m [] e = tt
refresh-none now i m (x ∷ xs) e = elim (Bool-cases (hit i x)) [
  | inl same_ip ↦ absurd (ground arith)
  | inr other ↦ elim (Option-cases (refresh now i m xs)) [
    | inl stop ↦ (other, refresh-none now i m xs stop)
    | inr (l, found) ↦ absurd (ground arith)
  ]
]

-- The second loop ends at a slot of the cache.
victim_bound :
    (n k idx time : ℕ) (c : List ArpEntry) → idx < n → k + length c ≤ n → victim k idx time c < n
unfolding victim
victim_bound n k idx time [] h g = h
victim_bound n k idx time (x ∷ xs) h g = ground (
  arith,
  victim_bound n (k + 1) k x.timestamp xs (omega arith) (omega arith),
  victim_bound n (k + 1) idx time xs h (omega arith),
)

lookup-set :
    (now : ℕ) (i : Ip) (m : Mac) (k : ℕ) (c : List ArpEntry)
    → now < 2 ^ 64
    → All (λ x. hit i x ≡ false) c
    → k < length c
    → lookup now i (set c k (record { ip = i; mac = m; timestamp = now; valid = true })) ≡ some m
unfolding lookup
lookup-set now i m k [] h none_hit g = absurd (omega arith)
lookup-set now i m zero (x ∷ xs) h none_hit g = rw ((ip_eq_iff i i).1 refl, fresh now h) refl
lookup-set now i m (suc k) (x ∷ xs) h none_hit g =
    rw none_hit.0 (lookup-set now i m k xs h none_hit.1 (omega arith))

-- A mapping that was just learned, at a time that is a 64-bit word and in a cache with a slot, is
-- what lookup answers, whatever the cache held before.
pub lookup-update_cache :
    (now : ℕ) (i : Ip) (m : Mac) (c : List ArpEntry)
    → now < 2 ^ 64
    → 0 < length c
    → lookup now i (update_cache now i m c) ≡ some m
unfolding update_cache
lookup-update_cache now i m c h some_slot = elim (Option-cases (refresh now i m c)) [
  | inl stop ↦
      rw (update_cache, stop)
        (lookup-set now i m (victim 0 0 (2 ^ 64 - 1) c) c h (refresh-none now i m c stop)
          (victim_bound (length c) 0 0 (2 ^ 64 - 1) c some_slot (omega arith)))
  | inr (l, found) ↦ rw (update_cache, found) (refresh-some now i m c l h found)
]

-- Removing the expired entries changes no answer at that time.
lookup-expire_old_entries :
    (now : ℕ) (i : Ip) (c : List ArpEntry)
    → lookup now i (expire_old_entries now c) ≡ lookup now i c
unfolding lookup expire_old_entries expire
lookup-expire_old_entries now i [] = refl
lookup-expire_old_entries now i (x ∷ xs) = ground (arith, lookup-expire_old_entries now i xs)

-- The searches for another address pass over an entry of `i`.
other_miss : (i j : Ip) (x : ArpEntry) → hit i x ≡ true → ip_eq i j ≡ false → hit j x ≡ false
other_miss i j x same_ip differ =
    let same : x.ip ≡ i = (ip_eq_iff x.ip i).0 (ground arith) in rw (same, differ) (ground arith)

refresh_others :
    (now later : ℕ) (i j : Ip) (m : Mac) (c after : List ArpEntry)
    → ip_eq i j ≡ false
    → refresh now i m c ≡ some after
    → lookup later j after ≡ lookup later j c
unfolding refresh lookup
refresh_others now later i j m [] after differ e = absurd (ground arith)
refresh_others now later i j m (x ∷ xs) after differ e = elim (Bool-cases (hit i x)) [
  | inl same_ip ↦ ground (arith, other_miss i j x same_ip differ)
  | inr other ↦ elim (Option-cases (refresh now i m xs)) [
    | inl stop ↦ absurd (ground arith)
    | inr (l, found) ↦ ground (arith, refresh_others now later i j m xs l differ found)
  ]
]

-- Relearning a cached address leaves every other address's answer as it was.
lookup-refresh :
    (now later : ℕ) (i j : Ip) (m : Mac) (c after : List ArpEntry)
    → refresh now i m c ≡ some after
    → ip_eq i j ≡ false
    → (update_cache now i m c ≡ after) × (lookup later j after ≡ lookup later j c)
unfolding update_cache
lookup-refresh now later i j m c after e differ =
    (rw (update_cache, e) refl, refresh_others now later i j m c after differ e)
