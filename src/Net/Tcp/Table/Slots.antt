-- ===== src/Net/Tcp/Table/Slots.antt =====
-- Searching the connection table, and the slot that a new connection gets.
use mathlib.Core.Path.{subst}
use ralph_os.Base.{
  ℕ, zero, suc, ◌+◌, ◌-◌, ◌≤◌, ◌<◌, ◌≡◌, refl, ap, ◌∙◌, Bool, true, false, not, ◌&&◌, Option, none,
  some, List, [], ◌∷◌, arith, inl, inr, ◌⊎◌, Bool-cases, Option-cases, length, get_or, set, All,
}
use ralph_os.Net.Tcp.Tcb
use ralph_os.Net.Tcp.Tcb.{Tcb, TcpState}
use ralph_os.Net.Tcp.Table.{
  Tcp, is_reusable, find_index, conn_at, set_conn, fresh, alloc_connection,
}

-- A search that finds nothing has tested everything.
pub find_index-none :
    (test : Tcb → Bool) (i : ℕ) (cs : List Tcb)
    → find_index test i cs ≡ none
    → All (λ c. test c ≡ false) cs
unfolding find_index
find_index-none test i [] e = tt
find_index-none test i (c ∷ rest) e = elim (Bool-cases (test c)) [
  | inl hit ↦ absurd (ground arith)
  | inr miss ↦ (miss, find_index-none test (i + 1) rest (ground arith))
]

-- A search from index `i` that answers `k` has found an element that passes.
pub find_index-some :
    (test : Tcb → Bool) (i : ℕ) (cs : List Tcb) (k : ℕ) (d : Tcb)
    → find_index test i cs ≡ some k
    → (i ≤ k) × (k < i + length cs) × (test (get_or cs (k - i) d) ≡ true)
unfolding find_index
find_index-some test i [] k d e = absurd (ground arith)
find_index-some test i (c ∷ rest) k d e = elim (Bool-cases (test c)) [
  | inl hit ↦
      let at : k ≡ i = ground arith in
      let first : k - i ≡ 0 = omega arith in (omega arith, omega arith, rw first hit)
  | inr miss ↦
      let r = find_index-some test (i + 1) rest k d (ground arith) in
      let step : k - i ≡ suc (k - (i + 1)) = omega (arith, r.0) in
      (omega (arith, r.0), omega (arith, r.1), rw step r.2)
]

pub find_first :
    (test : Tcb → Bool) (cs : List Tcb) (k : ℕ) (d : Tcb)
    → find_index test 0 cs ≡ some k
    → (k < length cs) × (test (get_or cs k d) ≡ true)
find_first test cs k d e =
    let r = find_index-some test 0 cs k d e in
    let same : k - 0 ≡ k = omega arith in
    (omega (arith, r.1), subst (λ j. test (get_or cs j d) ≡ true) same r.2)

-- Where nothing passed, an element that is put in is found at its place.
pub find_index-set :
    (test : Tcb → Bool) (i : ℕ) (cs : List Tcb) (k : ℕ) (new : Tcb)
    → find_index test i cs ≡ none
    → k < length cs
    → test new ≡ true
    → find_index test i (set cs k new) ≡ some (i + k)
unfolding find_index
find_index-set test i [] k new e h p = absurd (omega arith)
find_index-set test i (c ∷ rest) zero new e h p = rw p (ap some (omega arith))
find_index-set test i (c ∷ rest) (suc k) new e h p = elim (Bool-cases (test c)) [
  | inl hit ↦ absurd (ground arith)
  | inr miss ↦ rw miss (
      find_index-set test (i + 1) rest k new (ground arith) (omega arith) p ∙ ap some (omega arith))
]

abbrev pub is_free : Tcb → Bool
is_free c = not c.in_use

-- The slot was free, or in use by a connection that is done with.
abbrev pub IsTaken : Tcp → ℕ → Tcp → Type 0
IsTaken t i u =
    (i < length t.connections)
    × (((conn_at t i).in_use ≡ false) ⊎ (is_reusable (conn_at t i).state ≡ true))
    × (u ≡ set_conn t i fresh)

abbrev pub Slot : Tcp → Option ℕ × Tcp → Type 0
Slot t (some i, u) = IsTaken t i u
Slot t (none, u) =
    (u ≡ t) × All (λ c. (c.in_use ≡ true) × (is_reusable c.state ≡ false)) t.connections

both :
    (cs : List Tcb)
    → All (λ c. not c.in_use ≡ false) cs
    → All (λ c. (c.in_use && is_reusable c.state) ≡ false) cs
    → All (λ c. (c.in_use ≡ true) × (is_reusable c.state ≡ false)) cs
both [] h k = tt
both (c ∷ cs) h k = ((ground (arith, h.0), ground (arith, h.0, k.0)), both cs h.1 k.1)

-- alloc_connection hands out a slot that is free or whose connection is done with, resets that
-- slot and leaves the others and the port alone; if it fails, the table is unchanged and every
-- slot is in use by a connection that is not done with.
pub alloc_connection-Slot : (t : Tcp) → Slot t (alloc_connection t)
unfolding alloc_connection
alloc_connection-Slot t = elim (Option-cases (find_index (λ c. not c.in_use) 0 t.connections)) [
  | inr (i, found) ↦
      let r = find_first (λ c. not c.in_use) t.connections i Tcb.new found in
      rw (found, alloc_connection) (r.0, inl (unfold conn_at in ground (arith, r.1)), refl)
  | inl full ↦
      elim (Option-cases (find_index (λ c. c.in_use && is_reusable c.state) 0 t.connections)) [
        | inr (i, found) ↦
            let r =
              find_first (λ c. c.in_use && is_reusable c.state) t.connections i Tcb.new found in
            rw (full, found, alloc_connection)
              (r.0, inr (unfold conn_at in ground (arith, r.1)), refl)
        | inl none_done ↦
            rw (full, none_done, alloc_connection)
              (
                refl,
                both t.connections (find_index-none (λ c. not c.in_use) 0 t.connections full) (
                    find_index-none (λ c. c.in_use && is_reusable c.state) 0 t.connections
                      none_done),
              )
      ]
]
