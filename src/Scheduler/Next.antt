-- ===== src/Scheduler/Next.antt =====
-- Round robin: the next ready task in cyclic order.
use mathlib.Core.Path.{subst}
use native.Mathlib.Nat.{mod-lt, mod-eq_of_lt, add-mod_right}
use ralph_os.Base.{
  ℕ, zero, suc, ◌+◌, ◌-◌, ◌%◌, ◌≤◌, ◌<◌, ◌≡◌, ◌∙◌, Bool, true, false, ◌&&◌, Option, none, some,
  List, arith, ltb, leb, ◌==◌, if◌then◌else◌, length, get_or, inl, inr, Bool-cases, Option-cases,
}
use ralph_os.Scheduler.{Task, Scheduler, is_ready, no_task, task_at, search, find_next_ready}

-- Whether the task `j` places behind the current one is ready.
abbrev pub ready_at : List Task → ℕ → ℕ → Bool
ready_at ts current j = is_ready (get_or ts ((current + j) % length ts) no_task)

-- `idx` lies `distance` places behind the current task, is ready, and no task between is.
pub record IsNext (ts : List Task) (current i idx : ℕ) : Type 0 where
  pub distance : ℕ
  pub far : i ≤ distance
  pub place : idx ≡ (current + distance) % length ts
  pub found : ready_at ts current distance ≡ true
  pub skipped : (j : ℕ) → (leb i j && (ltb j distance && ready_at ts current j)) ≡ false

skip_more :
    (ts : List Task) (current i j d : ℕ)
    → ready_at ts current i ≡ false
    → (leb (i + 1) j && (ltb j d && ready_at ts current j)) ≡ false
    → (leb i j && (ltb j d && ready_at ts current j)) ≡ false
skip_more ts current i j d past rest = elim (Bool-cases (j == i)) [
  | inl same ↦ let e : j ≡ i = ground (arith, same) in rw (e, past) (ground arith)
  | inr other ↦ ground (arith, rest, other)
]

search-some :
    (ts : List Task) (current n i idx : ℕ)
    → search ts current n i ≡ some idx
    → IsNext ts current i idx
unfolding search
search-some ts current zero i idx e = absurd (ground arith)
search-some ts current (suc n) i idx e = elim (Bool-cases (ready_at ts current i)) [
  | inl here ↦ record {
    distance = i;
    far = omega arith;
    place = ground (arith, here);
    found = here;
    skipped = λ j. ground arith;
  }
  | inr past ↦
      let r = search-some ts current n (i + 1) idx (ground arith) in
      record {
        distance = r.distance;
        far = omega (arith, r.far);
        place = r.place;
        found = r.found;
        skipped = λ j. skip_more ts current i j r.distance past (r.skipped j);
      }
]

search-none :
    (ts : List Task) (current n i j : ℕ)
    → search ts current n i ≡ none
    → i ≤ j
    → j < i + n
    → ready_at ts current j ≡ false
unfolding search
search-none ts current zero i j e h k = absurd (omega arith)
search-none ts current (suc n) i j e h k = elim (Bool-cases (ready_at ts current i)) [
  | inl here ↦ absurd (ground arith)
  | inr past ↦ elim (Bool-cases (ltb i j)) [
    | inl later ↦
        search-none ts current n (i + 1) j (ground arith) (ground (arith, later)) (omega arith)
    | inr same ↦ let e : j ≡ i = ground (arith, same) in rw e past
  ]
]

-- How far behind the current task the task `x` lies, between 1 and the number of tasks.
abbrev behind : (len current x : ℕ) → ℕ
behind len current x = if ltb current x then x - current else x + len - current

behind_lem :
    (len current x : ℕ)
    → current < len
    → x < len
    → (1 ≤ behind len current x)
      × (behind len current x < 1 + len)
      × ((current + behind len current x) % len ≡ x)
behind_lem len current x h k = elim (Bool-cases (ltb current x)) [
  | inl after ↦
      let e : current + (x - current) ≡ x = ground (arith, after) in
      rw (after, e) (ground (arith, after), omega arith, mod-eq_of_lt k)
  | inr before ↦
      let e : current + (x + len - current) ≡ x + len = omega arith in
      rw (before, e) (omega arith, ground (arith, before), add-mod_right x len ∙ mod-eq_of_lt k)
]

-- What `find_next_ready` may answer.
abbrev pub NextReady : Scheduler → Option ℕ → Type 0
NextReady s (some idx) = (idx < length s.tasks) × IsNext s.tasks s.current 1 idx
NextReady s none = (x : ℕ) → (ltb x (length s.tasks) && is_ready (task_at s x)) ≡ false

none_ready :
    (s : Scheduler) (x : ℕ)
    → s.current < length s.tasks
    → search s.tasks s.current (length s.tasks) 1 ≡ none
    → (ltb x (length s.tasks) && is_ready (task_at s x)) ≡ false
none_ready s x h e = elim (Bool-cases (ltb x (length s.tasks))) [
  | inl inside ↦
      let b = behind_lem (length s.tasks) s.current x h (ground (arith, inside)) in
      let r =
        search-none s.tasks s.current (length s.tasks) 1 (behind (length s.tasks) s.current x) e b.0
          b.1 in
      rw inside (subst (λ y. is_ready (task_at s y) ≡ false) b.2 r)
  | inr outside ↦ ground (arith, outside)
]

-- With a current task, find_next_ready answers with the first ready task in cyclic order behind
-- the current one, which comes last itself; and with none only if no task is ready.
pub find_next_ready_lem :
    (s : Scheduler) → s.current < length s.tasks → NextReady s (find_next_ready s)
unfolding find_next_ready
find_next_ready_lem s h =
    let some_task : (length s.tasks == 0) ≡ false = ground (arith, h) in
    elim (Option-cases (search s.tasks s.current (length s.tasks) 1)) [
      | inl stop ↦ rw (some_task, stop) (λ x. none_ready s x h stop)
      | inr (idx, found) ↦
          let r = search-some s.tasks s.current (length s.tasks) 1 idx found in
          rw (some_task, found) (rw r.place (mod-lt (s.current + r.distance) (omega (arith, h))), r)
    ]
