-- ===== src/Basic/Program/Reach.antt =====
-- Whatever is done with an interpreter, its steps execute the lines of its program.
use mathlib.Core.Path.{subst}
use ralph_os.Base.{
  ℕ, zero, suc, ◌≤◌, ◌≡◌, ◌⊎◌, refl, ◌∙◌, sym, inl, inr, true, false, Option, none, some, List, [],
  ◌∷◌, arith, All, Bool-cases, Option-cases, get_elem?, length,
}
use ralph_os.Basic.Syntax.{Statement}
use ralph_os.Basic.Eval.{message, Host}
use ralph_os.Basic.Interpreter.{Machine, execute_statement}
use ralph_os.Basic.Program.{
  Status, finished, failed_with, Lines, line_at, Interpreter, new, Loading, load_program, set_line,
  delete_line, clear, run, conclude, with_status, step_line, step_at, step, immediate, with_answer,
  execute_immediate,
}
use ralph_os.Basic.Program.Sorted.{IsKey}
use ralph_os.Basic.Program.Sound.{
  IsSound, set_line-IsSound, delete_line-IsSound, new-IsSound, clear-IsSound, run-IsSound,
  load_program-IsSound, stopped-IsSound, conclude-IsSound,
}

-- What the owner of an interpreter does with it, in any order.
pub data Reach (host : Host) : Interpreter → Type 0 where
  made : (m : Machine) → Reach host (new m)
  loaded :
      {i i' : Interpreter} {l : Loading} (source : List ℕ)
      → Reach host i
      → load_program source i ≡ some (i', l)
      → Reach host i'
  line_set : {i : Interpreter} (n : ℕ) (s : Statement) → Reach host i → Reach host (set_line n s i)
  line_deleted : {i : Interpreter} (n : ℕ) → Reach host i → Reach host (delete_line n i)
  cleared : {i : Interpreter} → Reach host i → Reach host (clear i)
  started : {i : Interpreter} → Reach host i → Reach host (run i)
  stepped :
      {i i' : Interpreter} {st : Status}
      → Reach host i
      → step host i ≡ some (i', st)
      → Reach host i'
  done_at_once :
      {i i' : Interpreter} {st : Status} (s : Statement)
      → Reach host i
      → execute_immediate host s i ≡ some (i', st)
      → Reach host i'

pub with_status-some :
    (o : Option Interpreter) {i' : Interpreter} {st : Status}
    → with_status o ≡ some (i', st)
    → o ≡ some i'
with_status-some none e = cc
with_status-some (some i) e = cc

-- The line of an index of the order is a line of the program.
line_of-index :
    (lines : Lines) (ns : List ℕ) (idx n : ℕ)
    → All (IsKey lines) ns
    → get_elem? ns idx ≡ some n
    → IsKey lines n
line_of-index lines [] idx n h e = cc
line_of-index lines (k ∷ ns) zero n (now, h) e = subst (IsKey lines) (cc) now
line_of-index lines (k ∷ ns) (suc idx) n (now, h) e = line_of-index lines ns idx n h e

get_elem?-none : (ns : List ℕ) (idx : ℕ) → get_elem? ns idx ≡ none → length ns ≤ idx
get_elem?-none [] idx e = omega arith
get_elem?-none (k ∷ ns) zero e = cc
get_elem?-none (k ∷ ns) (suc idx) e = omega (arith, get_elem?-none ns idx e)

-- What a step of a running program does: behind the last line the run is over; else it executes the
-- statement of the line that stands at the index in the order.
abbrev pub Executes : Host → Interpreter → Type 0
Executes host i =
    (idx : ℕ) × (i.current_idx ≡ some idx)
    × ((length i.line_order ≤ idx)
          × (step host i ≡ some (record i { running = false; status = finished }, finished))
        ⊎ ((n : ℕ) × (s : Statement) × (get_elem? i.line_order idx ≡ some n)
            × (line_at n i.program ≡ some s)
            × (step host i
                ≡ with_status
                    (conclude idx i (execute_statement host i.line_order n idx s i.machine)))))

step-Executes : (host : Host) (i : Interpreter) → IsSound i → i.running ≡ true → Executes host i
unfolding step step_line
step-Executes host i h on =
    let (idx, here) = h.indexed on in
    (
      idx,
      here,
      elim (Option-cases (get_elem? i.line_order idx)) [
        | inl e ↦ inl (get_elem?-none i.line_order idx e, rw (on, here, e, step_line) refl)
        | inr (n, e) ↦
            let (s, at) = line_of-index i.program i.line_order idx n h.known e in
            inr (n, s, e, at, rw (on, here, e, at, step_line) refl)
      ],
    )

step_line-IsSound :
    (host : Host) (idx : ℕ) (o : Option ℕ) (i i' : Interpreter) (st : Status)
    → IsSound i
    → step_line host idx o i ≡ some (i', st)
    → IsSound i'
unfolding step_line
step_line-IsSound host idx none i i' st h e =
    subst IsSound (cc) (stopped-IsSound i h i.machine finished)
step_line-IsSound host idx (some n) i i' st h e = elim (Option-cases (line_at n i.program)) [
  | inl at ↦
      let failed_i = record i {
        running = false;
        status = failed_with (message "Line not found");
      } in
      let known : step_line host idx (some n) i ≡ some (failed_i, failed_i.status) =
        rw (at, step_line) refl in
      subst IsSound (cc) (stopped-IsSound i h i.machine failed_i.status)
  | inr (s, at) ↦
      let r = execute_statement host i.line_order n idx s i.machine in
      let known : step_line host idx (some n) i ≡ with_status (conclude idx i r) =
        rw (at, step_line) refl in
      conclude-IsSound i h idx r i' (with_status-some (conclude idx i r) (sym known ∙ e))
]

step_at-IsSound :
    (host : Host) (o : Option ℕ) (i i' : Interpreter) (st : Status)
    → IsSound i
    → step_at host o i ≡ some (i', st)
    → IsSound i'
step_at-IsSound host none i i' st h e = subst IsSound (cc) (stopped-IsSound i h i.machine i.status)
step_at-IsSound host (some idx) i i' st h e =
    step_line-IsSound host idx (get_elem? i.line_order idx) i i' st h e

step-IsSound :
    (host : Host) (i i' : Interpreter) (st : Status)
    → IsSound i
    → step host i ≡ some (i', st)
    → IsSound i'
unfolding step
step-IsSound host i i' st h e = elim (Bool-cases i.running) [
  | inl on ↦
      let known : step host i ≡ step_at host i.current_idx i = rw on refl in
      step_at-IsSound host i.current_idx i i' st h (sym known ∙ e)
  | inr on ↦ let known : step host i ≡ some (i, finished) = rw on refl in subst IsSound (cc) h
]

answered-IsSound :
    (i i' : Interpreter) (st : Status) (m : Machine) (o : Option Status)
    → IsSound i
    → with_answer (record i { machine = m }) o ≡ some (i', st)
    → IsSound i'
answered-IsSound i i' st m none h e = cc
answered-IsSound i i' st m (some t) h e =
    let same : IsSound (record i { machine = m }) = record {
      sorted = h.sorted;
      rising = h.rising;
      known = h.known;
      indexed = h.indexed;
    } in
    subst IsSound (cc) same

execute_immediate-IsSound :
    (host : Host) (s : Statement) (i i' : Interpreter) (st : Status)
    → IsSound i
    → execute_immediate host s i ≡ some (i', st)
    → IsSound i'
unfolding execute_immediate
execute_immediate-IsSound host s i i' st h e =
    let (r, m) = execute_statement host i.line_order 0 0 s i.machine in
    answered-IsSound i i' st m (immediate host r) h e

Reach-IsSound : {host : Host} {i : Interpreter} → Reach host i → IsSound i
Reach-IsSound (made m) = new-IsSound m
Reach-IsSound (loaded {i} {i'} {l} source r e) =
    load_program-IsSound source i i' l (Reach-IsSound r) e
Reach-IsSound (line_set {i} n s r) = set_line-IsSound n s i (Reach-IsSound r)
Reach-IsSound (line_deleted {i} n r) = delete_line-IsSound n i (Reach-IsSound r)
Reach-IsSound (cleared {i} r) = clear-IsSound i (Reach-IsSound r)
Reach-IsSound (started {i} r) = run-IsSound i (Reach-IsSound r)
Reach-IsSound {host} (stepped {i} {i'} {st} r e) = step-IsSound host i i' st (Reach-IsSound r) e
Reach-IsSound {host} (done_at_once {i} {i'} {st} s r e) =
    execute_immediate-IsSound host s i i' st (Reach-IsSound r) e

-- However an interpreter was built, loaded, edited, started and stepped, a step of a running one
-- either finds itself behind the last line and answers that the program is finished, or executes the
-- statement of the line that stands at the current index in the order: the line is there.
pub Reach-Executes :
    (host : Host) (i : Interpreter) → Reach host i → i.running ≡ true → Executes host i
Reach-Executes host i r on = step-Executes host i (Reach-IsSound r) on
