-- ===== src/Basic/Program/Sound.antt =====
-- The operations of the interpreter keep its program and its order sound.
use mathlib.Core.Path.{subst}
use ralph_os.Base.{
  ℕ, zero, suc, ◌+◌, ◌≡◌, refl, inl, inr, Bool, true, false, Option, none, some, List, leb, All,
  Bool-cases, length,
}
use ralph_os.Basic.Syntax.{Statement, ParseError}
use ralph_os.Basic.Parser.{Parsed, ok, failed, out_of_fuel, Parser, parser_of}
use ralph_os.Basic.Parser.Statements.{parse_line}
use ralph_os.Basic.Eval.{Result, value, error, panic}
use ralph_os.Basic.Interpreter.{Machine, NextAction, continue, jump, jump_to_index, sleep_for, stop}
use ralph_os.Basic.Program.{
  Status, ready, sleeping, finished, failed_with, Lines, insert_line, remove_line, Interpreter, new,
  rebuild_line_order, Loading, on_line, load_lines, ordered, with_lines, load_program, set_line,
  delete_line, clear, is_empty, run, position, follow, conclude,
}
use ralph_os.Basic.Program.Sorted.{
  IsSorted, insert_line-IsSorted, remove_line-IsSorted, IsRising, keys-IsRising, IsKey, keys-IsKey,
  known-insert_line,
}

-- The lines are in order; the order rises and names lines of the program; and while the program runs
-- there is a current index.
pub record IsSound (i : Interpreter) : Type 0 where
  pub sorted : IsSorted i.program
  pub rising : IsRising i.line_order
  pub known : All (IsKey i.program) i.line_order
  pub indexed : i.running ≡ true → (idx : ℕ) × (i.current_idx ≡ some idx)

rebuild-IsSound :
    (i : Interpreter)
    → IsSorted i.program
    → (i.running ≡ true → (idx : ℕ) × (i.current_idx ≡ some idx))
    → IsSound (rebuild_line_order i)
unfolding rebuild_line_order
rebuild-IsSound i sorted indexed = record {
  sorted = sorted;
  rising = keys-IsRising i.program sorted;
  known = keys-IsKey i.program;
  indexed = indexed;
}

pub set_line-IsSound :
    (n : ℕ) (s : Statement) (i : Interpreter) → IsSound i → IsSound (set_line n s i)
unfolding set_line
set_line-IsSound n s i h =
    rebuild-IsSound (record i { program = insert_line n s i.program })
      (insert_line-IsSorted n s i.program h.sorted) h.indexed

pub delete_line-IsSound : (n : ℕ) (i : Interpreter) → IsSound i → IsSound (delete_line n i)
unfolding delete_line
delete_line-IsSound n i h =
    rebuild-IsSound (record i { program = remove_line n i.program })
      (remove_line-IsSorted n i.program h.sorted) h.indexed

pub new-IsSound : (m : Machine) → IsSound (new m)
unfolding new
new-IsSound m = record { sorted = tt; rising = tt; known = tt; indexed = λ e. cc }

pub clear-IsSound : (i : Interpreter) → IsSound i → IsSound (clear i)
unfolding clear
clear-IsSound i h = record { sorted = tt; rising = tt; known = tt; indexed = λ e. cc }

pub run-IsSound : (i : Interpreter) → IsSound i → IsSound (run i)
unfolding run
run-IsSound i h = elim (Bool-cases (is_empty i.line_order)) [
  | inl e ↦
      rw e (record { sorted = h.sorted; rising = h.rising; known = h.known; indexed = h.indexed })
  | inr e ↦
      rw e
        (record { sorted = h.sorted; rising = h.rising; known = h.known; indexed = λ _. (0, refl) })
]

-- The lines that were read, on top of those that a list of numbers names.
abbrev Grown : List ℕ → Option Loading → Type 0
Grown ns none = Unit {0}
Grown ns (some l) = IsSorted l.lines × All (IsKey l.lines) ns

on_line-Grown :
    (again : Parser → Lines → ℕ → Option Loading)
    (r : Parsed (Option (Option ℕ × Statement) × Parser)) (lines : Lines) (count : ℕ) (ns : List ℕ)
    → IsSorted lines
    → All (IsKey lines) ns
    → ((p : Parser) (lines : Lines) (count : ℕ)
        → IsSorted lines
        → All (IsKey lines) ns
        → Grown ns (again p lines count))
    → Grown ns (on_line again lines count r)
on_line-Grown again (ok (none, p)) lines count ns sorted known h = (sorted, known)
on_line-Grown again (ok (some (none, s), p)) lines count ns sorted known h =
    h p lines count sorted known
on_line-Grown again (ok (some (some n, s), p)) lines count ns sorted known h =
    h p (insert_line n s lines) (count + 1) (insert_line-IsSorted n s lines sorted)
      (known-insert_line n s lines ns known)
on_line-Grown again (failed e) lines count ns sorted known h = (sorted, known)
on_line-Grown again out_of_fuel lines count ns sorted known h = tt

load_lines-Grown :
    (rounds fuel : ℕ) (p : Parser) (lines : Lines) (count : ℕ) (ns : List ℕ)
    → IsSorted lines
    → All (IsKey lines) ns
    → Grown ns (load_lines rounds fuel p lines count)
unfolding load_lines
load_lines-Grown zero fuel p lines count ns sorted known = tt
load_lines-Grown (suc rounds) fuel p lines count ns sorted known =
    on_line-Grown (load_lines rounds fuel) (parse_line fuel p) lines count ns sorted known
      (λ q ls c. load_lines-Grown rounds fuel q ls c ns)

ordered-IsSound :
    (failure : Option ParseError) (i : Interpreter) → IsSound i → IsSound (ordered failure i)
ordered-IsSound none i h = rebuild-IsSound i h.sorted h.indexed
ordered-IsSound (some e) i h = h

with_lines-IsSound :
    (i i' : Interpreter) (l : Loading) (r : Option Loading)
    → IsSound i
    → Grown i.line_order r
    → with_lines i r ≡ some (i', l)
    → IsSound i'
with_lines-IsSound i i' l none h g e = cc
with_lines-IsSound i i' l (some l0) h (sorted, known) e = subst IsSound (cc) (
    ordered-IsSound l0.failure (record i { program = l0.lines })
      (record { sorted = sorted; rising = h.rising; known = known; indexed = h.indexed }))

pub load_program-IsSound :
    (source : List ℕ) (i i' : Interpreter) (l : Loading)
    → IsSound i
    → load_program source i ≡ some (i', l)
    → IsSound i'
unfolding load_program
load_program-IsSound source i i' l h e =
    let fuel = suc (length source) in
    with_lines-IsSound i i' l (load_lines fuel fuel (parser_of source) i.program 0) h
      (load_lines-Grown fuel fuel (parser_of source) i.program 0 i.line_order h.sorted h.known) e

-- The program and the order stay, and there is an index, or the run is over.
module _ (i : Interpreter) (h : IsSound i) where
  moved-IsSound :
      (idx : ℕ) (m : Machine) (st : Status) (b : Bool)
      → IsSound (record i { current_idx = some idx; machine = m; status = st; running = b })
  moved-IsSound idx m st b = record {
    sorted = h.sorted;
    rising = h.rising;
    known = h.known;
    indexed = λ _. (idx, refl);
  }

  pub stopped-IsSound :
      (m : Machine) (st : Status) → IsSound (record i { machine = m; status = st; running = false })
  stopped-IsSound m st = record {
    sorted = h.sorted;
    rising = h.rising;
    known = h.known;
    indexed = λ e. cc;
  }

  jump-IsSound :
      (m : Machine) (target : ℕ) (o : Option ℕ)
      → position 0 target i.line_order ≡ o
      → IsSound (follow 0 (jump target) (record i { machine = m }))
  unfolding follow
  jump-IsSound m target none e = rw (e, follow) (stopped-IsSound m _)
  jump-IsSound m target (some n) e = rw (e, follow) (moved-IsSound n m ready i.running)

  follow-IsSound :
      (idx : ℕ) (m : Machine) (action : NextAction)
      → IsSound (follow idx action (record i { machine = m }))
  unfolding follow
  follow-IsSound idx m continue = elim (Bool-cases (leb (length i.line_order) (idx + 1))) [
    | inl e ↦ rw e (moved-IsSound (idx + 1) m finished false)
    | inr e ↦ rw e (moved-IsSound (idx + 1) m ready i.running)
  ]
  follow-IsSound idx m (jump target) = jump-IsSound m target (position 0 target i.line_order) refl
  follow-IsSound idx m (jump_to_index n) = moved-IsSound n m ready i.running
  follow-IsSound idx m (sleep_for ms) = moved-IsSound (idx + 1) m (sleeping ms) i.running
  follow-IsSound idx m stop = stopped-IsSound m finished

  pub conclude-IsSound :
      (idx : ℕ) (r : Result NextAction × Machine) (i' : Interpreter)
      → conclude idx i r ≡ some i'
      → IsSound i'
  unfolding conclude
  conclude-IsSound idx (value action, m) i' e = subst IsSound (cc) (follow-IsSound idx m action)
  conclude-IsSound idx (error x, m) i' e = subst IsSound (cc) (stopped-IsSound m (failed_with x))
  conclude-IsSound idx (panic, m) i' e = cc
