-- ===== src/Basic/Program/Load.antt =====
-- Loading a program ends, and reads back what LIST wrote.
use mathlib.Core.List.{append-nil, append_assoc}
use mathlib.Core.Path.{ap₂}
use native.Mathlib.Nat.{zero-add}
use ralph_os.Base.{
  ℕ, zero, suc, ◌+◌, ◌^◌, ◌<◌, ◌≤◌, ◌≡◌, refl, ap, ◌∙◌, Option, none, some, List, [], ◌∷◌, ◌++◌,
  arith, length, All,
}
use ralph_os.Basic.Lexer.{next_token}
use ralph_os.Basic.Syntax.{Statement}
use ralph_os.Basic.Parser.{Parsed, ok, Parser, parser_of}
use ralph_os.Basic.Parser.Statements.{parse_line, skip_newlines}
use ralph_os.Basic.Parser.Size.{size, size-parser_of}
use ralph_os.Basic.Parser.Lines.{Returns, ended, one, refused, parse_line-Returns}
use ralph_os.Basic.Format.{format_line}
use ralph_os.Basic.Format.Needs.{IsListable, statement_nodes}
use ralph_os.Basic.Format.Length.{length-line}
use ralph_os.Basic.Format.Lines.{parse_line-format_line}
use ralph_os.Basic.Interpreter.{Machine}
use ralph_os.Basic.Program.Sorted.{Above, IsSorted}
use ralph_os.Basic.Program.{
  Lines, insert_line, line_at, keys, Interpreter, new, Loading, on_line, load_lines, loaded_into,
  load_program, list_lines, list, rebuild_line_order,
}

abbrev Loads : Option Loading → Type 0
Loads r = (l : Loading) × (r ≡ some l)

on_line-Loads :
    (k : ℕ) (again : Parser → Lines → ℕ → Option Loading) (lines : Lines) (loaded : ℕ)
    (r : Parsed (Option (Option ℕ × Statement) × Parser))
    → Returns k r
    → ((p : Parser) (lines : Lines) (loaded : ℕ) → size p < k → Loads (again p lines loaded))
    → Loads (on_line again lines loaded r)
on_line-Loads k again lines loaded _ ended h = (_, refl)
on_line-Loads k again lines loaded _ (one {l = (none, s)} {p} less) h = h p lines loaded less
on_line-Loads k again lines loaded _ (one {l = (some n, s)} {p} less) h =
    h p (insert_line n s lines) (loaded + 1) less
on_line-Loads k again lines loaded _ refused h = (_, refl)

load_lines-Loads :
    (rounds fuel : ℕ) (p : Parser) (lines : Lines) (loaded : ℕ)
    → size p < rounds
    → size p < fuel
    → Loads (load_lines rounds fuel p lines loaded)
unfolding load_lines
load_lines-Loads zero fuel p lines loaded lt lf = absurd (omega arith)
load_lines-Loads (suc rounds) fuel p lines loaded lt lf =
    on_line-Loads (size p) (load_lines rounds fuel) lines loaded (parse_line fuel p)
      (parse_line-Returns fuel p lf)
      (λ p' ls n less. load_lines-Loads rounds fuel p' ls n (omega arith) (omega arith))

-- Whatever the source is: load_program returns, and the parser and all of its loops need no more
-- fuel than there are characters.
pub load_program_returns :
    (source : List ℕ) (i : Interpreter)
    → (r : Interpreter × Loading) × (load_program source i ≡ some r)
unfolding load_program
load_program_returns source i =
    let small : size (parser_of source) < suc (length source) =
      omega (arith, size-parser_of source) in
    let (l, e) =
      load_lines-Loads (suc (length source)) (suc (length source)) (parser_of source) i.program 0
        small small in
    ((loaded_into i l, l), rw (e, load_program) refl)

-- The numbers are `u32`, and the statements can be listed.
abbrev pub AreListable : Lines → Type 0
AreListable lines = All (λ l. (l.0 < 2 ^ 32) × IsListable l.1) lines

text_of : Lines → List ℕ
text_of [] = []
text_of ((n, s) ∷ lines) = format_line n s (text_of lines)

-- The lines of `sub` are those of the table.
abbrev Holds : Lines → Lines → Type 0
Holds table sub = All (λ l. line_at l.0 table ≡ some l.1) sub

list_lines-text_of :
    (table sub : Lines) → Holds table sub → list_lines (keys sub) table ≡ text_of sub
unfolding list_lines text_of
list_lines-text_of table [] h = refl
list_lines-text_of table ((n, s) ∷ sub) (now, h) =
    rw (now, list_lines) (ap (format_line n s) (list_lines-text_of table sub h))

Holds-cons :
    (k : ℕ) (s : Statement) (table sub : Lines)
    → Above k sub
    → Holds table sub
    → Holds ((k, s) ∷ table) sub
unfolding line_at
Holds-cons k s table [] above h = tt
Holds-cons k s table ((n, r) ∷ sub) (now, above) (here, h) =
    (ground (arith, here), Holds-cons k s table sub above h)

Holds-self : (lines : Lines) → IsSorted lines → Holds lines lines
Holds-self [] h = tt
Holds-self ((k, s) ∷ lines) (above, h) =
    (unfold line_at in ground arith, Holds-cons k s lines lines above (Holds-self lines h))

-- A line whose number is above those that there are goes to the end.
insert_line-last :
    (n : ℕ) (s : Statement) (lines : Lines)
    → All (λ l. l.0 < n) lines
    → insert_line n s lines ≡ lines ++ ((n, s) ∷ [])
unfolding insert_line
insert_line-last n s [] h = refl
insert_line-last n s ((k, r) ∷ lines) (now, h) = ground (arith, insert_line-last n s lines h)

below_append :
    (n m : ℕ) (s : Statement) (lines : Lines)
    → n < m
    → All (λ l. l.0 < n) lines
    → All (λ l. l.0 < m) (lines ++ ((n, s) ∷ []))
below_append n m s [] lt h = (lt, tt)
below_append n m s (l ∷ lines) lt (now, h) = (omega arith, below_append n m s lines lt h)

-- What was read before lies below the lines to come.
abbrev Joins : Lines → Lines → Type 0
Joins done [] = Unit {0}
Joins done ((n, s) ∷ lines) = All (λ l. l.0 < n) done

Joins-next :
    (n : ℕ) (s : Statement) (done lines : Lines)
    → Above n lines
    → All (λ l. l.0 < n) done
    → Joins (done ++ ((n, s) ∷ [])) lines
Joins-next n s done [] above h = tt
Joins-next n s done ((m, r) ∷ lines) (lt, above) h = below_append n m s done lt h

length-text_of : (lines : Lines) → AreListable lines → length lines ≤ length (text_of lines)
unfolding text_of
length-text_of [] h = omega arith
length-text_of ((n, s) ∷ lines) ((_, hs), h) =
    omega (arith, length-line n s (text_of lines) hs, length-text_of lines h)

-- Fuel for each statement.
abbrev Fuels : ℕ → Lines → Type 0
Fuels fuel lines = All (λ l. statement_nodes l.1 < fuel) lines

Fuels-text_of :
    (fuel : ℕ) (lines : Lines)
    → AreListable lines
    → length (text_of lines) < fuel
    → Fuels fuel lines
Fuels-text_of fuel [] h lt = tt
Fuels-text_of fuel ((n, s) ∷ lines) ((_, hs), h) lt =
    let whole : length (format_line n s (text_of lines)) < fuel = unfold text_of in lt in
    let here = length-line n s (text_of lines) hs in
    (omega arith, Fuels-text_of fuel lines h (omega arith))

parse_line-end : (fuel : ℕ) → parse_line (suc fuel) (parser_of []) ≡ ok (none, parser_of [])
unfolding parse_line skip_newlines parser_of next_token
parse_line-end fuel = refl

load_lines-text_of :
    (rounds fuel : ℕ) (done lines : Lines) (loaded : ℕ)
    → length lines < rounds
    → Fuels (suc fuel) lines
    → AreListable lines
    → IsSorted lines
    → Joins done lines
    → load_lines rounds (suc fuel) (parser_of (text_of lines)) done loaded
      ≡ some (record { lines = done ++ lines; loaded = loaded + length lines; failure = none })
unfolding load_lines text_of
load_lines-text_of zero fuel done lines loaded lt lf h sorted joins = absurd (omega arith)
load_lines-text_of (suc rounds) fuel done [] loaded lt lf h sorted joins =
    rw (parse_line-end fuel, append-nil)
      (ap (λ n. some (record { lines = done; loaded = n; failure = none })) (omega arith))
load_lines-text_of (suc rounds) fuel done ((n, s) ∷ lines) loaded lt (now, lf) ((hn, hs), h)
      (above, sorted) joins =
    rw
      (
        parse_line-format_line (suc fuel) n s (text_of lines) hn hs now,
        insert_line-last n s done joins,
      )
      (load_lines-text_of rounds fuel (done ++ ((n, s) ∷ [])) lines (loaded + 1) (omega arith) lf h
          sorted (Joins-next n s done lines above joins)
        ∙ ap₂ (λ ls k. some (record { lines = ls; loaded = k; failure = none }))
            (append_assoc done ((n, s) ∷ []) lines) (omega arith))

none_before : (lines : Lines) → Joins [] lines
none_before [] = tt
none_before (l ∷ lines) = tt

-- A program whose lines are in order and known to line_order, with u32 numbers, no REM and no
-- expression that needs parentheses, and with literals and names that can be read: a new
-- interpreter that loads what LIST writes has the same lines and the same order, all of them
-- counted, and no error.
pub load_program-list :
    (i : Interpreter) (m : Machine)
    → IsSorted i.program
    → i.line_order ≡ keys i.program
    → AreListable i.program
    → load_program (list i) (new m)
      ≡ some (
        record (new m) { program = i.program; line_order = i.line_order },
        record { lines = i.program; loaded = length i.program; failure = none },
      )
unfolding load_program list rebuild_line_order new
load_program-list i m sorted order h =
    let listed : list_lines i.line_order i.program ≡ text_of i.program =
      ap (λ ns. list_lines ns i.program) order
      ∙ list_lines-text_of i.program i.program (Holds-self i.program sorted) in
    let text = text_of i.program in
    let loaded =
      load_lines-text_of (suc (length text)) (length text) [] i.program 0
        (omega (arith, length-text_of i.program h))
        (Fuels-text_of (suc (length text)) i.program h (omega arith)) h sorted
        (none_before i.program) in
    rw (listed, order) (rw (loaded, load_program) (rw zero-add refl))
