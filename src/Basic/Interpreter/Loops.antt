-- ===== src/Basic/Interpreter/Loops.antt =====
-- FOR and NEXT.
use mathlib.Core.Path.{subst}
use ralph_os.Base.{
  ℕ, zero, suc, ◌+◌, ◌*◌, ◌^◌, ◌≤◌, ◌<◌, ◌≡◌, refl, ap, ◌∙◌, sym, inl, inr, true, false, some, List,
  [], ◌∷◌, arith, leb, if◌then◌else◌, Bool-cases,
}
use ralph_os.Base.Int.{pos, ◌+ℤ◌, leb_ℤ, ltb_ℤ, wrap64}
use ralph_os.Basic.Lexer.{word_eq}
use ralph_os.Basic.Syntax.{Name, Expr, Statement}
use ralph_os.Basic.Value.{Value, integer, as_integer}
use ralph_os.Basic.Eval.{Result, value, Variables, get, insert, Host, eval_expr}
use ralph_os.Basic.Interpreter.{
  ForState, Machine, NextAction, continue, jump, find_loop, remove_loop, line_after, eval,
  eval_integer, execute_for, next_round, execute_next, execute_statement,
}

pub word_eq_refl : (s : List ℕ) → word_eq s s ≡ true
unfolding word_eq
word_eq_refl [] = refl
word_eq_refl (c ∷ s) = ground (arith, word_eq_refl s)

pub get-insert_self :
    (name : Name) (v : Value) (vars : Variables) → get name (insert name v vars) ≡ some v
unfolding get insert
get-insert_self name v [] = rw (word_eq_refl name) refl
get-insert_self name v ((n, w) ∷ vars) = elim (Bool-cases (word_eq n name)) [
  | inl e ↦ rw e (rw e refl)
  | inr e ↦ rw e (rw e (get-insert_self name v vars))
]

-- A loop that counts up, in natural numbers below 2^63.
abbrev pub loop_of : Name → (last step line : ℕ) → ForState
loop_of var last step line = record {
  var = var;
  end_value = pos last;
  step = pos step;
  body_line = line;
}

module _ (var : Name) (last step line : ℕ) (rest : List ForState) where
  -- The loop is the latest, and its variable has this value.
  pub record IsLooping (a : ℕ) (m : Machine) : Type 0 where
    pub stack : m.for_stack ≡ loop_of var last step line ∷ rest
    pub counter : get var m.variables ≡ some (integer (pos a))

  -- What NEXT does there.
  abbrev pub next_machine : ℕ → Machine → Result NextAction × Machine
  next_machine a m =
      if leb (a + step) last
      then (
        value (jump line),
        record m { variables = insert var (integer (pos (a + step))) m.variables },
      )
      else (value continue, record m { for_stack = rest })

  found :
      (m : Machine) (a : ℕ)
      → IsLooping a m
      → find_loop var m.for_stack ≡ some (loop_of var last step line)
  unfolding find_loop
  found m a h = ap (find_loop var) h.stack ∙ rw (word_eq_refl var) refl

  removed : (m : Machine) (a : ℕ) → IsLooping a m → remove_loop var m.for_stack ≡ rest
  unfolding remove_loop
  removed m a h = ap (remove_loop var) h.stack ∙ rw (word_eq_refl var) refl

  -- The sum does not wrap.
  next_value :
      (a : ℕ) → a ≤ last → last + step < 2 ^ 63 → wrap64 (pos a +ℤ pos step) ≡ pos (a + step)
  unfolding ◌+ℤ◌
  next_value a le small = ground arith

  round-next :
      (a : ℕ) (m : Machine)
      → 0 < step
      → a ≤ last
      → last + step < 2 ^ 63
      → remove_loop var m.for_stack ≡ rest
      → next_round var (loop_of var last step line) (pos a) m ≡ next_machine a m
  unfolding next_round
  round-next a m positive le small gone =
      let up : ltb_ℤ (pos 0) (pos step) ≡ true = ground arith in
      elim (Bool-cases (leb (a + step) last)) [
        | inl e ↦
            let more : leb_ℤ (pos (a + step)) (pos last) ≡ true = ground (arith, e) in
            rw (next_value a le small, up, more, e) refl
        | inr e ↦
            let more : leb_ℤ (pos (a + step)) (pos last) ≡ false = ground (arith, e) in
            rw (next_value a le small, up, more, e)
              (ap (λ fs. (value continue, record m { for_stack = fs })) gone)
      ]

  pub execute_next-IsLooping :
      (a : ℕ) (m : Machine)
      → 0 < step
      → a ≤ last
      → last + step < 2 ^ 63
      → IsLooping a m
      → execute_next var m ≡ next_machine a m
  unfolding execute_next as_integer
  execute_next-IsLooping a m positive le small h =
      rw (found m a h, h.counter) (round-next a m positive le small (removed m a h))

  -- A number of rounds of the loop: NEXT jumps back, and then the body does what it likes, but it
  -- leaves the variable and the loops as they are.
  pub data Rounds : ℕ → Machine → Machine → Type 0 where
    none_yet : {m : Machine} → Rounds zero m m
    round :
        {k : ℕ} {m m1 m2 m3 : Machine}
        → execute_next var m ≡ (value (jump line), m1)
        → get var m2.variables ≡ get var m1.variables
        → m2.for_stack ≡ m1.for_stack
        → Rounds k m2 m3
        → Rounds (suc k) m m3

  -- If NEXT jumps back, the value is that of the next round.
  jumped :
      (a : ℕ) (m m1 : Machine)
      → next_machine a m ≡ (value (jump line), m1)
      → (a + step ≤ last)
        × (m1 ≡ record m { variables = insert var (integer (pos (a + step))) m.variables })
  jumped a m m1 e = elim (Bool-cases (leb (a + step) last)) [
    | inl t ↦ (ground (arith, t), sym (ap (λ r. r.1) (rw t at e)))
    | inr t ↦ cc (ap (λ r. r.0) (rw t at e))
  ]

  -- The body keeps what the loop needs.
  kept :
      (a : ℕ) (m m2 : Machine) {m1 : Machine}
      → IsLooping a m
      → m1 ≡ record m { variables = insert var (integer (pos (a + step))) m.variables }
      → get var m2.variables ≡ get var m1.variables
      → m2.for_stack ≡ m1.for_stack
      → IsLooping (a + step) m2
  kept a m m2 h made value_kept stack_kept = record {
    stack = stack_kept ∙ ap (λ r. r.for_stack) made ∙ h.stack;
    counter =
        value_kept
        ∙ ap (λ r. get var r.variables) made
        ∙ get-insert_self var (integer (pos (a + step))) m.variables;
  }

  Rounds-IsLooping :
      (k a : ℕ) {m m' : Machine}
      → 0 < step
      → last + step < 2 ^ 63
      → a ≤ last
      → IsLooping a m
      → Rounds k m m'
      → (a + k * step ≤ last) × IsLooping (a + k * step) m'
  Rounds-IsLooping zero a {m} positive small le h none_yet =
      (omega arith, subst (λ n. IsLooping n m) (omega arith) h)
  Rounds-IsLooping (suc k) a {m} {m'} positive small le h (round {m1 = m1} {m2 = m2} next v fs r) =
      let (less, made) =
        jumped a m m1 (sym (execute_next-IsLooping a m positive le small h) ∙ next) in
      let (below, after) =
        Rounds-IsLooping k (a + step) positive small less (kept a m m2 h made v fs) r in
      let same : a + step + k * step ≡ a + suc k * step = grind arith in
      (omega (arith, same), subst (λ n. IsLooping n m') same after)

-- FOR whose start, bound and step are literals, the start no more than the bound, the step positive
-- and the bound and the step together below 2^63, sets the variable and puts the loop on the stack;
-- and after any k rounds, whatever the bodies did that left the variable and the loops as they were,
-- the variable is start + k * step, no more than the bound, and NEXT jumps back to the line behind FOR
-- when the next value is no more than the bound, and else takes the loop off the stack and goes on.
pub for_next-Rounds :
    (host : Host) (order : List ℕ) (line idx : ℕ) (var : Name) (first last step k : ℕ)
    (m m' : Machine)
    → 0 < step
    → first ≤ last
    → last + step < 2 ^ 63
    → Rounds var last step
        (line_after line order)
        m.for_stack
        k
        (execute_statement host order line idx
          (Statement.for_to var (Expr.integer first) (Expr.integer last) (Expr.integer step))
          m).1
        m'
    → (first + k * step ≤ last)
      × (get var m'.variables ≡ some (integer (pos (first + k * step))))
      × (execute_next var m'
          ≡ next_machine var last step (line_after line order) m.for_stack (first + k * step) m')
unfolding execute_statement execute_for eval_integer eval eval_expr as_integer
for_next-Rounds host order line idx var first last step k m m' positive le small rounds =
    let body = line_after line order in
    let (below, looping) =
      Rounds-IsLooping var last step body m.for_stack k first positive small le
        (record { stack = refl; counter = get-insert_self var (integer (pos first)) m.variables })
        rounds in
    (
      below,
      looping.counter,
      execute_next-IsLooping var last step body m.for_stack (first + k * step) m' positive below
          small looping,
    )
