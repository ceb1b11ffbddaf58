-- ===== src/Basic/Eval.antt =====
-- eval_expr and eval_binary_op of src/basic/interpreter.rs. An expression may call TCP, and what the
-- calls did stays also when it fails.
pub mod Numbers
use Prim.Native.String.{String}
use ralph_os.Base.{
  ℕ, ◌+◌, ◌-◌, ◌%◌, ◌^◌, Bool, not, ◌&&◌, Option, none, some, List, [], ◌∷◌, ◌++◌, if◌then◌else◌,
  take, drop, get_or,
}
use ralph_os.Base.Int.{ℤ, pos, negsuc, ◌+ℤ◌, ◌-ℤ◌, ◌*ℤ◌, div_ℤ, ltb_ℤ, leb_ℤ, eqb_ℤ, bits64, wrap64}
use ralph_os.Net.Env.{Env}
use ralph_os.Net.Tcp.Tcb.{
  TcpState, closed, listen, syn_sent, syn_received, established, fin_wait1, fin_wait2, close_wait,
  closing, last_ack, time_wait,
}
use ralph_os.Net.Tcp.Table
use ralph_os.Net.Tcp.Table.{Tcp, Received, failed, got}
use ralph_os.Basic.Lexer.{word_eq}
use ralph_os.Basic.Syntax.{Name, BinaryOp, Expr}
use ralph_os.Basic.Utf8.{encode, from_utf8_lossy}
use ralph_os.Basic.Text.{byte_len, head_or_zero, find_from, trim, parse_int}
use ralph_os.Basic.Value.{
  Value, integer, string, int_array, string_array, as_integer, as_string, format_int,
}

-- The texts of the errors; those that show a value come with it.
pub data RunError : Type 0 where
  message : String → RunError
  undefined_variable next_without_for array_not_found : Name → RunError
  out_of_bounds line_not_found : ℕ → RunError
  spawn_failed : RunError

-- `panic` stops the kernel.
pub data Result {ℓ} (A : Type ℓ) : Type ℓ where
  value : A → Result A
  error : RunError → Result A
  panic : Result A

abbrev pub E {ℓ} : Type ℓ → Type ℓ
E A = Tcp → Result A × Tcp

abbrev pub pure {ℓ} : {A : Type ℓ} → A → E A
pure a t = (value a, t)

abbrev pub fail {ℓ} : {A : Type ℓ} → RunError → E A
fail e t = (error e, t)

abbrev pub after {ℓ κ} : {A : Type ℓ} {B : Type κ} → Result A × Tcp → (A → E B) → Result B × Tcp
after (value a, t) k = k a t
after (error e, t) k = (error e, t)
after (panic, t) k = (panic, t)

infixl 1 ◌>>=◌
abbrev pub ◌>>=◌ {ℓ κ} : {A : Type ℓ} {B : Type κ} → E A → (A → E B) → E B
m >>= k = λ t. after (m t) k

-- `.ok_or(text)?`
abbrev pub ok_or : {A : Type 0} → Option A → String → E A
ok_or (some a) text = pure a
ok_or none text = fail (message text)

-- The variables, the value of a name that is set again in its place.
abbrev pub Variables : Type 0
Variables = List (Name × Value)

unfoldable pub get : Name → Variables → Option Value
get name [] = none
get name ((n, v) ∷ vars) = if word_eq n name then some v else get name vars

unfoldable pub insert : Name → Value → Variables → Variables
insert name v [] = (name, v) ∷ []
insert name v ((n, w) ∷ vars) =
    if word_eq n name then (n, v) ∷ vars else (n, w) ∷ insert name v vars

-- What the statement finds around it: the timer and the address, the bytes of the heap that are used
-- and free, which requests of the heap succeed, and the task that a start of a program makes.
pub record Host : Type 0 where
  pub env : Env
  pub heap_stats : ℕ × ℕ
  pub can_allocate : ℕ → Bool
  pub spawn_program_dynamic : Name → List (List ℕ) → Option ℕ

abbrev pub truth : Bool → Value
truth b = integer (if b then pos 1 else pos 0)

-- The numeric operations, in a release build: sums and products wrap; a division that overflows
-- panics in every build.
unfoldable pub numeric_op : BinaryOp → ℤ → ℤ → Result Value
numeric_op BinaryOp.add l r = value (integer (wrap64 (l +ℤ r)))
numeric_op BinaryOp.sub l r = value (integer (wrap64 (l -ℤ r)))
numeric_op BinaryOp.mul l r = value (integer (wrap64 (l *ℤ r)))
numeric_op BinaryOp.div l r =
    if eqb_ℤ r (pos 0)
    then error (message "Division by zero")
    else if eqb_ℤ l (negsuc (2 ^ 63 - 1)) && eqb_ℤ r (negsuc 0)
    then panic
    else value (integer (div_ℤ l r))
numeric_op BinaryOp.eq l r = value (truth (eqb_ℤ l r))
numeric_op BinaryOp.ne l r = value (truth (not (eqb_ℤ l r)))
numeric_op BinaryOp.lt l r = value (truth (ltb_ℤ l r))
numeric_op BinaryOp.gt l r = value (truth (ltb_ℤ r l))
numeric_op BinaryOp.le l r = value (truth (leb_ℤ l r))
numeric_op BinaryOp.ge l r = value (truth (leb_ℤ r l))

unfoldable pub string_op : BinaryOp → List ℕ → List ℕ → Result Value
string_op BinaryOp.add l r = value (string (l ++ r))
string_op BinaryOp.eq l r = value (truth (word_eq l r))
string_op BinaryOp.ne l r = value (truth (not (word_eq l r)))
string_op _ l r = error (message "Invalid string operation")

abbrev pub with_operands : BinaryOp → Option ℤ → Option ℤ → Result Value
with_operands op none r = error (message "Type error in left operand")
with_operands op (some l) none = error (message "Type error in right operand")
with_operands op (some l) (some r) = numeric_op op l r

unfoldable pub eval_binary_op : BinaryOp → Value → Value → Result Value
unfolding as_integer numeric_op string_op
eval_binary_op op (string l) (string r) = string_op op l r
eval_binary_op op l r = with_operands op (as_integer l) (as_integer r)

abbrev pub state_code : TcpState → ℕ
state_code closed = 0
state_code listen = 1
state_code syn_sent = 2
state_code syn_received = 3
state_code established = 4
state_code fin_wait1 = 5
state_code fin_wait2 = 6
state_code close_wait = 7
state_code closing = 8
state_code last_ack = 9
state_code time_wait = 10

-- The socket, or -1
abbrev pub handle : Option ℕ → Value
handle (some h) = integer (pos h)
handle none = integer (negsuc 0)

abbrev pub negate_value : Value → Result Value
negate_value (integer n) = value (integer (wrap64 (pos 0 -ℤ n)))
negate_value _ = error (message "Cannot negate non-integer")

abbrev pub mem_value : ℕ × ℕ → ℤ → Result Value
mem_value (used, free) idx =
    if eqb_ℤ idx (pos 0)
    then value (integer (wrap64 (pos used)))
    else if eqb_ℤ idx (pos 1)
    then value (integer (wrap64 (pos free)))
    else error (message "MEM: invalid argument (use 0 for used, 1 for free)")

-- Out of bounds there is an empty string, or 0.
abbrev pub element : Name → Option Value → ℕ → Result Value
element name (some (string_array arr)) idx = value (string (get_or arr idx []))
element name (some (int_array arr)) idx = value (integer (get_or arr idx (pos 0)))
element name _ idx = error (array_not_found name)

abbrev pub received : Received → Value
received (got bytes) = string (from_utf8_lossy bytes)
received failed = string []

module _ (host : Host) (variables : Variables) where
  unfoldable pub eval_expr : Expr → E Value
  eval_expr (Expr.integer n) = pure (integer (pos n))
  eval_expr (Expr.string_lit s) = pure (string s)
  eval_expr (Expr.variable name) = λ t.
      (elim (get name variables) [ some v ↦ value v | none ↦ error (undefined_variable name) ], t)
  eval_expr (Expr.negate inner) = do v ← eval_expr inner; λ t. (negate_value v, t)
  eval_expr (Expr.binary_op l op r) = do
    a ← eval_expr l
    b ← eval_expr r
    λ t. (eval_binary_op op a b, t)
  eval_expr (Expr.mem arg) = do
    v ← eval_expr arg
    idx ← ok_or (as_integer v) "MEM requires numeric argument"
    λ t. (mem_value host.heap_stats idx, t)
  eval_expr (Expr.chr arg) = do
    v ← eval_expr arg
    n ← ok_or (as_integer v) "CHR$ requires numeric argument"
    pure (string ((bits64 n % 256) ∷ []))
  eval_expr (Expr.asc arg) = do
    v ← eval_expr arg
    s ← ok_or (as_string v) "ASC requires string argument"
    pure (integer (pos (head_or_zero (encode s))))
  eval_expr (Expr.len arg) = do
    v ← eval_expr arg
    s ← ok_or (as_string v) "LEN requires string argument"
    pure (integer (wrap64 (pos (byte_len s))))
  eval_expr (Expr.mid s_expr start_expr len_expr) = do
    v ← eval_expr s_expr
    s ← ok_or (as_string v) "MID$ requires string argument"
    b ← eval_expr start_expr
    start ← ok_or (as_integer b) "MID$ start must be numeric"
    c ← eval_expr len_expr
    count ← ok_or (as_integer c) "MID$ length must be numeric"
    pure (string (take (bits64 count) (drop (bits64 start - 1) s)))
  eval_expr (Expr.left s_expr n_expr) = do
    v ← eval_expr s_expr
    s ← ok_or (as_string v) "LEFT$ requires string argument"
    b ← eval_expr n_expr
    n ← ok_or (as_integer b) "LEFT$ count must be numeric"
    pure (string (take (bits64 n) s))
  eval_expr (Expr.instr haystack_expr needle_expr) = do
    v ← eval_expr haystack_expr
    haystack ← ok_or (as_string v) "INSTR requires string arguments"
    w ← eval_expr needle_expr
    needle ← ok_or (as_string w) "INSTR requires string arguments"
    pure (
        integer
          (elim (find_from 0 haystack needle) [ some p ↦ wrap64 (pos (p + 1)) | none ↦ pos 0 ]))
  eval_expr (Expr.str arg) = do
    v ← eval_expr arg
    n ← ok_or (as_integer v) "STR$ requires numeric argument"
    pure (string (format_int n []))
  eval_expr (Expr.val arg) = do
    v ← eval_expr arg
    s ← ok_or (as_string v) "VAL requires string argument"
    pure (integer (elim (parse_int (trim s)) [ some n ↦ n | none ↦ pos 0 ]))
  eval_expr (Expr.array_access name index) = do
    v ← eval_expr index
    idx ← ok_or (as_integer v) "Array index must be numeric"
    λ t. (element name (get name variables) (bits64 idx), t)
  eval_expr Expr.socket = λ t. let (h, t') = Table.socket t in (value (handle h), t')
  eval_expr (Expr.listen sock_expr port_expr) = do
    v ← eval_expr sock_expr
    sock ← ok_or (as_integer v) "LISTEN socket must be numeric"
    w ← eval_expr port_expr
    port ← ok_or (as_integer w) "LISTEN port must be numeric"
    λ t.
        let (done, t') = Table.start_listen host.env (bits64 sock) (bits64 port % 2 ^ 16) t in
        (value (truth done), t')
  eval_expr (Expr.accept sock_expr) = do
    v ← eval_expr sock_expr
    sock ← ok_or (as_integer v) "ACCEPT socket must be numeric"
    λ t. let (h, t') = Table.accept (bits64 sock) t in (value (handle h), t')
  eval_expr (Expr.recv sock_expr) = do
    v ← eval_expr sock_expr
    sock ← ok_or (as_integer v) "RECV$ socket must be numeric"
    λ t. let (r, t') = Table.recv (bits64 sock) 1024 t in (value (received r), t')
  eval_expr (Expr.sockstate sock_expr) = do
    v ← eval_expr sock_expr
    sock ← ok_or (as_integer v) "SOCKSTATE socket must be numeric"
    λ t. (value (integer (pos (state_code (Table.get_state (bits64 sock) t)))), t)
