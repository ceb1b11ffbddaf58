-- ===== src/Basic/Value.antt =====
-- src/basic/value.rs
use ralph_os.Base.{ℕ, suc, Bool, true, false, not, Option, none, some, List, [], ◌∷◌}
use ralph_os.Base.Int.{ℤ, pos, negsuc, eqb_ℤ}
use ralph_os.Base.Text.{codes}
use ralph_os.Basic.Format.{decimal}

pub data Value : Type 0 where
  integer : ℤ → Value
  string : List ℕ → Value
  int_array : List ℤ → Value
  string_array : List (List ℕ) → Value

unfoldable pub as_integer : Value → Option ℤ
as_integer (integer n) = some n
as_integer _ = none

unfoldable pub as_string : Value → Option (List ℕ)
as_string (string s) = some s
as_string _ = none

abbrev pub is_empty : {A : Type 0} → List A → Bool
is_empty [] = true
is_empty (x ∷ xs) = false

unfoldable pub is_truthy : Value → Bool
is_truthy (integer n) = not (eqb_ℤ n (pos 0))
is_truthy (string s) = not (is_empty s)
is_truthy (int_array arr) = not (is_empty arr)
is_truthy (string_array arr) = not (is_empty arr)

-- `{}` of an `i64`, in front of `rest`
unfoldable pub format_int : ℤ → List ℕ → List ℕ
unfolding decimal
format_int (pos n) rest = decimal n rest
format_int (negsuc n) rest = 45 ∷ decimal (suc n) rest

unfoldable pub display : Value → List ℕ
unfolding format_int
display (integer n) = format_int n []
display (string s) = s
display (int_array _) = codes "[Array]"
display (string_array _) = codes "[Array]"
