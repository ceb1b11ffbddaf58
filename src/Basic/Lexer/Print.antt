-- ===== src/Basic/Lexer/Print.antt =====
-- How a program's tokens are written.
use ralph_os.Base.{
  ℕ, zero, suc, ◌+◌, ◌*◌, ◌/◌, ◌%◌, ◌^◌, ◌<◌, ◌≡◌, Bool, true, false, none, List, [], ◌∷◌, ◌++◌,
  ◌==◌, if◌then◌else◌, All,
}
use ralph_os.Basic.Lexer.{
  Token, print, let_, if_, then_, goto, for_, to, step, next, sleep, rem, end_, run, list, new,
  load, mem, spawn, memstats, chr, asc, len, mid, left, instr, str, val, recv, gosub, return_, dim,
  socket, net_listen, accept, send, close, sockstate, plus, minus, star, slash, eq, ne, lt, gt, le,
  ge, lparen, rparen, semicolon, comma, integer, string_lit, identifier, newline, eof, is_lower,
  is_alphabetic, is_word, keywords, find_word,
}

-- The decimal digits of a number below 10 ^ fuel, in front of others.
unfoldable pub digits : (fuel n : ℕ) → List ℕ → List ℕ
digits zero n l = l
digits (suc fuel) n l =
    let d = (48 + n % 10) ∷ l in
    let more = digits fuel (n / 10) d in if n / 10 == 0 then d else more

abbrev pub power_of_ten : ℕ → ℕ
power_of_ten zero = 1
power_of_ten (suc n) = 10 * power_of_ten n

unfoldable pub print_token : Token → List ℕ
unfolding digits
print_token print = 80 ∷ 82 ∷ 73 ∷ 78 ∷ 84 ∷ []
print_token let_ = 76 ∷ 69 ∷ 84 ∷ []
print_token if_ = 73 ∷ 70 ∷ []
print_token then_ = 84 ∷ 72 ∷ 69 ∷ 78 ∷ []
print_token goto = 71 ∷ 79 ∷ 84 ∷ 79 ∷ []
print_token for_ = 70 ∷ 79 ∷ 82 ∷ []
print_token to = 84 ∷ 79 ∷ []
print_token step = 83 ∷ 84 ∷ 69 ∷ 80 ∷ []
print_token next = 78 ∷ 69 ∷ 88 ∷ 84 ∷ []
print_token sleep = 83 ∷ 76 ∷ 69 ∷ 69 ∷ 80 ∷ []
print_token rem = 82 ∷ 69 ∷ 77 ∷ []
print_token end_ = 69 ∷ 78 ∷ 68 ∷ []
print_token run = 82 ∷ 85 ∷ 78 ∷ []
print_token list = 76 ∷ 73 ∷ 83 ∷ 84 ∷ []
print_token new = 78 ∷ 69 ∷ 87 ∷ []
print_token load = 76 ∷ 79 ∷ 65 ∷ 68 ∷ []
print_token mem = 77 ∷ 69 ∷ 77 ∷ []
print_token spawn = 83 ∷ 80 ∷ 65 ∷ 87 ∷ 78 ∷ []
print_token memstats = 77 ∷ 69 ∷ 77 ∷ 83 ∷ 84 ∷ 65 ∷ 84 ∷ 83 ∷ []
print_token chr = 67 ∷ 72 ∷ 82 ∷ []
print_token asc = 65 ∷ 83 ∷ 67 ∷ []
print_token len = 76 ∷ 69 ∷ 78 ∷ []
print_token mid = 77 ∷ 73 ∷ 68 ∷ []
print_token left = 76 ∷ 69 ∷ 70 ∷ 84 ∷ []
print_token instr = 73 ∷ 78 ∷ 83 ∷ 84 ∷ 82 ∷ []
print_token str = 83 ∷ 84 ∷ 82 ∷ []
print_token val = 86 ∷ 65 ∷ 76 ∷ []
print_token recv = 82 ∷ 69 ∷ 67 ∷ 86 ∷ []
print_token gosub = 71 ∷ 79 ∷ 83 ∷ 85 ∷ 66 ∷ []
print_token return_ = 82 ∷ 69 ∷ 84 ∷ 85 ∷ 82 ∷ 78 ∷ []
print_token dim = 68 ∷ 73 ∷ 77 ∷ []
print_token socket = 83 ∷ 79 ∷ 67 ∷ 75 ∷ 69 ∷ 84 ∷ []
print_token net_listen = 76 ∷ 73 ∷ 83 ∷ 84 ∷ 69 ∷ 78 ∷ []
print_token accept = 65 ∷ 67 ∷ 67 ∷ 69 ∷ 80 ∷ 84 ∷ []
print_token send = 83 ∷ 69 ∷ 78 ∷ 68 ∷ []
print_token close = 67 ∷ 76 ∷ 79 ∷ 83 ∷ 69 ∷ []
print_token sockstate = 83 ∷ 79 ∷ 67 ∷ 75 ∷ 83 ∷ 84 ∷ 65 ∷ 84 ∷ 69 ∷ []
print_token plus = 43 ∷ []
print_token minus = 45 ∷ []
print_token star = 42 ∷ []
print_token slash = 47 ∷ []
print_token eq = 61 ∷ []
print_token ne = 60 ∷ 62 ∷ []
print_token lt = 60 ∷ []
print_token gt = 62 ∷ []
print_token le = 60 ∷ 61 ∷ []
print_token ge = 62 ∷ 61 ∷ []
print_token lparen = 40 ∷ []
print_token rparen = 41 ∷ []
print_token semicolon = 59 ∷ []
print_token comma = 44 ∷ []
print_token newline = 10 ∷ []
print_token eof = []
print_token (integer n) = digits 19 n []
print_token (string_lit s) = 34 ∷ (s ++ (34 ∷ []))
print_token (identifier s) = s

-- Each token with a blank behind it.
unfoldable pub print_tokens : List Token → List ℕ
unfolding print_token
print_tokens [] = []
print_tokens (t ∷ ts) = print_token t ++ (32 ∷ print_tokens ts)

-- No character that passes the test comes next.
abbrev pub Stops : (ℕ → Bool) → List ℕ → Type 0
Stops p [] = Unit {0}
Stops p (c ∷ cs) = p c ≡ false

-- Characters of a string that is closed by its quote.
abbrev pub IsPlain : ℕ → Type 0
IsPlain c = ((c == 34) ≡ false) × ((c == 10) ≡ false) × ((c == 13) ≡ false)

-- The characters of a name in capitals.
abbrev pub IsCapital : ℕ → Type 0
IsCapital c = (is_word c ≡ true) × (is_lower c ≡ false)

abbrev pub IsName : List ℕ → Type 0
IsName [] = ⊥
IsName (c ∷ cs) =
    (is_alphabetic c ≡ true) × All IsCapital (c ∷ cs) × (find_word (c ∷ cs) keywords ≡ none)

-- Integers are `i64`, and names are no keywords.
abbrev pub IsPrintable : Token → Type 0
IsPrintable (integer n) = n < 2 ^ 63
IsPrintable (string_lit s) = All IsPlain s
IsPrintable (identifier s) = IsName s
IsPrintable eof = ⊥
IsPrintable _ = Unit {0}
