-- ===== src/Basic/Lexer.antt =====
-- src/basic/lexer.rs. The input is the list of its characters' codes from the position on.
pub mod Words
pub mod Print
mod Examples
use ralph_os.Base.{
  ℕ, zero, suc, ◌+◌, ◌-◌, ◌*◌, ◌^◌, Bool, true, false, not, ◌&&◌, ◌||◌, Option, none, some, List,
  [], ◌∷◌, map, ltb, leb, ◌==◌, if◌then◌else◌, length,
}

-- `Integer` holds what can be read: no token is negative.
pub data Token : Type 0 where
  print let_ if_ then_ goto for_ to step next sleep rem end_ run list new load mem spawn memstats
        chr asc len mid left instr str val recv gosub return_ dim socket net_listen accept send
        close sockstate :
      Token
  plus minus star slash eq ne lt gt le ge lparen rparen semicolon comma : Token
  integer : ℕ → Token
  string_lit identifier : List ℕ → Token
  newline eof : Token

abbrev pub is_digit : ℕ → Bool
is_digit c = leb 48 c && leb c 57

abbrev pub is_lower : ℕ → Bool
is_lower c = leb 97 c && leb c 122

abbrev pub is_alphabetic : ℕ → Bool
is_alphabetic c = (leb 65 c && leb c 90) || is_lower c

-- A letter, a digit, `_` or `$`.
abbrev pub is_word : ℕ → Bool
is_word c = (is_alphabetic c || is_digit c) || ((c == 95) || (c == 36))

abbrev pub to_upper : ℕ → ℕ
to_upper c = if is_lower c then c - 32 else c

-- The characters of a string up to the quote, the end of the line or the end, and what is behind.
unfoldable pub string_from : List ℕ → List ℕ × List ℕ
string_from [] = ([], [])
string_from (c ∷ cs) =
    let (s, rest) = string_from cs in
    if c == 34 then ([], cs) else if (c == 10) || (c == 13) then ([], c ∷ cs) else (c ∷ s, rest)

-- The longest prefix of characters that pass a test, and what is behind.
unfoldable pub take_while : (ℕ → Bool) → List ℕ → List ℕ × List ℕ
take_while p [] = ([], [])
take_while p (c ∷ cs) =
    let (s, rest) = take_while p cs in if p c then (c ∷ s, rest) else ([], c ∷ cs)

-- `str::parse` of digits: a number that is no `i64` is an error, which becomes 0.
unfoldable pub value_from : ℕ → List ℕ → ℕ
value_from n [] = n
value_from n (c ∷ cs) = value_from (n * 10 + (c - 48)) cs

unfoldable pub parse_i64 : List ℕ → ℕ
unfolding value_from
parse_i64 s = if ltb (value_from 0 s) (2 ^ 63) then value_from 0 s else 0

unfoldable pub word_eq : List ℕ → List ℕ → Bool
word_eq [] [] = true
word_eq [] (y ∷ ys) = false
word_eq (x ∷ xs) [] = false
word_eq (x ∷ xs) (y ∷ ys) = (x == y) && word_eq xs ys

abbrev pub Words : Type 0
Words = List (List ℕ × Token)

abbrev pub keywords : Words
keywords =
    (80 ∷ 82 ∷ 73 ∷ 78 ∷ 84 ∷ [], print)
    ∷ (76 ∷ 69 ∷ 84 ∷ [], let_)
    ∷ (73 ∷ 70 ∷ [], if_)
    ∷ (84 ∷ 72 ∷ 69 ∷ 78 ∷ [], then_)
    ∷ (71 ∷ 79 ∷ 84 ∷ 79 ∷ [], goto)
    ∷ (70 ∷ 79 ∷ 82 ∷ [], for_)
    ∷ (84 ∷ 79 ∷ [], to)
    ∷ (83 ∷ 84 ∷ 69 ∷ 80 ∷ [], step)
    ∷ (78 ∷ 69 ∷ 88 ∷ 84 ∷ [], next)
    ∷ (83 ∷ 76 ∷ 69 ∷ 69 ∷ 80 ∷ [], sleep)
    ∷ (82 ∷ 69 ∷ 77 ∷ [], rem)
    ∷ (69 ∷ 78 ∷ 68 ∷ [], end_)
    ∷ (82 ∷ 85 ∷ 78 ∷ [], run)
    ∷ (76 ∷ 73 ∷ 83 ∷ 84 ∷ [], list)
    ∷ (78 ∷ 69 ∷ 87 ∷ [], new)
    ∷ (76 ∷ 79 ∷ 65 ∷ 68 ∷ [], load)
    ∷ (77 ∷ 69 ∷ 77 ∷ [], mem)
    ∷ (83 ∷ 80 ∷ 65 ∷ 87 ∷ 78 ∷ [], spawn)
    ∷ (77 ∷ 69 ∷ 77 ∷ 83 ∷ 84 ∷ 65 ∷ 84 ∷ 83 ∷ [], memstats)
    ∷ (67 ∷ 72 ∷ 82 ∷ [], chr)
    ∷ (67 ∷ 72 ∷ 82 ∷ 36 ∷ [], chr)
    ∷ (65 ∷ 83 ∷ 67 ∷ [], asc)
    ∷ (76 ∷ 69 ∷ 78 ∷ [], len)
    ∷ (77 ∷ 73 ∷ 68 ∷ [], mid)
    ∷ (77 ∷ 73 ∷ 68 ∷ 36 ∷ [], mid)
    ∷ (76 ∷ 69 ∷ 70 ∷ 84 ∷ [], left)
    ∷ (76 ∷ 69 ∷ 70 ∷ 84 ∷ 36 ∷ [], left)
    ∷ (73 ∷ 78 ∷ 83 ∷ 84 ∷ 82 ∷ [], instr)
    ∷ (83 ∷ 84 ∷ 82 ∷ [], str)
    ∷ (83 ∷ 84 ∷ 82 ∷ 36 ∷ [], str)
    ∷ (86 ∷ 65 ∷ 76 ∷ [], val)
    ∷ (82 ∷ 69 ∷ 67 ∷ 86 ∷ [], recv)
    ∷ (82 ∷ 69 ∷ 67 ∷ 86 ∷ 36 ∷ [], recv)
    ∷ (71 ∷ 79 ∷ 83 ∷ 85 ∷ 66 ∷ [], gosub)
    ∷ (82 ∷ 69 ∷ 84 ∷ 85 ∷ 82 ∷ 78 ∷ [], return_)
    ∷ (68 ∷ 73 ∷ 77 ∷ [], dim)
    ∷ (83 ∷ 79 ∷ 67 ∷ 75 ∷ 69 ∷ 84 ∷ [], socket)
    ∷ (76 ∷ 73 ∷ 83 ∷ 84 ∷ 69 ∷ 78 ∷ [], net_listen)
    ∷ (65 ∷ 67 ∷ 67 ∷ 69 ∷ 80 ∷ 84 ∷ [], accept)
    ∷ (83 ∷ 69 ∷ 78 ∷ 68 ∷ [], send)
    ∷ (67 ∷ 76 ∷ 79 ∷ 83 ∷ 69 ∷ [], close)
    ∷ (83 ∷ 79 ∷ 67 ∷ 75 ∷ 83 ∷ 84 ∷ 65 ∷ 84 ∷ 69 ∷ [], sockstate)
    ∷ []

unfoldable pub find_word : List ℕ → Words → Option Token
unfolding word_eq
find_word s [] = none
find_word s ((w, t) ∷ rest) = if word_eq s w then some t else find_word s rest

unfoldable pub keyword_or_name : List ℕ → Token
keyword_or_name s = elim (find_word s keywords) [ some t ↦ t | none ↦ identifier s ]

unfoldable pub read_string : List ℕ → Token × List ℕ
read_string cs = let (s, rest) = string_from cs in (string_lit s, rest)

unfoldable pub read_number : List ℕ → Token × List ℕ
read_number cs = let (s, rest) = take_while is_digit cs in (integer (parse_i64 s), rest)

unfoldable pub read_identifier_or_keyword : List ℕ → Token × List ℕ
read_identifier_or_keyword cs =
    let (s, rest) = take_while is_word cs in (keyword_or_name (map to_upper s), rest)

-- Behind a carriage return.
abbrev pub after_return : List ℕ → List ℕ
after_return [] = []
after_return (c ∷ cs) = if c == 10 then cs else c ∷ cs

abbrev pub after_less : List ℕ → Token × List ℕ
after_less [] = (lt, [])
after_less (c ∷ cs) = if c == 62 then (ne, cs) else if c == 61 then (le, cs) else (lt, c ∷ cs)

abbrev pub after_greater : List ℕ → Token × List ℕ
after_greater [] = (gt, [])
after_greater (c ∷ cs) = if c == 61 then (ge, cs) else (gt, c ∷ cs)

-- The operators and separators that are one character.
unfoldable pub symbol : ℕ → Option Token
symbol c =
    if c == 43
    then some plus
    else if c == 45
    then some minus
    else if c == 42
    then some star
    else if c == 47
    then some slash
    else if c == 40
    then some lparen
    else if c == 41
    then some rparen
    else if c == 59
    then some semicolon
    else if c == 44
    then some comma
    else if c == 61
    then some eq
    else none

-- At a character that is no blank; `again` is the rest's token, for a character that is skipped.
unfoldable pub token_at : ℕ → List ℕ → Token × List ℕ → Token × List ℕ
token_at c cs again =
    if c == 10
    then (newline, cs)
    else if c == 13
    then (newline, after_return cs)
    else if c == 34
    then read_string cs
    else if is_digit c
    then read_number (c ∷ cs)
    else if is_alphabetic c
    then read_identifier_or_keyword (c ∷ cs)
    else if c == 60
    then after_less cs
    else if c == 62
    then after_greater cs
    else elim (symbol c) [ some t ↦ (t, cs) | none ↦ again ]

-- The recursion skips a blank or an unknown character each time.
unfoldable pub next_token : List ℕ → Token × List ℕ
next_token [] = (eof, [])
next_token (c ∷ cs) =
    let again = next_token cs in if (c == 32) || (c == 9) then again else token_at c cs again

unfoldable pub skip_to_eol : List ℕ → List ℕ
skip_to_eol [] = []
skip_to_eol (c ∷ cs) = if (c == 10) || (c == 13) then c ∷ cs else skip_to_eol cs
