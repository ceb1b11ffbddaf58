-- ===== src/Basic/Program/Sorted.antt =====
-- The program store keeps its lines in order.
use ralph_os.Base.{
  ℕ, ◌<◌, ◌≡◌, ◌∙◌, refl, inl, inr, some, List, [], ◌∷◌, arith, ltb, ◌==◌, if◌then◌else◌, All,
  Bool-cases,
}
use ralph_os.Basic.Syntax.{Statement}
use ralph_os.Basic.Program.{Lines, insert_line, remove_line, line_at, keys}

-- The numbers rise.
abbrev pub Above : ℕ → Lines → Type 0
Above k lines = All (λ l. k < l.0) lines

abbrev pub IsSorted : Lines → Type 0
IsSorted [] = Unit {0}
IsSorted ((k, s) ∷ lines) = Above k lines × IsSorted lines

Above-mono : (j k : ℕ) (lines : Lines) → j < k → Above k lines → Above j lines
Above-mono j k [] lt h = tt
Above-mono j k (l ∷ lines) lt (now, h) = (omega arith, Above-mono j k lines lt h)

Above-insert_line :
    (k n : ℕ) (s : Statement) (lines : Lines)
    → k < n
    → Above k lines
    → Above k (insert_line n s lines)
unfolding insert_line
Above-insert_line k n s [] lt h = (lt, tt)
Above-insert_line k n s ((j, r) ∷ lines) lt (now, h) =
    let later = Above-insert_line k n s lines lt h in
    elim (Bool-cases (n == j)) [
      | inl e ↦ rw e (lt, h)
      | inr e ↦ elim (Bool-cases (ltb n j)) [
        | inl b ↦ rw (e, b) (lt, (now, h))
        | inr b ↦ rw (e, b) (now, later)
      ]
    ]

pub insert_line-IsSorted :
    (n : ℕ) (s : Statement) (lines : Lines) → IsSorted lines → IsSorted (insert_line n s lines)
unfolding insert_line
insert_line-IsSorted n s [] h = (tt, tt)
insert_line-IsSorted n s ((j, r) ∷ lines) (above, h) =
    let later = insert_line-IsSorted n s lines h in
    elim (Bool-cases (n == j)) [
      | inl e ↦ let same : n ≡ j = ground (arith, e) in rw e (rw same (above, h))
      | inr e ↦ elim (Bool-cases (ltb n j)) [
        | inl b ↦
            let lt : n < j = ground (arith, b) in
            rw (e, b) ((lt, Above-mono n j lines lt above), (above, h))
        | inr b ↦ rw (e, b) (Above-insert_line j n s lines (ground (arith, e, b)) above, later)
      ]
    ]

Above-remove_line : (k n : ℕ) (lines : Lines) → Above k lines → Above k (remove_line n lines)
unfolding remove_line
Above-remove_line k n [] h = tt
Above-remove_line k n ((j, r) ∷ lines) (now, h) =
    let later = Above-remove_line k n lines h in
    elim (Bool-cases (n == j)) [ inl e ↦ rw e h | inr e ↦ rw e (now, later) ]

pub remove_line-IsSorted : (n : ℕ) (lines : Lines) → IsSorted lines → IsSorted (remove_line n lines)
unfolding remove_line
remove_line-IsSorted n [] h = tt
remove_line-IsSorted n ((j, r) ∷ lines) (above, h) =
    let later = remove_line-IsSorted n lines h in
    elim (Bool-cases (n == j)) [
      | inl e ↦ rw e h
      | inr e ↦ rw e (Above-remove_line j n lines above, later)
    ]

-- The numbers of the order rise.
abbrev pub IsRising : List ℕ → Type 0
IsRising [] = Unit {0}
IsRising (n ∷ ns) = All (λ k. n < k) ns × IsRising ns

All-keys : (k : ℕ) (lines : Lines) → Above k lines → All (λ n. k < n) (keys lines)
All-keys k [] h = tt
All-keys k ((n, s) ∷ lines) (now, h) = (now, All-keys k lines h)

pub keys-IsRising : (lines : Lines) → IsSorted lines → IsRising (keys lines)
keys-IsRising [] h = tt
keys-IsRising ((n, s) ∷ lines) (above, h) = (All-keys n lines above, keys-IsRising lines h)

-- The number of a line of the program.
abbrev pub IsKey : Lines → ℕ → Type 0
IsKey lines n = (s : Statement) × (line_at n lines ≡ some s)

All-map {κ} : {P Q : ℕ → Type κ} (ns : List ℕ) → ((n : ℕ) → P n → Q n) → All P ns → All Q ns
All-map [] f h = tt
All-map (n ∷ ns) f (now, h) = (f n now, All-map ns f h)

IsKey-cons :
    (k : ℕ) (r : Statement) (lines : Lines) (n : ℕ) → IsKey lines n → IsKey ((k, r) ∷ lines) n
unfolding line_at
IsKey-cons k r lines n (s, e) = elim (Bool-cases (n == k)) [
  | inl t ↦ (r, rw t refl)
  | inr t ↦ (s, rw t e)
]

pub keys-IsKey : (lines : Lines) → All (IsKey lines) (keys lines)
keys-IsKey [] = tt
keys-IsKey ((n, s) ∷ lines) = (
  (s, unfold line_at in ground arith),
  All-map (keys lines) (IsKey-cons n s lines) (keys-IsKey lines),
)

line_at-insert_line :
    (n k : ℕ) (r : Statement) (lines : Lines)
    → line_at n (insert_line k r lines) ≡ (if n == k then some r else line_at n lines)
unfolding insert_line line_at
line_at-insert_line n k r [] = refl
line_at-insert_line n k r ((j, q) ∷ lines) = ground (arith, line_at-insert_line n k r lines)

IsKey-insert_line :
    (k : ℕ) (r : Statement) (lines : Lines) (n : ℕ)
    → IsKey lines n
    → IsKey (insert_line k r lines) n
IsKey-insert_line k r lines n (s, e) = elim (Bool-cases (n == k)) [
  | inl t ↦ (r, line_at-insert_line n k r lines ∙ rw t refl)
  | inr t ↦ (s, line_at-insert_line n k r lines ∙ rw t e)
]

pub known-insert_line :
    (k : ℕ) (r : Statement) (lines : Lines) (ns : List ℕ)
    → All (IsKey lines) ns
    → All (IsKey (insert_line k r lines)) ns
known-insert_line k r lines ns = All-map ns (IsKey-insert_line k r lines)
