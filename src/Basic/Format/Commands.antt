-- ===== src/Basic/Format/Commands.antt =====
-- The other statements are read back from their listings.
use mathlib.Core.List.{append-nil, append_assoc}
use ralph_os.Base.{ℕ, zero, suc, ◌+◌, ◌<◌, ◌≡◌, refl, List, [], ◌∷◌, ◌++◌, arith, All, length}
use ralph_os.Basic.Lexer.{Token}
use ralph_os.Basic.Lexer.Print.{IsPlain, IsName}
use ralph_os.Basic.Syntax.{Name, Expr, Statement}
use ralph_os.Basic.Format.{format_expr, format_arguments}
use ralph_os.Basic.Format.Needs.{IsFlat, nodes}
use ralph_os.Basic.Format.Tokens.{
  at, parser_of-name, parser_of-string, parser_of-blank, parser_of-lparen, parser_of-rparen,
  parser_of-comma, FollowsAll-rparen, FollowsAll-comma,
}
use ralph_os.Basic.Format.Expressions.{parse_expression-reads}
use ralph_os.Basic.Parser.{Parser, ok, parser_of, advance, expect, take_token}
use ralph_os.Basic.Parser.Statements.{
  spawn_arguments, parse_next, parse_sleep, parse_spawn, parse_dim, parse_send, parse_close,
  parse_assignment,
}
use ralph_os.Basic.Format.Keywords.{parser_of-eq, parser_of-newline, follows-newline}

module _ (fuel : ℕ) (rest : List ℕ) where
  abbrev pub End : Parser
  End = at Token.newline rest

  abbrev pub eol : List ℕ
  eol = 10 ∷ rest

  pub next-reads :
      (var : Name)
      → IsName var
      → parse_next fuel (at Token.next (32 ∷ (var ++ eol))) ≡ ok (Statement.next var, End)
  unfolding parse_next advance take_token
  next-reads var h0 =
      simp (parser_of-blank, parser_of-name var eol h0 refl, parser_of-newline rest) refl

  pub sleep-reads :
      (e : Expr)
      → IsFlat e
      → nodes e < fuel
      → parse_sleep fuel (at Token.sleep (32 ∷ format_expr e eol)) ≡ ok (Statement.sleep e, End)
  unfolding parse_sleep advance
  sleep-reads e h0 h1 =
      simp
        (
          parser_of-blank,
          parse_expression-reads fuel e eol h1 h0 (follows-newline rest),
          parser_of-newline rest,
        )
        refl

  pub close-reads :
      (e : Expr)
      → IsFlat e
      → nodes e < fuel
      → parse_close fuel (at Token.close (32 ∷ format_expr e eol)) ≡ ok (Statement.net_close e, End)
  unfolding parse_close advance
  close-reads e h0 h1 =
      simp
        (
          parser_of-blank,
          parse_expression-reads fuel e eol h1 h0 (follows-newline rest),
          parser_of-newline rest,
        )
        refl

  pub dim-reads :
      (name : Name) (e : Expr)
      → IsName name
      → IsFlat e
      → nodes e < fuel
      → parse_dim fuel (at Token.dim (32 ∷ (name ++ (40 ∷ format_expr e (41 ∷ eol)))))
        ≡ ok (Statement.dim name e, End)
  unfolding parse_dim advance take_token expect
  dim-reads name e h0 h1 h2 =
      simp
        (
          parser_of-blank,
          parser_of-name name (40 ∷ format_expr e (41 ∷ eol)) h0 refl,
          parser_of-lparen,
          parse_expression-reads fuel e (41 ∷ eol) h2 h1 (FollowsAll-rparen eol),
          parser_of-rparen,
          parser_of-newline rest,
        )
        refl

  pub send-reads :
      (a b : Expr)
      → IsFlat a
      → IsFlat b
      → nodes a + nodes b < fuel
      → parse_send fuel (at Token.send (32 ∷ format_expr a (44 ∷ (32 ∷ format_expr b eol))))
        ≡ ok (Statement.send a b, End)
  unfolding parse_send advance expect
  send-reads a b h0 h1 h2 =
      simp
        (
          parser_of-blank,
          parse_expression-reads fuel a (44 ∷ (32 ∷ format_expr b eol)) (omega arith) h0
              (FollowsAll-comma (32 ∷ format_expr b eol)),
          parser_of-comma,
          parse_expression-reads fuel b eol (omega arith) h1 (follows-newline rest),
          parser_of-newline rest,
        )
        refl

  pub assignment-reads :
      (name : Name) (a b : Expr)
      → IsFlat a
      → IsFlat b
      → nodes a + nodes b < fuel
      → parse_assignment fuel name (
          at
            (Token.identifier name)
            (40 ∷ format_expr a (41 ∷ (32 ∷ (61 ∷ (32 ∷ format_expr b eol))))))
        ≡ ok (Statement.array_assign name a b, End)
  unfolding parse_assignment advance expect
  assignment-reads name a b h0 h1 h2 =
      simp
        (
          parser_of-lparen,
          parse_expression-reads fuel a (41 ∷ (32 ∷ (61 ∷ (32 ∷ format_expr b eol)))) (omega arith)
              h0 (FollowsAll-rparen (32 ∷ (61 ∷ (32 ∷ format_expr b eol)))),
          parser_of-rparen,
          parser_of-blank,
          parser_of-eq,
          parse_expression-reads fuel b eol (omega arith) h1 (follows-newline rest),
          parser_of-newline rest,
        )
        refl

  arguments-read :
      (rounds : ℕ) (done args : List (List ℕ))
      → All (All IsPlain) args
      → length args < rounds
      → spawn_arguments rounds done (parser_of (format_arguments args eol)) ≡ ok (done ++ args, End)
  unfolding spawn_arguments format_arguments advance take_token
  arguments-read zero done args h lt = absurd (omega arith)
  arguments-read (suc rounds) done [] h lt = simp (parser_of-newline rest, append-nil) refl
  arguments-read (suc rounds) done (s ∷ ss) (hs, h) lt =
      simp
        (
          parser_of-comma,
          parser_of-blank,
          parser_of-string s (format_arguments ss eol) hs,
          arguments-read rounds (done ++ (s ∷ [])) ss h (omega arith),
          append_assoc,
        )
        refl

  pub spawn-reads :
      (name : List ℕ) (args : List (List ℕ))
      → All IsPlain name
      → All (All IsPlain) args
      → length args < fuel
      → parse_spawn fuel (at Token.spawn (32 ∷ (34 ∷ (name ++ (34 ∷ format_arguments args eol)))))
        ≡ ok (Statement.spawn name args, End)
  unfolding parse_spawn advance take_token
  spawn-reads name args h0 h1 h2 =
      simp
        (
          parser_of-blank,
          parser_of-string name (format_arguments args eol) h0,
          arguments-read fuel [] args h1 h2,
        )
        refl
