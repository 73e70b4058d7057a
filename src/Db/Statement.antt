-- ===== src/Db/Statement.antt =====
-- Whether a text is one SQL statement (internal/db/sqlsingle/sqlsingle.go). The source goes through
-- bytes; those of a character beyond ASCII are neither quotes, terminators, backslashes nor spaces,
-- and no more is the character.
pub mod Single
use ti_cli.Common.{
  ℕ, Bool, true, false, not, ◌&&◌, ◌||◌, Option, none, some, [], ◌∷◌, ◌==◌, if◌then◌else◌,
}
use ti_cli.Common.Text.{Text, eqb, trim_space}
use ti_cli.Common.Result.{Result, ok, err}

pub data StatementError : Type 0 where
  missing multiple : StatementError

pub record Scan : Type 0 where
  pub in_single : Bool
  pub in_double : Bool
  pub in_backtick : Bool
  pub escaped : Bool
  pub seen_terminator : Bool

abbrev pub single_quote : ℕ
single_quote = b'\''

abbrev pub double_quote : ℕ
double_quote = b'"'

abbrev pub backtick : ℕ
backtick = b'`'

abbrev pub backslash : ℕ
backslash = b'\\'

abbrev pub semicolon : ℕ
semicolon = b';'

unfoldable pub is_sql_space : ℕ → Bool
is_sql_space c = c == 32 || c == 10 || c == 13 || c == 9

unfoldable pub blank : Text → Bool
unfolding trim_space
blank s = eqb (trim_space s) []

-- One round of the loop, at a character and what follows it; `none` is the answer false.
unfoldable pub scan_step : Scan → ℕ → Text → Option Scan
scan_step q c s =
    if q.escaped
    then some (record q { escaped = false })
    else if (q.in_single || q.in_double) && c == backslash
    then some (record q { escaped = true })
    else if q.in_single
    then some (if c == single_quote then record q { in_single = false } else q)
    else if q.in_double
    then some (if c == double_quote then record q { in_double = false } else q)
    else if q.in_backtick
    then some (if c == backtick then record q { in_backtick = false } else q)
    else if c == single_quote
    then if q.seen_terminator && not (blank (c ∷ s))
      then none
      else some (record q { in_single = true })
    else if c == double_quote
    then if q.seen_terminator && not (blank (c ∷ s))
      then none
      else some (record q { in_double = true })
    else if c == backtick
    then if q.seen_terminator && not (blank (c ∷ s))
      then none
      else some (record q { in_backtick = true })
    else if c == semicolon
    then if q.seen_terminator then none else some (record q { seen_terminator = true })
    else if q.seen_terminator && not (is_sql_space c)
    then none
    else some q

unfoldable pub scan : Scan → Text → Bool
scan q [] = not q.in_single && not q.in_double && not q.in_backtick
scan q (c ∷ s) = elim (scan_step q c s) [ none ↦ false | some q' ↦ scan q' s ]

unfoldable pub is_single : Text → Bool
unfolding scan
is_single s =
    scan
      (record {
        in_single = false;
        in_double = false;
        in_backtick = false;
        escaped = false;
        seen_terminator = false;
      })
      s

unfoldable pub validate : Text → Result StatementError (Unit {0})
unfolding is_single blank
validate s = if blank s then err missing else if not (is_single s) then err multiple else ok tt
