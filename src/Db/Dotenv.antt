-- ===== src/Db/Dotenv.antt =====
-- Values in the env format of a connection string (internal/db/connectionstring/connectionstring.go,
-- `dotenvValue`).
use ti_cli.Common.{
  ℕ, Bool, true, false, not, ◌||◌, Option, none, some, [], ◌∷◌, ◌++◌, ◌==◌, if◌then◌else◌, ◌≡◌,
  refl, arith, Bool-cases, inl, inr,
}
use ti_cli.Common.Text.{Text, codes, eqb, contains}

unfoldable pub is_special : ℕ → Bool
is_special c =
    c == b' '
    || c == 9
    || c == b'#'
    || c == b'"'
    || c == b'\''
    || c == b'$'
    || c == b'`'
    || c == b'\\'
    || c == 10
    || c == 13

unfoldable pub needs_quote : Text → Bool
unfolding is_special
needs_quote [] = false
needs_quote (c ∷ s) = is_special c || needs_quote s

-- What the replacer writes for one character.
unfoldable pub escape_rune : ℕ → Text
escape_rune c =
    if c == b'\\'
    then codes "\\\\"
    else if c == 10
    then codes "\\n"
    else if c == 13
    then codes "\\r"
    else if c == b'"'
    then codes "\\\""
    else c ∷ []

unfoldable pub escape_all : Text → Text
unfolding escape_rune
escape_all [] = []
escape_all (c ∷ s) = escape_rune c ++ escape_all s

unfoldable pub dotenv_value : Text → Text
unfolding needs_quote escape_all
dotenv_value s =
    if eqb s []
    then codes "\"\""
    else if not (needs_quote s)
    then s
    else b'"' ∷ (escape_all s ++ b'"' ∷ [])

-- A reader of such values. Without quotes a value ends at a blank, a comment or the end of the line,
-- and has no quote, escape or expansion; in double quotes it goes up to the closing quote, and a
-- backslash stands before what it changes.
abbrev pub decode_rune : ℕ → ℕ
decode_rune c = if c == b'n' then 10 else if c == b'r' then 13 else c

abbrev pub cons_read : ℕ → Option Text → Option Text
cons_read c none = none
cons_read c (some s) = some (c ∷ s)

unfoldable pub unquote : Bool → Text → Option Text
unquote after_backslash [] = none
unquote true (c ∷ s) = cons_read (decode_rune c) (unquote false s)
unquote false (c ∷ s) =
    let inner = unquote false s in
    let escaped = unquote true s in
    if c == b'"'
    then if eqb s [] then some [] else none
    else if c == b'\\'
    then escaped
    else cons_read c inner

unfoldable ends_plain : ℕ → Bool
ends_plain c = c == 10 || c == 13 || c == 9 || c == b' ' || c == b'#'

unfoldable is_not_plain : ℕ → Bool
is_not_plain c = c == b'$' || c == b'\\' || c == b'`' || c == b'"' || c == b'\''

unfoldable pub read_plain : Text → Option Text
unfolding ends_plain is_not_plain
read_plain [] = some []
read_plain (c ∷ s) =
    let rest = read_plain s in
    if ends_plain c then some [] else if is_not_plain c then none else cons_read c rest

unfoldable pub read_value : Text → Option Text
unfolding unquote read_plain
read_value [] = some []
read_value (c ∷ s) = if c == b'"' then unquote false s else read_plain (c ∷ s)

unquote-escape_all : (s : Text) → unquote false (escape_all s ++ b'"' ∷ []) ≡ some s
unfolding unquote escape_all escape_rune
unquote-escape_all [] = unfold eqb in refl
unquote-escape_all (c ∷ s) = ground (arith, unquote-escape_all s)

plain_rune : (c : ℕ) → is_special c ≡ false → (ends_plain c ≡ false) × (is_not_plain c ≡ false)
unfolding is_special ends_plain is_not_plain
plain_rune c h = (ground arith, ground arith)

read_plain_lem : (s : Text) → needs_quote s ≡ false → read_plain s ≡ some s
unfolding read_plain needs_quote
read_plain_lem [] h = refl
read_plain_lem (c ∷ s) h =
    let (goes_on, plain) = plain_rune c (ground arith) in
    rw (goes_on, plain, read_plain_lem s (ground arith))

-- A value is read back from its written form.
pub read_value-dotenv_value : (s : Text) → read_value (dotenv_value s) ≡ some s
unfolding read_value dotenv_value eqb unquote needs_quote
read_value-dotenv_value [] = refl
read_value-dotenv_value (c ∷ s) = elim (Bool-cases (needs_quote (c ∷ s))) [
  | inl e ↦ rw e (unquote-escape_all (c ∷ s))
  | inr e ↦ rw e (let plain = read_plain_lem (c ∷ s) e in unfold is_special in ground arith)
]

contains-escape_all : (s : Text) → contains 10 (escape_all s ++ b'"' ∷ []) ≡ false
unfolding contains escape_all escape_rune
contains-escape_all [] = refl
contains-escape_all (c ∷ s) = ground (arith, contains-escape_all s)

contains-unquoted : (s : Text) → needs_quote s ≡ false → contains 10 s ≡ false
unfolding contains needs_quote is_special
contains-unquoted [] h = refl
contains-unquoted (c ∷ s) h = ground (arith, contains-unquoted s)

-- The written form stays on one line.
pub contains-dotenv_value : (s : Text) → contains 10 (dotenv_value s) ≡ false
unfolding dotenv_value eqb contains
contains-dotenv_value [] = refl
contains-dotenv_value (c ∷ s) = elim (Bool-cases (needs_quote (c ∷ s))) [
  | inl e ↦ rw e (contains-escape_all (c ∷ s))
  | inr e ↦ rw e (contains-unquoted (c ∷ s) e)
]
