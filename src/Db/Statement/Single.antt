-- ===== src/Db/Statement/Single.antt =====
-- The scanner against a reading of the text that first takes the quoted parts away.
use ti_cli.Common.{
  ℕ, Bool, true, false, ◌&&◌, Option, none, some, [], ◌∷◌, ◌≡◌, refl, ◌==◌, if◌then◌else◌, arith,
  Bool-cases, inl, inr,
}
use ti_cli.Common.Text.{Text, is_space}
use ti_cli.Common.Trim.{trim_space-ink}
use ti_cli.Db.Statement.{
  Scan, single_quote, double_quote, backtick, backslash, semicolon, is_sql_space, blank, scan_step,
  scan, is_single,
}

pub data Quote : Type 0 where
  single double back : Quote

abbrev pub mark : Quote → ℕ
mark single = single_quote
mark double = double_quote
mark back = backtick

abbrev pub escapes : Quote → Bool
escapes back = false
escapes _ = true

-- Outside of quotes, inside, or after a backslash inside.
pub data Mode : Type 0 where
  plain : Mode
  quoted escape : Quote → Mode

abbrev pub cons_some : ℕ → Option Text → Option Text
cons_some c none = none
cons_some c (some s) = some (c ∷ s)

-- The characters outside of quotes and the opening quotes; `none` if a quote is left open.
unfoldable pub outside : Mode → Text → Option Text
outside plain [] = some []
outside (quoted k) [] = none
outside (escape k) [] = none
outside plain (c ∷ s) =
    if c == single_quote
    then cons_some c (outside (quoted single) s)
    else if c == double_quote
    then cons_some c (outside (quoted double) s)
    else if c == backtick
    then cons_some c (outside (quoted back) s)
    else cons_some c (outside plain s)
outside (quoted k) (c ∷ s) =
    if escapes k && c == backslash
    then outside (escape k) s
    else if c == mark k
    then outside plain s
    else outside (quoted k) s
outside (escape k) (c ∷ s) = outside (quoted k) s

unfoldable pub all_space : Text → Bool
unfolding is_sql_space
all_space [] = true
all_space (c ∷ s) = is_sql_space c && all_space s

-- Nothing but space after the first terminator.
unfoldable pub ends_once : Text → Bool
unfolding all_space
ends_once [] = true
ends_once (c ∷ s) = if c == semicolon then all_space s else ends_once s

abbrev pub verdict : Bool → Option Text → Bool
verdict seen none = false
verdict true (some s) = all_space s
verdict false (some s) = ends_once s

-- The state of the scanner in a mode.
abbrev scan_of : Mode → Bool → Scan
scan_of m seen = record {
  in_single = is_quote single m;
  in_double = is_quote double m;
  in_backtick = is_quote back m;
  escaped = is_escape m;
  seen_terminator = seen;
}
  where
    same : Quote → Quote → Bool
    same single single = true
    same double double = true
    same back back = true
    same _ _ = false

    is_quote : Quote → Mode → Bool
    is_quote k plain = false
    is_quote k (quoted j) = same k j
    is_quote k (escape j) = same k j

    is_escape : Mode → Bool
    is_escape (escape k) = true
    is_escape _ = false

-- A quote is no space.
blank-mark : (k : Quote) (c : ℕ) (s : Text) → (c == mark k) ≡ true → blank (c ∷ s) ≡ false
unfolding is_space blank
blank-mark single c s h = trim_space-ink c s (ground arith)
blank-mark double c s h = trim_space-ink c s (ground arith)
blank-mark back c s h = trim_space-ink c s (ground arith)

verdict-cons_some :
    (seen : Bool) (c : ℕ) (o : Option Text)
    → verdict seen (cons_some c o) ≡ (
        if seen
        then is_sql_space c && verdict true o
        else if c == semicolon
        then verdict true o
        else verdict false o)
unfolding ends_once all_space
verdict-cons_some true c none = ground arith
verdict-cons_some true c (some s) = refl
verdict-cons_some false c none = ground arith
verdict-cons_some false c (some s) = ground arith

scan_lem :
    (m : Mode) (seen : Bool) (s : Text) → scan (scan_of m seen) s ≡ verdict seen (outside m s)
unfolding scan outside scan_step ends_once all_space
scan_lem plain true [] = refl
scan_lem plain false [] = refl
scan_lem (quoted single) seen [] = refl
scan_lem (quoted double) seen [] = refl
scan_lem (quoted back) seen [] = refl
scan_lem (escape single) seen [] = refl
scan_lem (escape double) seen [] = refl
scan_lem (escape back) seen [] = refl
scan_lem plain true (c ∷ s) = elim (Bool-cases (c == single_quote)) [
  | inl e ↦
      ground (arith, blank-mark single c s e, verdict-cons_some true c (outside (quoted single) s))
  | inr e ↦ elim (Bool-cases (c == double_quote)) [
    | inl f ↦
        ground
          (arith, blank-mark double c s f, verdict-cons_some true c (outside (quoted double) s))
    | inr f ↦ elim (Bool-cases (c == backtick)) [
      | inl g ↦
          ground (arith, blank-mark back c s g, verdict-cons_some true c (outside (quoted back) s))
      | inr g ↦
          rw (e, f, g)
            (ground (arith, verdict-cons_some true c (outside plain s), scan_lem plain true s))
    ]
  ]
]
scan_lem plain false (c ∷ s) = elim (Bool-cases (c == single_quote)) [
  | inl e ↦ rw e (
      ground (
        arith,
        e,
        verdict-cons_some false c (outside (quoted single) s),
        scan_lem (quoted single) false s,
      ))
  | inr e ↦ elim (Bool-cases (c == double_quote)) [
    | inl f ↦
        rw (e, f)
          (ground (
            arith,
            f,
            verdict-cons_some false c (outside (quoted double) s),
            scan_lem (quoted double) false s,
          ))
    | inr f ↦ elim (Bool-cases (c == backtick)) [
      | inl g ↦
          rw (e, f, g)
            (ground (
              arith,
              g,
              verdict-cons_some false c (outside (quoted back) s),
              scan_lem (quoted back) false s,
            ))
      | inr g ↦ elim (Bool-cases (c == semicolon)) [
        | inl h ↦
            rw (e, f, g, scan, h)
              (ground
                (arith, h, verdict-cons_some false c (outside plain s), scan_lem plain true s))
        | inr h ↦
            rw (e, f, g, scan, h)
              (ground
                (arith, h, verdict-cons_some false c (outside plain s), scan_lem plain false s))
      ]
    ]
  ]
]
scan_lem (quoted single) seen (c ∷ s) =
    ground (
      arith,
      scan_lem (quoted single) seen s,
      scan_lem (escape single) seen s,
      scan_lem plain seen s,
    )
scan_lem (quoted double) seen (c ∷ s) =
    ground (
      arith,
      scan_lem (quoted double) seen s,
      scan_lem (escape double) seen s,
      scan_lem plain seen s,
    )
scan_lem (quoted back) seen (c ∷ s) =
    ground (arith, scan_lem (quoted back) seen s, scan_lem plain seen s)
scan_lem (escape single) seen (c ∷ s) = scan_lem (quoted single) seen s
scan_lem (escape double) seen (c ∷ s) = scan_lem (quoted double) seen s
scan_lem (escape back) seen (c ∷ s) = scan_lem (quoted back) seen s

-- A text is taken for one statement exactly if every quote is closed and nothing but space follows
-- the first terminator outside of quotes.
pub is_single_lem : (s : Text) → is_single s ≡ verdict false (outside plain s)
unfolding is_single
is_single_lem s = scan_lem plain false s
