-- ===== src/Common/Text.antt =====
-- Go strings of valid UTF-8, as lists of code points, with what the program uses of `strings`.
use Prim.Native.Char.{code}
use Prim.Native.Nat.{ℕ, ◌+◌, ◌/◌, ◌%◌}
use Prim.Native.String.{String}
use mathlib.Core.Path.{◌≡◌, refl}
use mathlib.Core.Logic.{◌↔◌, ◌≢◌}
use mathlib.Core.Bool.{Bool, true, false, ◌&&◌, ◌||◌}
use mathlib.Core.List.{List, [], ◌∷◌, ◌++◌, reverse}
use native.Mathlib.Omega.{arith}
use ti_cli.Common.Tests.{leb, ltb, ◌==◌, if◌then◌else◌}
use ti_cli.Common.Lists.{length, drop, All}

abbrev pub Text : Type 0
Text = List ℕ

-- The code points of a literal.
abbrev pub codes : String → Text
codes String.[] = []
codes (String.◌∷◌ c s) = code c ∷ codes s

-- Go's `==` on strings.
unfoldable pub eqb : Text → Text → Bool
eqb [] [] = true
eqb [] (d ∷ t) = false
eqb (c ∷ s) [] = false
eqb (c ∷ s) (d ∷ t) = c == d && eqb s t

pub eqb_sound : (s t : Text) → eqb s t ≡ true → s ≡ t
unfolding eqb
eqb_sound [] [] h = refl
eqb_sound [] (d ∷ t) h = cc
eqb_sound (c ∷ s) [] h = cc
eqb_sound (c ∷ s) (d ∷ t) h = ground (arith, eqb_sound s t)

pub eqb_refl : (s : Text) → eqb s s ≡ true
unfolding eqb
eqb_refl [] = refl
eqb_refl (c ∷ s) = ground (arith, eqb_refl s)

pub eqb_iff : (s t : Text) → (eqb s t ≡ true) ↔ (s ≡ t)
eqb_iff s t = (eqb_sound s t, λ e. rw e (eqb_refl t))

-- The bytes that UTF-8 takes for one code point.
unfoldable pub rune_len : ℕ → ℕ
rune_len c = if ltb c 0x80 then 1 else if ltb c 0x800 then 2 else if ltb c 0x10000 then 3 else 4

-- Go's `len` of a string.
unfoldable pub byte_len : Text → ℕ
unfolding rune_len
byte_len [] = 0
byte_len (c ∷ s) = rune_len c + byte_len s

-- Its bytes in UTF-8, as `[]byte` of a string gives them.
unfoldable pub utf8_rune : ℕ → List ℕ
utf8_rune c =
    if ltb c 0x80
    then c ∷ []
    else if ltb c 0x800
    then (0xC0 + c / 0x40) ∷ (0x80 + c % 0x40) ∷ []
    else if ltb c 0x10000
    then (0xE0 + c / 0x1000) ∷ (0x80 + c / 0x40 % 0x40) ∷ (0x80 + c % 0x40) ∷ []
    else (0xF0 + c / 0x40000)
      ∷ (0x80 + c / 0x1000 % 0x40)
      ∷ (0x80 + c / 0x40 % 0x40)
      ∷ (0x80 + c % 0x40)
      ∷ []

unfoldable pub utf8 : Text → List ℕ
unfolding utf8_rune
utf8 [] = []
utf8 (c ∷ s) = utf8_rune c ++ utf8 s

-- `unicode.IsSpace`.
unfoldable pub is_space : ℕ → Bool
is_space c =
    (leb 9 c && leb c 13)
    || c == 0x20
    || c == 0x85
    || c == 0xA0
    || c == 0x1680
    || (leb 0x2000 c && leb c 0x200A)
    || c == 0x2028
    || c == 0x2029
    || c == 0x202F
    || c == 0x205F
    || c == 0x3000

unfoldable pub trim_left : Text → Text
unfolding is_space
trim_left [] = []
trim_left (c ∷ s) = if is_space c then trim_left s else c ∷ s

-- `strings.TrimSpace`.
unfoldable pub trim_space : Text → Text
unfolding trim_left
trim_space s = reverse (trim_left (reverse (trim_left s)))

-- `strings.HasPrefix`, its first argument the prefix.
unfoldable pub has_prefix : Text → Text → Bool
has_prefix [] s = true
has_prefix (p ∷ ps) [] = false
has_prefix (p ∷ ps) (c ∷ s) = p == c && has_prefix ps s

-- `strings.TrimPrefix`.
unfoldable pub trim_prefix : Text → Text → Text
unfolding has_prefix
trim_prefix p s = if has_prefix p s then drop (length p) s else s

-- `strings.Contains` of one character.
unfoldable pub contains : ℕ → Text → Bool
contains d [] = false
contains d (c ∷ s) = c == d || contains d s

abbrev pub Lacks : ℕ → Text → Type 0
Lacks d = All (λ c. c ≢ d)

pub contains-Lacks : (d : ℕ) (s : Text) → contains d s ≡ false → Lacks d s
unfolding contains
contains-Lacks d [] h = tt
contains-Lacks d (c ∷ s) h = ground (arith, contains-Lacks d s)

pub Lacks-contains : (d : ℕ) (s : Text) → Lacks d s → contains d s ≡ false
unfolding contains
Lacks-contains d [] h = refl
Lacks-contains d (c ∷ s) h = ground (arith, Lacks-contains d s h.1)

pub has_prefix-append : (p s : Text) → has_prefix p (p ++ s) ≡ true
unfolding has_prefix
has_prefix-append [] s = refl
has_prefix-append (c ∷ p) s = ground (arith, has_prefix-append p s)

pub has_prefix_sound : (p s : Text) → has_prefix p s ≡ true → p ++ drop (length p) s ≡ s
unfolding has_prefix
has_prefix_sound [] s h = refl
has_prefix_sound (c ∷ p) [] h = cc
has_prefix_sound (c ∷ p) (d ∷ s) h = ground (arith, has_prefix_sound p s)

pub trim_prefix-append : (p s : Text) → trim_prefix p (p ++ s) ≡ s
unfolding trim_prefix has_prefix
trim_prefix-append [] s = refl
trim_prefix-append (c ∷ p) s = ground (arith, has_prefix-append p s, trim_prefix-append p s)

-- `strings.Contains`.
unfoldable pub contains_text : Text → Text → Bool
unfolding has_prefix
contains_text p [] = has_prefix p []
contains_text p (c ∷ s) = has_prefix p (c ∷ s) || contains_text p s

-- `strings.ToLower` as far as ASCII letters come out of it: the Kelvin sign and the dotted capital
-- I are the other characters that it maps to one.
unfoldable pub lower_rune : ℕ → ℕ
lower_rune c =
    if leb b'A' c && leb c b'Z'
    then c + 32
    else if c == 0x212A
    then b'k'
    else if c == 0x130
    then b'i'
    else c

unfoldable pub to_lower : Text → Text
unfolding lower_rune
to_lower [] = []
to_lower (c ∷ s) = lower_rune c ∷ to_lower s
