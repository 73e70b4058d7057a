-- ===== src/Telemetry/Event/Shapes.antt =====
-- What the patterns and tables of internal/telemetrybackend/event.go stand for.
pub mod Accepted
use ti_cli.Common.{
  ℕ, ◌≤◌, Bool, true, ◌&&◌, ◌||◌, List, [], ◌∷◌, ◌++◌, ◌≡◌, ◌⊎◌, refl, sym, ap, ◌∙◌, arith, inl,
  inr, Bool-cases, All, length, drop, leb, ◌==◌,
}
use ti_cli.Common.Int.{ℤ, pos, negsuc}
use ti_cli.Common.Text.{Text, codes, eqb, eqb_sound, has_prefix, has_prefix_sound}
use ti_cli.Telemetry.Event.Patterns.{
  is_lower, is_digit, is_alnum_ascii, is_word, all, class_between, event_id_matches,
  installation_id_matches, flag_name_matches, split_spaces, all_words, command_path_matches,
  error_code_matches, cli_version_matches, one_of,
}
use ti_cli.Telemetry.Event.Checks.{within}

-- Between two characters, both included.
abbrev pub Within : ℕ → ℕ → ℕ → Type 0
Within low high c = (low ≤ c) × (c ≤ high)

abbrev pub IsLower : ℕ → Type 0
IsLower = Within b'a' b'z'

abbrev pub IsDigit : ℕ → Type 0
IsDigit = Within b'0' b'9'

abbrev pub IsAlnum : ℕ → Type 0
IsAlnum c = IsLower c ⊎ Within b'A' b'Z' c ⊎ IsDigit c

-- A letter, a digit, or one of these characters.
abbrev pub IsAlnumOr : Text → ℕ → Type 0
IsAlnumOr [] c = IsAlnum c
IsAlnumOr (d ∷ ds) c = (c ≡ d) ⊎ IsAlnumOr ds c

-- From `low` to `high` characters, each of the class.
abbrev pub Between : ℕ → ℕ → (ℕ → Type 0) → Text → Type 0
Between low high P s = (low ≤ length s) × (length s ≤ high) × All P s

abbrev pub IsFlagName : Text → Type 0
IsFlagName s =
    (c : ℕ) × (t : Text) × (s ≡ c ∷ t)
    × IsLower c
    × Between 0 63 (λ d. IsLower d ⊎ IsDigit d ⊎ (d ≡ b'-')) t

abbrev pub IsInstallationId : Text → Type 0
IsInstallationId s =
    (t : Text) × ((s ≡ codes "ti_" ++ t) ⊎ (s ≡ codes "tdc_" ++ t))
    × Between 16 96 (IsAlnumOr (codes "_-")) t

-- The words after the first, each with a space in front.
abbrev pub spaced : List Text → Text
spaced [] = []
spaced (w ∷ ws) = b' ' ∷ (w ++ spaced ws)

-- The program and at most two words in the form of the names of flags.
abbrev pub IsCommandPath : Text → Type 0
IsCommandPath s =
    (ws : List Text) × ((s ≡ codes "ti" ++ spaced ws) ⊎ (s ≡ codes "tdc" ++ spaced ws))
    × (length ws ≤ 2)
    × All IsFlagName ws

abbrev pub IsCliVersion : Text → Type 0
IsCliVersion s =
    (c : ℕ) × (t : Text) × (s ≡ c ∷ t) × IsAlnum c × Between 0 63 (IsAlnumOr (codes ".+_-")) t

abbrev pub IsOneOf : Text → List Text → Type 0
IsOneOf s [] = ⊥
IsOneOf s (a ∷ table) = (s ≡ a) ⊎ IsOneOf s table

abbrev pub IsUpTo : ℕ → ℤ → Type 0
IsUpTo high n = (k : ℕ) × (n ≡ pos k) × (k ≤ high)
