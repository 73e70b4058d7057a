-- ===== src/Telemetry/Event/Shapes/Accepted.antt =====
-- A text that a pattern or a table of internal/telemetrybackend/event.go lets through has the shape.
use ti_cli.Common.{
  ℕ, Bool, true, ◌&&◌, ◌||◌, List, [], ◌∷◌, ◌++◌, ◌≡◌, ◌⊎◌, refl, sym, ap, ◌∙◌, arith, inl, inr,
  Bool-cases, All, length, drop, leb, ◌==◌,
}
use ti_cli.Common.Int.{ℤ, pos, negsuc}
use ti_cli.Common.Text.{Text, codes, eqb, eqb_sound, has_prefix, has_prefix_sound}
use ti_cli.Telemetry.Event.Patterns.{
  is_lower, is_digit, is_alnum_ascii, is_word, all, class_between, event_id_matches,
  installation_id_matches, flag_name_matches, split_spaces, all_words, command_path_matches,
  error_code_matches, cli_version_matches, one_of,
}
use ti_cli.Telemetry.Event.Checks.{within}
use ti_cli.Telemetry.Event.Shapes.{
  IsLower, IsDigit, IsAlnum, IsAlnumOr, Between, IsFlagName, IsInstallationId, spaced,
  IsCommandPath, IsCliVersion, IsOneOf, IsUpTo,
}

is_lower_sound : (c : ℕ) → is_lower c ≡ true → IsLower c
unfolding is_lower
is_lower_sound c h = (ground arith, ground arith)

is_digit_sound : (c : ℕ) → is_digit c ≡ true → IsDigit c
unfolding is_digit
is_digit_sound c h = (ground arith, ground arith)

is_alnum_ascii_sound : (c : ℕ) → is_alnum_ascii c ≡ true → IsAlnum c
unfolding is_alnum_ascii
is_alnum_ascii_sound c h = elim (Bool-cases (is_lower c)) [
  | inl e ↦ inl (is_lower_sound c e)
  | inr e ↦ elim (Bool-cases (is_digit c)) [
    | inl f ↦ inr (inr (is_digit_sound c f))
    | inr f ↦ inr (inl (ground arith, ground arith))
  ]
]

all_sound :
    (p : ℕ → Bool) (P : ℕ → Type 0) (s : Text)
    → ((c : ℕ) → p c ≡ true → P c)
    → all p s ≡ true
    → All P s
unfolding all
all_sound p P [] f h = tt
all_sound p P (c ∷ s) f h = (f c (ground arith), all_sound p P s f (ground arith))

class_between_sound :
    (p : ℕ → Bool) (P : ℕ → Type 0) (low high : ℕ) (s : Text)
    → ((c : ℕ) → p c ≡ true → P c)
    → class_between p low high s ≡ true
    → Between low high P s
unfolding class_between
class_between_sound p P low high s f h =
    (ground arith, ground arith, all_sound p P s f (ground arith))

is_word_sound : (c : ℕ) → is_word c ≡ true → IsAlnumOr (codes "_-") c
unfolding is_word
is_word_sound c h = elim (Bool-cases (is_alnum_ascii c)) [
  | inl e ↦ inr (inr (is_alnum_ascii_sound c e))
  | inr e ↦ elim (Bool-cases (c == b'_')) [
    | inl f ↦ inl (ground arith)
    | inr f ↦ inr (inl (ground arith))
  ]
]

pub event_id_matches_sound :
    (s : Text) → event_id_matches s ≡ true → Between 16 64 (IsAlnumOr (codes "_-")) s
event_id_matches_sound s h =
    class_between_sound is_word (IsAlnumOr (codes "_-")) 16 64 s is_word_sound
      (unfold event_id_matches in h)

pub installation_id_matches_sound :
    (s : Text) → installation_id_matches s ≡ true → IsInstallationId s
unfolding installation_id_matches
installation_id_matches_sound s h =
    elim (Bool-cases (has_prefix (codes "ti_") s && class_between is_word 16 96 (drop 3 s))) [
      | inl e ↦ (
        drop 3 s,
        inl (sym (has_prefix_sound (codes "ti_") s (ground arith))),
        class_between_sound is_word (IsAlnumOr (codes "_-")) 16 96 (drop 3 s) is_word_sound
            (ground arith),
      )
      | inr e ↦ (
        drop 4 s,
        inr (sym (has_prefix_sound (codes "tdc_") s (ground arith))),
        class_between_sound is_word (IsAlnumOr (codes "_-")) 16 96 (drop 4 s) is_word_sound
            (ground arith),
      )
    ]

flag_rune_sound :
    (c : ℕ) → (is_lower c || is_digit c || c == b'-') ≡ true → IsLower c ⊎ IsDigit c ⊎ (c ≡ b'-')
flag_rune_sound c h = elim (Bool-cases (is_lower c)) [
  | inl e ↦ inl (is_lower_sound c e)
  | inr e ↦ elim (Bool-cases (is_digit c)) [
    | inl f ↦ inr (inl (is_digit_sound c f))
    | inr f ↦ inr (inr (ground arith))
  ]
]

flag_name_matches_sound : (s : Text) → flag_name_matches s ≡ true → IsFlagName s
unfolding flag_name_matches
flag_name_matches_sound [] h = absurd (cc)
flag_name_matches_sound (c ∷ s) h = (
  c,
  s,
  refl,
  is_lower_sound c (ground arith),
  class_between_sound (λ d. is_lower d || is_digit d || d == b'-')
      (λ d. IsLower d ⊎ IsDigit d ⊎ (d ≡ b'-')) 0 63 s flag_rune_sound (ground arith),
)

pub all_words_sound : (ws : List Text) → all_words ws ≡ true → All IsFlagName ws
unfolding all_words
all_words_sound [] h = tt
all_words_sound (w ∷ ws) h =
    (flag_name_matches_sound w (ground arith), all_words_sound ws (ground arith))

pub one_of_sound : (s : Text) (table : List Text) → one_of s table ≡ true → IsOneOf s table
unfolding one_of
one_of_sound s [] h = absurd (cc)
one_of_sound s (a ∷ table) h = elim (Bool-cases (eqb s a)) [
  | inl e ↦ inl (eqb_sound s a e)
  | inr e ↦ inr (one_of_sound s table (ground arith))
]

pub within_sound : (n : ℤ) (high : ℕ) → within n high ≡ true → IsUpTo high n
unfolding within
within_sound (pos k) high h = (k, refl, ground arith)
within_sound (negsuc k) high h = absurd (ground arith)

error_rune_sound :
    (c : ℕ)
    → (is_alnum_ascii c || c == b'.' || c == b'_' || c == b'-') ≡ true
    → IsAlnumOr (codes "._-") c
error_rune_sound c h = elim (Bool-cases (is_alnum_ascii c)) [
  | inl e ↦ inr (inr (inr (is_alnum_ascii_sound c e)))
  | inr e ↦ elim (Bool-cases (c == b'.')) [
    | inl f ↦ inl (ground arith)
    | inr f ↦ elim (Bool-cases (c == b'_')) [
      | inl g ↦ inr (inl (ground arith))
      | inr g ↦ inr (inr (inl (ground arith)))
    ]
  ]
]

pub error_code_matches_sound :
    (s : Text) → error_code_matches s ≡ true → Between 0 64 (IsAlnumOr (codes "._-")) s
error_code_matches_sound s h =
    class_between_sound (λ c. is_alnum_ascii c || c == b'.' || c == b'_' || c == b'-')
      (IsAlnumOr (codes "._-")) 0 64 s error_rune_sound (unfold error_code_matches in h)

cli_rune_sound :
    (d : ℕ)
    → (is_alnum_ascii d || d == b'.' || d == b'+' || d == b'_' || d == b'-') ≡ true
    → IsAlnumOr (codes ".+_-") d
cli_rune_sound d h = elim (Bool-cases (is_alnum_ascii d)) [
  | inl e ↦ inr (inr (inr (inr (is_alnum_ascii_sound d e))))
  | inr e ↦ elim (Bool-cases (d == b'.')) [
    | inl f ↦ inl (ground arith)
    | inr f ↦ elim (Bool-cases (d == b'+')) [
      | inl g ↦ inr (inl (ground arith))
      | inr g ↦ elim (Bool-cases (d == b'_')) [
        | inl k ↦ inr (inr (inl (ground arith)))
        | inr k ↦ inr (inr (inr (inl (ground arith))))
      ]
    ]
  ]
]

pub cli_version_matches_sound : (s : Text) → cli_version_matches s ≡ true → IsCliVersion s
unfolding cli_version_matches
cli_version_matches_sound [] h = absurd (cc)
cli_version_matches_sound (c ∷ s) h = (
  c,
  s,
  refl,
  is_alnum_ascii_sound c (ground arith),
  class_between_sound (λ d. is_alnum_ascii d || d == b'.' || d == b'+' || d == b'_' || d == b'-')
      (IsAlnumOr (codes ".+_-")) 0 63 s cli_rune_sound (ground arith),
)

split_spaces_lem :
    (s : Text) → (w : Text) × (ws : List Text) × (split_spaces s ≡ w ∷ ws) × (s ≡ w ++ spaced ws)
unfolding split_spaces
split_spaces_lem [] = ([], [], refl, refl)
split_spaces_lem (c ∷ s) =
    let (w, ws, split, whole) = split_spaces_lem s in
    elim (Bool-cases (c == b' ')) [
      | inl e ↦
          let same : c ≡ b' ' = ground arith in
          ([], w ∷ ws, rw (e, split) refl, rw (same, whole) refl)
      | inr e ↦ (c ∷ w, ws, rw (e, split) refl, ap (λ l. c ∷ l) whole)
    ]

command_path_matches_split :
    (s w : Text) (ws : List Text)
    → split_spaces s ≡ w ∷ ws
    → command_path_matches s
      ≡ ((eqb w (codes "ti") || eqb w (codes "tdc")) && (leb (length ws) 2 && all_words ws))
command_path_matches_split s w ws e =
    unfold command_path_matches in rw (e, command_path_matches) refl

pub command_path_matches_sound : (s : Text) → command_path_matches s ≡ true → IsCommandPath s
command_path_matches_sound s h =
    let (w, ws, split, whole) = split_spaces_lem s in
    let words : ((eqb w (codes "ti") || eqb w (codes "tdc")) && (leb (length ws) 2 && all_words ws))
        ≡ true =
      sym (command_path_matches_split s w ws split) ∙ h in
    (
      ws,
      elim (Bool-cases (eqb w (codes "ti"))) [
        | inl e ↦ inl (whole ∙ ap (λ l. l ++ spaced ws) (eqb_sound w (codes "ti") e))
        | inr e ↦ inr (whole ∙ ap (λ l. l ++ spaced ws) (eqb_sound w (codes "tdc") (ground arith)))
      ],
      ground arith,
      all_words_sound ws (ground arith),
    )
