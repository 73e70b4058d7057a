-- ===== src/Settings/Env/Agrees.antt =====
-- When the two names of every variable agree.
use ti_cli.Common.{
  Bool, true, false, Option, none, some, List, [], ◌∷◌, ◌≡◌, ◌↔◌, refl, arith, All, inl, inr,
}
use ti_cli.Common.Text.{Text, eqb, eqb_iff}
use ti_cli.Common.Result.{ok, Result-cases}
use ti_cli.Settings.Env.{Pair, Env, public_pairs, resolved, resolve, validate_pairs, validate_env}

-- What is set under the canonical name, or else under the other.
abbrev pub first_set : Option Text → Option Text → Option (Text × Bool)
first_set (some c) l = some (c, false)
first_set none (some l) = some (l, true)
first_set none none = none

abbrev Consistent : Option Text → Option Text → Type 0
Consistent c l = (a b : Text) → c ≡ some a → l ≡ some b → a ≡ b

resolved_sound :
    (c l : Option Text) (v : Option (Text × Bool))
    → resolved c l ≡ ok v
    → Consistent c l × (resolved c l ≡ ok (first_set c l))
unfolding resolved
resolved_sound none none v h = (λ a b e f. absurd (cc), refl)
resolved_sound none (some l) v h = (λ a b e f. absurd (cc), refl)
resolved_sound (some c) none v h = (λ a b e f. absurd (cc), refl)
resolved_sound (some c) (some l) v h =
    let hit : eqb c l ≡ true = ground arith in
    let same = (eqb_iff c l).0 hit in (λ a b e f. cc, rw hit refl)

resolved_complete : (c l : Option Text) → Consistent c l → resolved c l ≡ ok (first_set c l)
unfolding resolved
resolved_complete none none h = refl
resolved_complete none (some l) h = refl
resolved_complete (some c) none h = refl
resolved_complete (some c) (some l) h =
    let same = h c l refl refl in ground (arith, (eqb_iff c l).1 same)

-- The two names of a variable, if both are set, hold one value.
abbrev pub Agrees : Env → Pair → Type 0
Agrees env p = (a b : Text) → env p.canonical ≡ some a → env p.legacy ≡ some b → a ≡ b

resolve-Agrees :
    (env : Env) (p : Pair) (v : Option (Text × Bool))
    → resolve env p ≡ ok v
    → Agrees env p × (resolve env p ≡ ok (first_set (env p.canonical) (env p.legacy)))
unfolding resolve
resolve-Agrees env p v h = resolved_sound (env p.canonical) (env p.legacy) v h

validate_pairs_sound :
    (env : Env) (ps : List Pair)
    → validate_pairs env ps ≡ none
    → All
        (λ (p : Pair).
          Agrees env p × (resolve env p ≡ ok (first_set (env p.canonical) (env p.legacy))))
        ps
unfolding validate_pairs
validate_pairs_sound env [] h = tt
validate_pairs_sound env (p ∷ ps) h = elim (Result-cases (resolve env p)) [
  | inr (e, f) ↦ absurd (ground arith)
  | inl (v, f) ↦ (resolve-Agrees env p v f, validate_pairs_sound env ps (ground arith))
]

validate_pairs_complete :
    (env : Env) (ps : List Pair) → All (Agrees env) ps → validate_pairs env ps ≡ none
unfolding validate_pairs
validate_pairs_complete env [] h = refl
validate_pairs_complete env (p ∷ ps) h =
    let done : resolve env p ≡ ok (first_set (env p.canonical) (env p.legacy)) =
      unfold resolve in resolved_complete (env p.canonical) (env p.legacy) h.0 in
    rw (done, validate_pairs) (validate_pairs_complete env ps h.1)

-- An environment is valid exactly if the two names of every public variable agree.
pub validate_env_lem : (env : Env) → (validate_env env ≡ none) ↔ All (Agrees env) public_pairs
unfolding validate_env
validate_env_lem env = (
  λ h. agrees public_pairs (validate_pairs_sound env public_pairs h),
  validate_pairs_complete env public_pairs,
)
  where
    agrees :
        (ps : List Pair)
        → All
            (λ (p : Pair).
              Agrees env p × (resolve env p ≡ ok (first_set (env p.canonical) (env p.legacy))))
            ps
        → All (Agrees env) ps
    agrees [] h = tt
    agrees (p ∷ ps) h = (h.0.0, agrees ps h.1)
