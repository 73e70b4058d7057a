-- ===== src/Update/Install/Whole.antt =====
-- What a replacement leaves under the path of the binary.
use ti_cli.Common.{
  ℕ, ◌+◌, Bool, true, false, Option, none, some, List, [], ◌∷◌, ◌++◌, ◌≡◌, refl, ap, ◌∙◌, arith,
  inl, inr, Bool-cases, Option-cases,
}
use ti_cli.Common.Text.{Text, codes, eqb, eqb_refl}
use ti_cli.Update.Install.{
  Disk, ReplaceError, remove_file, rename_file, backup_of, put_back, install, install_first,
  replace_binary, replace_file, move_aside, replace_old,
}

eqb-longer : (s t : Text) (c : ℕ) → eqb s (s ++ c ∷ t) ≡ false
unfolding eqb
eqb-longer [] t c = refl
eqb-longer (d ∷ s) t c = ground (arith, eqb-longer s t c)

longer-eqb : (s t : Text) (c : ℕ) → eqb (s ++ c ∷ t) s ≡ false
unfolding eqb
longer-eqb [] t c = refl
longer-eqb (d ∷ s) t c = ground (arith, longer-eqb s t c)

backup_apart : (t : Text) → (eqb t (backup_of t) ≡ false) × (eqb (backup_of t) t ≡ false)
unfolding backup_of
backup_apart t = (eqb-longer t (codes "ti-backup") b'.', longer-eqb t (codes "ti-backup") b'.')

-- A removal leaves the other files, and counts.
record Removes (d d' : Disk) (p : Text) : Type 0 where
  others : (q : Text) → eqb p q ≡ false → d'.files q ≡ d.files q
  ops : d'.ops ≡ d.ops + 1
  fails : d'.fails ≡ d.fails

remove_file-Removes : (d : Disk) (p : Text) → Removes d (remove_file d p).0 p
unfolding remove_file
remove_file-Removes d p = record {
  others = λ q h. ground arith;
  ops = ground arith;
  fails = ground arith;
}

-- A rename that succeeds moves one file; one that fails none.
record Moves (d d' : Disk) (source target : Text) : Type 0 where
  there : d'.files target ≡ d.files source
  others : (q : Text) → eqb source q ≡ false → eqb target q ≡ false → d'.files q ≡ d.files q
  ops : d'.ops ≡ d.ops + 1
  fails : d'.fails ≡ d.fails

rename_file-Moves :
    (d d' : Disk) (source target : Text)
    → rename_file d source target ≡ (d', true)
    → Moves d d' source target
unfolding rename_file
rename_file-Moves d d' source target h = record {
  there = ground (arith, eqb_refl target);
  others = λ q f g. ground arith;
  ops = ground arith;
  fails = ground arith;
}

rename_file_fails :
    (d d' : Disk) (source target q : Text)
    → rename_file d source target ≡ (d', false)
    → (d'.files q ≡ d.files q) × (d'.ops ≡ d.ops + 1) × (d'.fails ≡ d.fails)
unfolding rename_file
rename_file_fails d d' source target q h = (ground arith, ground arith, ground arith)

rename_file_works :
    (d : Disk) (source target : Text) (bytes : List ℕ)
    → d.fails d.ops ≡ false
    → d.files source ≡ some bytes
    → (rename_file d source target).0.files target ≡ some bytes
unfolding rename_file
rename_file_works d source target bytes f h = rw (f, h, eqb_refl target) refl

rename_file_missing :
    (d : Disk) (source target : Text)
    → d.files source ≡ none
    → (rename_file d source target).1 ≡ false
unfolding rename_file
rename_file_missing d source target h = ground arith

-- A later operation that does not fail is one nearer after an operation.
later :
    (d d' : Disk) (k : ℕ)
    → d'.ops ≡ d.ops + 1
    → d'.fails ≡ d.fails
    → d.fails (d.ops + (k + 1)) ≡ false
    → d'.fails (d'.ops + k) ≡ false
later d d' k ops fails f =
    ap (λ g. g (d'.ops + k)) fails
    ∙ ap d.fails (let same : d'.ops + k ≡ d.ops + (k + 1) = omega (arith, ops) in same)
    ∙ f

put_back_lem :
    (d : Disk) (target : Text) (old : List ℕ)
    → d.files (backup_of target) ≡ some old
    → d.fails (d.ops + 1) ≡ false
    → (put_back d target).files target ≡ some old
unfolding put_back
put_back_lem d target old h f =
    let r = remove_file-Removes d target in
    rename_file_works (remove_file d target).0 (backup_of target) target old
      (ap (λ n. (remove_file d target).0.fails n) r.ops ∙ ap (λ g. g (d.ops + 1)) r.fails ∙ f)
      (r.others (backup_of target) (backup_apart target).0 ∙ h)

-- The new bytes if there was no error, or else the old ones.
abbrev pub outcome : Option ReplaceError → Option (List ℕ) → Option (List ℕ) → Option (List ℕ)
outcome none new old = new
outcome (some e) new old = old

-- The outcome of the part after the old file was moved aside.
install_lem :
    (valid : Disk → Text → Bool) (d : Disk) (new target : Text) (old : List ℕ)
    → d.files (backup_of target) ≡ some old
    → eqb new (backup_of target) ≡ false
    → d.fails (d.ops + 2) ≡ false
    → (install valid d new target).0.files target
      ≡ outcome (install valid d new target).1 (d.files new) (some old)
unfolding install
install_lem valid d new target old h apart f =
    let d' = (rename_file d new target).0 in
    elim (Bool-cases (rename_file d new target).1) [
      | inr e ↦
          let (kept, ops, fails) =
            rename_file_fails d d' new target (backup_of target) (λ i. (d', e i)) in
          rw e (put_back_lem d' target old (kept ∙ h) (later d d' 1 ops fails f))
      | inl e ↦
          let moves = rename_file-Moves d d' new target (λ i. (d', e i)) in
          elim (Bool-cases (valid d' target)) [
            | inl v ↦
                rw (e, v)
                  ((remove_file-Removes d' (backup_of target)).others target (backup_apart target).1
                    ∙ moves.there)
            | inr v ↦
                rw (e, v)
                  (put_back_lem d' target old
                    (moves.others (backup_of target) apart (backup_apart target).0 ∙ h)
                    (later d d' 1 moves.ops moves.fails f))
          ]
    ]

-- A replacement over a disk where the fifth operation, which puts the old file back, does not fail,
-- of a binary by a file under another path that is not that of the backup: the path of the binary
-- has the new bytes if there was no error, or else the old ones.
pub replace_binary_whole :
    (valid : Disk → Text → Bool) (d : Disk) (new target : Text)
    → eqb target new ≡ false
    → eqb new (backup_of target) ≡ false
    → eqb (backup_of target) new ≡ false
    → d.fails (d.ops + 4) ≡ false
    → (replace_binary valid d new target).0.files target
      ≡ outcome (replace_binary valid d new target).1 (d.files new) (d.files target)
unfolding replace_binary move_aside
replace_binary_whole valid d new target apart front behind f =
    let d' = (remove_file d (backup_of target)).0 in
    let r = remove_file-Removes d (backup_of target) in
    let there = r.others target (backup_apart target).1 in
    let d'' = (rename_file d' target (backup_of target)).0 in
    elim (Bool-cases (rename_file d' target (backup_of target)).1) [
      | inr e ↦
          rw e (
            (rename_file_fails d' d'' target (backup_of target) target (λ i. (d'', e i))).0 ∙ there)
      | inl e ↦
          let moves = rename_file-Moves d' d'' target (backup_of target) (λ i. (d'', e i)) in
          elim (Option-cases (d.files target)) [
            | inl gone ↦
                absurd (cc (rename_file_missing d' target (backup_of target) (there ∙ gone)))
            | inr (old, held) ↦
                rw (e, held)
                  (install_lem valid d'' new target old (moves.there ∙ there ∙ held) front
                      (later d' d'' 2 moves.ops moves.fails (later d d' 3 r.ops r.fails f))
                    ∙ ap (λ o. outcome (install valid d'' new target).1 o (some old))
                        (moves.others new apart behind ∙ r.others new behind))
          ]
    ]

install_first_lem :
    (d : Disk) (source target : Text)
    → (install_first d source target).0.files target
      ≡ outcome (install_first d source target).1 (d.files source) (d.files target)
unfolding install_first
install_first_lem d source target =
    let d' = (rename_file d source target).0 in
    elim (Bool-cases (rename_file d source target).1) [
      | inr e ↦ rw e (rename_file_fails d d' source target target (λ i. (d', e i))).0
      | inl e ↦ rw e (rename_file-Moves d d' source target (λ i. (d', e i))).there
    ]

-- A replacement of the companion, which need not be there before, over a disk where the fifth
-- operation does not fail, by a file under another path that is not that of the backup: the path of
-- the companion has the new bytes if there was no error, or else what it had before.
pub replace_file_whole :
    (d : Disk) (source target : Text)
    → eqb target source ≡ false
    → eqb source (backup_of target) ≡ false
    → eqb (backup_of target) source ≡ false
    → d.fails (d.ops + 4) ≡ false
    → (replace_file d source target).0.files target
      ≡ outcome (replace_file d source target).1 (d.files source) (d.files target)
unfolding replace_file
replace_file_whole d source target apart front behind f =
    let d' = (remove_file d (backup_of target)).0 in
    let r = remove_file-Removes d (backup_of target) in
    let there = r.others target (backup_apart target).1 in
    elim (Option-cases (d'.files target)) [
      | inl gone ↦ rw gone (
          unfold replace_old in
          install_first_lem d' source target
          ∙ (λ i. outcome (install_first d' source target).1 (r.others source behind i) (there i)))
      | inr (old, held) ↦ rw held (
          unfold replace_old replace_binary in
          replace_binary_whole (λ _ _. true) d source target apart front behind f)
    ]
