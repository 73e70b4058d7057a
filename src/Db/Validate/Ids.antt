-- ===== src/Db/Validate/Ids.antt =====
-- What the checks of ids take off and let through.
use ti_cli.Common.{
  ℕ, true, false, ◌||◌, none, some, [], ◌∷◌, ◌++◌, length, drop, drop-append, append_assoc, ◌≡◌,
  ◌≢◌, ◌⊎◌, refl, sym, ap, subst, ◌∙◌, arith, Bool-cases, inl, inr,
}
use ti_cli.Common.Text.{
  Text, codes, eqb, eqb_iff, trim_space, is_space, has_prefix, trim_prefix, contains,
  has_prefix-append, has_prefix_sound,
}
use ti_cli.Common.Trim.{trim_space_tight, trim_space-ink}
use ti_cli.Common.Result.{ok}
use ti_cli.Db.Validate.{
  ValidateError, required, plain_id, cluster_id, branch_id, export_id, after_last, after_or,
  invalid_cluster_id, invalid_branch_id, invalid_export_id,
}

contains-append : (d : ℕ) (s t : Text) → contains d (s ++ t) ≡ (contains d s || contains d t)
unfolding contains
contains-append d [] t = refl
contains-append d (c ∷ s) t = ground (arith, contains-append d s t)

-- A text without a character has no prefix with it.
has_prefix-contains :
    (d : ℕ) (p s : Text) → contains d p ≡ true → contains d s ≡ false → has_prefix p s ≡ false
unfolding contains has_prefix
has_prefix-contains d [] s h k = absurd (cc)
has_prefix-contains d (c ∷ p) [] h k = refl
has_prefix-contains d (c ∷ p) (e ∷ s) h k = ground (arith, has_prefix-contains d p s)

after_last-slash : (w s : Text) → contains b'/' s ≡ false → after_last (b'/' ∷ w) s ≡ none
unfolding after_last contains has_prefix
after_last-slash w [] h = refl
after_last-slash w (c ∷ s) h = ground (arith, after_last-slash w s)

after_last-append :
    (sep pre s t : Text) → after_last sep s ≡ some t → after_last sep (pre ++ s) ≡ some t
unfolding after_last
after_last-append sep [] s t h = h
after_last-append sep (c ∷ pre) s t h = ground (arith, after_last-append sep pre s t h)

-- Between two slashes there is no separator that starts and ends with one.
after_last-word :
    (u w id : Text)
    → contains b'/' u ≡ false
    → contains b'/' id ≡ false
    → after_last (b'/' ∷ (w ++ b'/' ∷ [])) (u ++ b'/' ∷ id) ≡ none
unfolding after_last contains
after_last-word [] w id h k =
    let none_in = after_last-slash (w ++ b'/' ∷ []) id k in
    let slash : contains b'/' (w ++ b'/' ∷ []) ≡ true =
      ground (arith, contains-append b'/' w (b'/' ∷ [])) in
    let miss = has_prefix-contains b'/' (w ++ b'/' ∷ []) id slash k in
    rw none_in (unfold has_prefix in rw miss refl)
after_last-word (c ∷ u) w id h k =
    let below = after_last-word u w id (ground arith) k in
    let miss : has_prefix (b'/' ∷ (w ++ b'/' ∷ [])) (c ∷ (u ++ b'/' ∷ id)) ≡ false =
      unfold has_prefix in ground arith in
    rw (below, miss) refl

after_last_found :
    (w id : Text)
    → contains b'/' w ≡ false
    → contains b'/' id ≡ false
    → after_last (b'/' ∷ (w ++ b'/' ∷ [])) (b'/' ∷ (w ++ b'/' ∷ id)) ≡ some id
unfolding after_last
after_last_found w id h k =
    let sep = b'/' ∷ (w ++ b'/' ∷ []) in
    let split : sep ++ id ≡ b'/' ∷ (w ++ b'/' ∷ id) =
      ap (λ t. b'/' ∷ t) (append_assoc w (b'/' ∷ []) id) in
    let hit = subst (λ t. has_prefix sep t ≡ true) split (has_prefix-append sep id) in
    let rest = subst (λ t. drop (length sep) t ≡ id) split (drop-append sep id) in
    rw (after_last-word w w id h k, hit, after_last) (ap some rest)

-- An id that the last check lets through is not empty and has no slash.
plain_id_sound :
    (e : ValidateError) (s t : Text)
    → plain_id e s ≡ ok t
    → (s ≡ t) × (t ≢ []) × (contains b'/' t ≡ false)
unfolding plain_id
plain_id_sound e s t h = ground (arith, eqb_iff s [])

plain_id_keeps :
    (e : ValidateError) (s : Text) (d : ℕ)
    → contains b'/' (s ++ d ∷ []) ≡ false
    → plain_id e (s ++ d ∷ []) ≡ ok (s ++ d ∷ [])
unfolding plain_id eqb
plain_id_keeps e [] d h = rw h refl
plain_id_keeps e (c ∷ s) d h = rw h refl

-- A text without a slash is no prefixed id.
trim_prefix_plain :
    (p s : Text) → contains b'/' p ≡ true → contains b'/' s ≡ false → trim_prefix p s ≡ s
unfolding trim_prefix
trim_prefix_plain p s h k = rw (has_prefix-contains b'/' p s h k) refl

-- An accepted cluster id is not empty and has no slash, and the flag's value without the spaces
-- around it is the id, bare or after `clusters/`.
pub cluster_id_sound :
    (s t : Text)
    → cluster_id s ≡ ok t
    → (t ≢ [])
      × (contains b'/' t ≡ false)
      × ((trim_space s ≡ t) ⊎ (trim_space s ≡ codes "clusters/" ++ t))
unfolding cluster_id required
cluster_id_sound s t h =
    let left = trim_prefix (codes "clusters/") (trim_space s) in
    let (same, nonempty, plain) = plain_id_sound invalid_cluster_id left t (ground arith) in
    (nonempty, plain, ways same)
  where
    ways :
        trim_prefix (codes "clusters/") (trim_space s) ≡ t
        → (trim_space s ≡ t) ⊎ (trim_space s ≡ codes "clusters/" ++ t)
    ways same = elim (Bool-cases (has_prefix (codes "clusters/") (trim_space s))) [
      | inr e ↦
          let bare : trim_prefix (codes "clusters/") (trim_space s) ≡ trim_space s =
            unfold trim_prefix in rw e refl in
          inl (sym bare ∙ same)
      | inl e ↦
          let cut : trim_prefix (codes "clusters/") (trim_space s) ≡ drop 9 (trim_space s) =
            unfold trim_prefix in rw e refl in
          let whole = has_prefix_sound (codes "clusters/") (trim_space s) e in
          inr (sym whole ∙ ap (λ u. codes "clusters/" ++ u) (sym cut ∙ same))
    ]

after_or_found :
    (w pre id : Text)
    → contains b'/' w ≡ false
    → contains b'/' id ≡ false
    → after_or (b'/' ∷ (w ++ b'/' ∷ [])) (pre ++ b'/' ∷ (w ++ b'/' ∷ id)) ≡ id
after_or_found w pre id h k =
    let sep = b'/' ∷ (w ++ b'/' ∷ []) in
    let found =
      after_last-append sep pre (b'/' ∷ (w ++ b'/' ∷ id)) id (after_last_found w id h k) in
    rw (found, after_or) refl

id_taken :
    (e : ValidateError) (w pre id : Text) (d : ℕ)
    → contains b'/' w ≡ false
    → contains b'/' (id ++ d ∷ []) ≡ false
    → plain_id e (
        trim_prefix
          (w ++ b'/' ∷ [])
          (after_or (b'/' ∷ (w ++ b'/' ∷ [])) (pre ++ b'/' ∷ (w ++ b'/' ∷ (id ++ d ∷ [])))))
      ≡ ok (id ++ d ∷ [])
id_taken e w pre id d h k =
    let slash : contains b'/' (w ++ b'/' ∷ []) ≡ true =
      unfold contains in ground (arith, contains-append b'/' w (b'/' ∷ [])) in
    ap (λ t. plain_id e (trim_prefix (w ++ b'/' ∷ []) t)) (after_or_found w pre (id ++ d ∷ []) h k)
    ∙ ap (plain_id e) (trim_prefix_plain (w ++ b'/' ∷ []) (id ++ d ∷ []) slash k)
    ∙ plain_id_keeps e id d k

nested_tight :
    (s t : Text) (d : ℕ)
    → is_space d ≡ false
    → trim_space (b'c' ∷ (s ++ (t ++ d ∷ []))) ≡ b'c' ∷ (s ++ (t ++ d ∷ []))
nested_tight s t d k =
    subst (λ u. trim_space (b'c' ∷ u) ≡ b'c' ∷ u) (append_assoc s t (d ∷ []))
      (trim_space_tight b'c' d (s ++ t) (unfold is_space in refl) k)

-- An id that ends in no space and has no slash is taken out of the full name of its branch.
pub branch_id_nested :
    (cluster id : Text) (d : ℕ)
    → is_space d ≡ false
    → contains b'/' (id ++ d ∷ []) ≡ false
    → branch_id (codes "clusters/" ++ (cluster ++ (codes "/branches/" ++ (id ++ d ∷ []))))
      ≡ ok (id ++ d ∷ [])
unfolding branch_id required contains plain_id
branch_id_nested cluster id d k h =
    let rest = codes "lusters/" ++ (cluster ++ (codes "/branches/" ++ (id ++ d ∷ []))) in
    rw
      (
        trim_space-ink b'c' rest (unfold is_space in refl),
        nested_tight (codes "lusters/" ++ cluster) (codes "/branches/" ++ id) d k,
      )
      (id_taken invalid_branch_id (codes "branches") (codes "clusters/" ++ cluster) id d refl h)

-- The same for the full name of an export.
pub export_id_nested :
    (cluster id : Text) (d : ℕ)
    → is_space d ≡ false
    → contains b'/' (id ++ d ∷ []) ≡ false
    → export_id (codes "clusters/" ++ (cluster ++ (codes "/exports/" ++ (id ++ d ∷ []))))
      ≡ ok (id ++ d ∷ [])
unfolding export_id required contains plain_id
export_id_nested cluster id d k h =
    let rest = codes "lusters/" ++ (cluster ++ (codes "/exports/" ++ (id ++ d ∷ []))) in
    rw
      (
        trim_space-ink b'c' rest (unfold is_space in refl),
        nested_tight (codes "lusters/" ++ cluster) (codes "/exports/" ++ id) d k,
      )
      (id_taken invalid_export_id (codes "exports") (codes "clusters/" ++ cluster) id d refl h)
