-- ===== src/Db/Paging/Tokens.antt =====
-- Which tokens are accepted.
use ti_cli.Common.{
  ℕ, ◌≤◌, Bool, true, false, not, ◌&&◌, ◌||◌, Option, some, List, [], ltb, length, ◌≡◌, arith, inl,
  zero, suc, ◌≢◌, ◌⊎◌, refl, ap, inr, Bool-cases, Option-cases,
}
use ti_cli.Common.Int.{ℤ, pos, negsuc, is_positive, eqb_ℤ}
use ti_cli.Common.Text.{Text, eqb, eqb_iff, eqb_sound, trim_space, byte_len}
use ti_cli.Common.Result.{ok}
use ti_cli.Db.Paging.{
  ListCursor, same_context, checked_cursor, decode_list_cursor, encode_list_cursor,
  maximum_page_token_length,
}

-- The version and the upstream page size are the known ones, and there is a fingerprint exactly if
-- some entries of the page were returned before.
abbrev pub is_in_place : ListCursor → Bool
is_in_place c =
    eqb_ℤ c.version (pos 1)
    && eqb_ℤ c.upstream_page_size (pos 100)
    && ((eqb_ℤ c.matched_offset (pos 0) && eqb c.page_fingerprint [])
        || (is_positive c.matched_offset && not (eqb c.page_fingerprint [])))

abbrev pub InPlace : ListCursor → Type 0
InPlace c =
    (c.version ≡ pos 1)
    × (c.upstream_page_size ≡ pos 100)
    × (((c.matched_offset ≡ pos 0) × (c.page_fingerprint ≡ []))
        ⊎ ((n : ℕ) × (c.matched_offset ≡ pos (suc n)) × (c.page_fingerprint ≢ [])))

abbrev pub SameContext : ListCursor → ListCursor → Type 0
SameContext c e =
    (c.profile_name ≡ e.profile_name)
    × (c.cluster_type ≡ e.cluster_type)
    × (c.region_code ≡ e.region_code)
    × (c.filter ≡ e.filter)
    × (c.order_by ≡ e.order_by)

same_context_sound : (c e : ListCursor) → same_context c e ≡ true → SameContext c e
unfolding same_context
same_context_sound c e h = (
  eqb_sound c.profile_name e.profile_name (ground arith),
  eqb_sound c.cluster_type e.cluster_type (ground arith),
  eqb_sound c.region_code e.region_code (ground arith),
  eqb_sound c.filter e.filter (ground arith),
  eqb_sound c.order_by e.order_by (ground arith),
)

eqb_ℤ_sound : (a b : ℤ) → eqb_ℤ a b ≡ true → a ≡ b
eqb_ℤ_sound (pos m) (pos n) h = ap pos (ground arith)
eqb_ℤ_sound (pos m) (negsuc n) h = cc
eqb_ℤ_sound (negsuc m) (pos n) h = cc
eqb_ℤ_sound (negsuc m) (negsuc n) h = ap negsuc (ground arith)

is_positive_sound : (a : ℤ) → is_positive a ≡ true → (n : ℕ) × (a ≡ pos (suc n))
is_positive_sound (pos zero) h = absurd (ground arith)
is_positive_sound (pos (suc n)) h = (n, refl)
is_positive_sound (negsuc n) h = absurd (ground arith)

is_in_place_sound : (c : ListCursor) → is_in_place c ≡ true → InPlace c
is_in_place_sound c h =
    let blank = eqb_iff c.page_fingerprint [] in
    (
      eqb_ℤ_sound c.version (pos 1) (ground arith),
      eqb_ℤ_sound c.upstream_page_size (pos 100) (ground arith),
      elim (Bool-cases (eqb_ℤ c.matched_offset (pos 0) && eqb c.page_fingerprint [])) [
        | inl e ↦ inl (eqb_ℤ_sound c.matched_offset (pos 0) (ground arith), blank.0 (ground arith))
        | inr e ↦
            let (n, at) = is_positive_sound c.matched_offset (ground arith) in
            inr (n, at, λ empty. absurd (let hit = blank.1 empty in ground arith))
      ],
    )

checked_cursor_sound :
    (c e x : ListCursor)
    → checked_cursor c e ≡ ok x
    → (x ≡ c) × (is_in_place c ≡ true) × (same_context c e ≡ true)
unfolding checked_cursor
checked_cursor_sound c e x h = (ground arith, ground arith, ground arith)

checked_cursor_complete :
    (c e : ListCursor) → is_in_place c ≡ true → same_context c e ≡ true → checked_cursor c e ≡ ok c
unfolding checked_cursor
checked_cursor_complete c e h k = ground arith

module _ (from_base64 : Text → Option (List ℕ)) (from_json : List ℕ → Option ListCursor) where
  -- A token that is accepted, and is not blank, stands for a cursor of version 1 and upstream pages of
  -- 100, at an offset of 0 without a fingerprint or at a later one with a fingerprint, and was made for
  -- the same profile, cluster type, region, filter and order.
  pub accepted_token :
      (raw : Text) (expected c : ListCursor)
      → eqb (trim_space raw) [] ≡ false
      → decode_list_cursor from_base64 from_json raw expected ≡ ok c
      → InPlace c × SameContext c expected
  unfolding decode_list_cursor
  accepted_token raw expected c full h =
      elim (Bool-cases (ltb maximum_page_token_length (byte_len raw))) [
        | inl long ↦ absurd (ground arith)
        | inr fits ↦ elim (Option-cases (from_base64 raw)) [
          | inl e ↦ absurd (ground arith)
          | inr (bytes, e) ↦ elim (Option-cases (from_json bytes)) [
            | inl f ↦ absurd (ground arith)
            | inr (x, f) ↦
                let done : checked_cursor x expected ≡ ok c = ground arith in
                let (same, place, context) = checked_cursor_sound x expected c done in
                rw same (is_in_place_sound x place, same_context_sound x expected context)
          ]
        ]
      ]

  -- A token of a cursor in a place that exists is read back, for the same profile, cluster type,
  -- region, filter and order, if it and its content are within 16 KiB, it is not blank, and Base64
  -- and JSON read back what they wrote.
  pub decode_list_cursor-encode_list_cursor :
      (to_base64 : List ℕ → Text) (to_json : ListCursor → List ℕ) (c expected : ListCursor)
      → from_base64 (to_base64 (to_json c)) ≡ some (to_json c)
      → from_json (to_json c) ≡ some c
      → eqb (trim_space (to_base64 (to_json c))) [] ≡ false
      → byte_len (to_base64 (to_json c)) ≤ maximum_page_token_length
      → length (to_json c) ≤ maximum_page_token_length
      → is_in_place c ≡ true
      → same_context c expected ≡ true
      → decode_list_cursor from_base64 from_json (encode_list_cursor to_base64 to_json c) expected
        ≡ ok c
  unfolding decode_list_cursor encode_list_cursor
  decode_list_cursor-encode_list_cursor to_base64 to_json c expected b j full short small place
        context =
      let fits : ltb maximum_page_token_length (byte_len (to_base64 (to_json c))) ≡ false =
        ground arith in
      let few : ltb maximum_page_token_length (length (to_json c)) ≡ false = ground arith in
      rw (full, fits, b, few, j) (checked_cursor_complete c expected place context)
