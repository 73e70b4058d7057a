-- ===== src/Telemetry/Event/Extra.antt =====
-- The walks over decoded JSON (internal/telemetrybackend/event.go).
use ti_cli.Common.{ℕ, ◌+◌, max, Bool, false, ◌||◌, ltb, ◌≡◌, arith}
use ti_cli.Common.Text.{Text, to_lower}
use ti_cli.Telemetry.Event.{
  Json, scalar, array, object, Items, no_items, item, Members, no_members, member,
}
use ti_cli.Telemetry.Event.Patterns.{one_of, disallowed_field_names}

abbrev pub max_extra_depth : ℕ
max_extra_depth = 8

unfoldable pub is_prohibited : Text → Bool
unfolding one_of to_lower
is_prohibited name = one_of (to_lower name) disallowed_field_names

unfoldable mutual
  pub walk_for_disallowed_field : Json → Bool
  walk_for_disallowed_field scalar = false
  walk_for_disallowed_field (array xs) = disallowed_in_items xs
  walk_for_disallowed_field (object ms) = disallowed_in_members ms

  pub disallowed_in_items : Items → Bool
  disallowed_in_items no_items = false
  disallowed_in_items (item x xs) = walk_for_disallowed_field x || disallowed_in_items xs

  pub disallowed_in_members : Members → Bool
  disallowed_in_members no_members = false
  disallowed_in_members (member name x ms) =
      is_prohibited name || walk_for_disallowed_field x || disallowed_in_members ms

unfoldable mutual
  pub walk_for_invalid_extra : Json → ℕ → Bool
  walk_for_invalid_extra scalar depth = ltb max_extra_depth depth
  walk_for_invalid_extra (array xs) depth = ltb max_extra_depth depth || invalid_in_items xs depth
  walk_for_invalid_extra (object ms) depth =
      ltb max_extra_depth depth || invalid_in_members ms depth

  pub invalid_in_items : Items → ℕ → Bool
  invalid_in_items no_items depth = false
  invalid_in_items (item x xs) depth =
      walk_for_invalid_extra x (depth + 1) || invalid_in_items xs depth

  pub invalid_in_members : Members → ℕ → Bool
  invalid_in_members no_members depth = false
  invalid_in_members (member name x ms) depth =
      is_prohibited name || walk_for_invalid_extra x (depth + 1) || invalid_in_members ms depth

-- How deep values are nested: 0 for a scalar or an empty array or object.
unfoldable mutual
  pub depth_of : Json → ℕ
  depth_of scalar = 0
  depth_of (array xs) = depth_of_items xs
  depth_of (object ms) = depth_of_members ms

  pub depth_of_items : Items → ℕ
  depth_of_items no_items = 0
  depth_of_items (item x xs) = max (depth_of x + 1) (depth_of_items xs)

  pub depth_of_members : Members → ℕ
  depth_of_members no_members = 0
  depth_of_members (member name x ms) = max (depth_of x + 1) (depth_of_members ms)

mutual
  unfolding walk_for_disallowed_field walk_for_invalid_extra depth_of

  walk_lem :
      (x : Json) (depth : ℕ)
      → walk_for_invalid_extra x depth
        ≡ (ltb max_extra_depth (depth + depth_of x) || walk_for_disallowed_field x)
  walk_lem scalar depth = ground arith
  walk_lem (array xs) depth = items_lem xs depth
  walk_lem (object ms) depth = members_lem ms depth

  items_lem :
      (xs : Items) (depth : ℕ)
      → (ltb max_extra_depth depth || invalid_in_items xs depth)
        ≡ (ltb max_extra_depth (depth + depth_of_items xs) || disallowed_in_items xs)
  items_lem no_items depth = ground arith
  items_lem (item x xs) depth = ground (arith, walk_lem x (depth + 1), items_lem xs depth)

  members_lem :
      (ms : Members) (depth : ℕ)
      → (ltb max_extra_depth depth || invalid_in_members ms depth)
        ≡ (ltb max_extra_depth (depth + depth_of_members ms) || disallowed_in_members ms)
  members_lem no_members depth = ground arith
  members_lem (member name x ms) depth =
      ground (arith, walk_lem x (depth + 1), members_lem ms depth)

-- A value at some depth is refused exactly if it has a prohibited name, or if the depth and its own
-- nesting together exceed the limit.
pub walk_for_invalid_extra_lem :
    (x : Json) (depth : ℕ)
    → walk_for_invalid_extra x depth
      ≡ (ltb max_extra_depth (depth + depth_of x) || walk_for_disallowed_field x)
walk_for_invalid_extra_lem = walk_lem
