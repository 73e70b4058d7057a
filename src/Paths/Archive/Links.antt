-- ===== src/Paths/Archive/Links.antt =====
-- The targets of the links of a pack, as names, stay inside the overlay. That a chain of links may
-- lead elsewhere is what the audit of the links on the disk is for, which is not modelled.
use ti_cli.Common.{List, ◌≡◌, All}
use ti_cli.Common.Text.{Text}
use ti_cli.Paths.Clean.Laws.{Plain, absolute}

-- An absolute path, in parts.
abbrev InParts : Text → Type 0
InParts s = (qs : List Text) × All Plain qs × (s ≡ absolute qs)
