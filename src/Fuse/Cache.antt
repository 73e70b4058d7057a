-- ===== src/Fuse/Cache.antt =====
-- The read cache of the mount (internal/fs/fuse_cache.go): least recently used entries are evicted.
-- `items` is the map, `order` the list with the most recent path in front; an entry never changes
-- its path, so the path stands for the pointers between the two. Time and sizes are numbers.
pub mod Invariant
pub mod Lookup
pub mod Limits
pub mod Recency
pub mod History
use ti_cli.Common.{
  ℕ, zero, suc, ◌+◌, ◌-◌, ◌*◌, ◌^◌, Bool, true, false, not, ◌&&◌, ◌||◌, Option, none, some, List,
  [], ◌∷◌, ◌++◌, ltb, leb, ◌==◌, if◌then◌else◌, length,
}
use ti_cli.Common.Int.{ℤ, pos, ltb_ℤ, ◌+ℤ◌, is_positive, eqb_ℤ, pos_part}
use ti_cli.Common.Text.{Text, eqb, has_prefix, codes}
use ti_cli.Fuse.Version.{Version, matches}

pub record Entry : Type 0 where
  pub path : Text
  pub bytes : List ℕ
  pub version : Version
  pub expires : ℤ

pub record Cache : Type 0 where
  pub items : Text → Option Entry
  pub order : List Text
  pub size : ℕ
  pub max_size : ℕ
  pub max_file : ℕ
  pub ttl : ℤ

-- A size in the source is `int64`; a limit that is not positive takes its default.
unfoldable pub positive_or : ℤ → ℕ → ℕ
positive_or a default = if is_positive a then pos_part a else default

-- The defaults are those of internal/fs/mount.go: 128 MiB, 4 MiB and 30 s in nanoseconds.
unfoldable pub new_cache : ℤ → ℤ → ℤ → Cache
unfolding positive_or
new_cache max_size max_file ttl = record {
  items = λ _. none;
  order = [];
  size = 0;
  max_size = positive_or max_size (128 * 2 ^ 20);
  max_file = positive_or max_file (4 * 2 ^ 20);
  ttl = if eqb_ℤ ttl (pos 0) then pos (30 * 10 ^ 9) else ttl;
}

unfoldable pub update : (Text → Option Entry) → Text → Option Entry → Text → Option Entry
update items p v q = if eqb p q then v else items q

unfoldable pub remove : Text → List Text → List Text
remove p [] = []
remove p (q ∷ qs) = if eqb q p then qs else q ∷ remove p qs

unfoldable pub back : List Text → Option Text
back [] = none
back (p ∷ []) = some p
back (p ∷ q ∷ ps) = back (q ∷ ps)

unfoldable pub evict : Cache → Entry → Cache
unfolding update remove
evict c e = record c {
  items = update c.items e.path none;
  order = remove e.path c.order;
  size = c.size - length e.bytes;
}

-- `evict` of the entry that the map or the list holds for a path.
unfoldable pub evict_path : Cache → Text → Cache
unfolding evict
evict_path c p = elim (c.items p) [ none ↦ c | some e ↦ evict c e ]

unfoldable pub get : Cache → ℕ → Text → Version → Cache × Option (List ℕ)
unfolding evict remove
get c now p required = elim (c.items p) [
  | none ↦ (c, none)
  | some e ↦
      if not (matches e.version required)
      then (c, none)
      else if is_positive c.ttl && ltb_ℤ e.expires (pos now)
      then (evict c e, none)
      else (record c { order = p ∷ remove p c.order }, some e.bytes)
]

-- The loop that makes room. Each round drops one element of the list, so its length is enough fuel.
unfoldable pub shrink : ℕ → Cache → Cache
unfolding evict_path back
shrink zero c = c
shrink (suc n) c = elim (ltb c.max_size c.size) [
  | false ↦ c
  | true ↦ elim (back c.order) [ none ↦ c | some p ↦ shrink n (evict_path c p) ]
]

-- Before the loop: a known entry is overwritten and moved to the front, a new one is put there.
unfoldable pub store : Cache → ℕ → Text → List ℕ → Version → Cache
unfolding update remove
store c now p bytes version =
    let e : Entry = record {
      path = p;
      bytes = bytes;
      version = version;
      expires = pos now +ℤ c.ttl;
    } in
    elim (c.items p) [
      | some old ↦ record c {
        items = update c.items p (some e);
        order = p ∷ remove p c.order;
        size = c.size - length old.bytes + length bytes;
      }
      | none ↦ record c {
        items = update c.items p (some e);
        order = p ∷ c.order;
        size = c.size + length bytes;
      }
    ]

unfoldable pub put : Cache → ℕ → Text → List ℕ → Version → Cache
unfolding store shrink
put c now p bytes version =
    if ltb c.max_file (length bytes)
    then c
    else shrink (length (store c now p bytes version).order) (store c now p bytes version)

unfoldable pub invalidate : Cache → Text → Cache
unfolding evict_path
invalidate = evict_path

-- internal/fs/webdavfs.go.
unfoldable pub tree_prefix : Text → Text
tree_prefix [] = codes "/"
tree_prefix (c ∷ []) = if c == b'/' then c ∷ [] else c ∷ codes "/"
tree_prefix (c ∷ d ∷ s) = c ∷ tree_prefix (d ∷ s)

unfoldable pub under : Text → Text → Bool
unfolding tree_prefix
under prefix p = eqb p prefix || has_prefix (tree_prefix prefix) p

unfoldable pub evict_under : Text → List Text → Cache → Cache
evict_under prefix [] c = c
evict_under prefix (p ∷ ps) c = evict_under prefix ps (if under prefix p then evict_path c p else c)

-- The source ranges over the map, in no order; here it is the order of the list.
unfoldable pub invalidate_prefix : Cache → Text → Cache
unfolding evict_under
invalidate_prefix c prefix = evict_under prefix c.order c
