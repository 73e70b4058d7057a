-- ===== src/Fuse/Tests/Caches.antt =====
-- Small caches.
use ti_cli.Common.{◌≤◌, true, none, some, List, [], ◌∷◌, ◌≡◌, refl, arith}
use ti_cli.Common.Int.{pos}
use ti_cli.Common.Text.{codes, eqb, has_prefix}
use ti_cli.Fuse.Version.{Version, matches, known}
use ti_cli.Fuse.Cache.{
  Cache, new_cache, positive_or, put, store, shrink, evict_path, evict, back, update, remove, get,
  invalidate_prefix, under, evict_under, tree_prefix,
}
use ti_cli.Fuse.Cache.Invariant.{Inv, new_cache-Inv, put-Inv}
use ti_cli.Fuse.Cache.Lookup.{get-put}
use ti_cli.Fuse.Cache.History.{
  Op, puts, gets, invalidates_tree, run, step, log_run, run_size, get-run,
}

-- Three bytes in all, three in a file, for 10 ns.
abbrev empty : Cache
empty = new_cache (pos 3) (pos 3) (pos 10)

abbrev first : Version
first = record { revision = pos 1; resource_id = codes "r" }

abbrev one : Cache
one = put empty 0 (codes "/d/a") (1 ∷ 2 ∷ []) first

empty-Inv : Inv empty
empty-Inv = new_cache-Inv (pos 3) (pos 3) (pos 10)

one-Inv : Inv one
one-Inv = put-Inv empty 0 (codes "/d/a") (1 ∷ 2 ∷ []) first empty-Inv

get-put_example :
    (get (put one 4 (codes "/e") (5 ∷ 6 ∷ []) first) 7 (codes "/e") first).1 ≡ some (5 ∷ 6 ∷ [])
unfolding new_cache put store shrink matches known eqb update
get-put_example =
    get-put one 4 7 (codes "/e") (5 ∷ 6 ∷ []) first first one-Inv (omega arith) (omega arith) refl
      refl

abbrev history : List Op
history =
    puts 0 (codes "/d/a") (1 ∷ 2 ∷ []) first
    ∷ puts 4 (codes "/e") (5 ∷ 6 ∷ []) first
    ∷ gets 5 (codes "/e") first
    ∷ invalidates_tree (codes "/d")
    ∷ []

run_size_example : (run empty history).size ≤ (run empty history).max_size
unfolding new_cache
run_size_example = run_size empty history empty-Inv (omega arith)

get-run_example :
    (version : Version) × (log_run empty.max_file (λ _. none) history (codes "/e")
      ≡ some (5 ∷ 6 ∷ [], version))
    × (matches version first ≡ true)
unfolding new_cache positive_or run step put store shrink evict_path evict back update remove get
    invalidate_prefix evict_under under tree_prefix has_prefix eqb matches known
get-run_example = get-run (pos 3) (pos 3) (pos 10) history 9 (codes "/e") first (5 ∷ 6 ∷ []) refl
