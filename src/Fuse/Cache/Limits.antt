-- ===== src/Fuse/Cache/Limits.antt =====
-- The size of the cache after an invalidation, and the limit of a file.
use ti_cli.Common.{
  ℕ, zero, suc, ◌≤◌, List, [], ◌∷◌, ◌≡◌, refl, ◌∙◌, inl, inr, arith, ltb, Bool-cases, Option-cases,
  length,
}
use ti_cli.Common.Text.{Text}
use ti_cli.Fuse.Version.{Version}
use ti_cli.Fuse.Cache.{
  Cache, back, evict, evict_path, shrink, store, put, evict_under, invalidate_prefix, under,
}

evict_path_size :
    (c : Cache) (p : Text)
    → ((evict_path c p).size ≤ c.size) × ((evict_path c p).max_size ≡ c.max_size)
unfolding evict_path evict
evict_path_size c p = ground arith

evict_under_size :
    (prefix : Text) (ps : List Text) (c : Cache)
    → ((evict_under prefix ps c).size ≤ c.size) × ((evict_under prefix ps c).max_size ≡ c.max_size)
unfolding evict_under
evict_under_size prefix [] c = (omega arith, refl)
evict_under_size prefix (p ∷ ps) c = elim (Bool-cases (under prefix p)) [
  | inl e ↦
      rw (e, evict_under)
        (omega (arith, evict_under_size prefix ps (evict_path c p), evict_path_size c p))
  | inr e ↦ rw (e, evict_under) (evict_under_size prefix ps c)
]

pub invalidate_prefix_size :
    (c : Cache) (prefix : Text)
    → c.size ≤ c.max_size
    → (invalidate_prefix c prefix).size ≤ (invalidate_prefix c prefix).max_size
unfolding invalidate_prefix
invalidate_prefix_size c prefix h = omega (arith, evict_under_size prefix c.order c)

evict_path-max_file : (c : Cache) (p : Text) → (evict_path c p).max_file ≡ c.max_file
unfolding evict_path evict
evict_path-max_file c p = ground arith

evict_under-max_file :
    (prefix : Text) (ps : List Text) (c : Cache) → (evict_under prefix ps c).max_file ≡ c.max_file
unfolding evict_under
evict_under-max_file prefix [] c = refl
evict_under-max_file prefix (p ∷ ps) c = elim (Bool-cases (under prefix p)) [
  | inl e ↦
      rw (e, evict_under)
        (evict_under-max_file prefix ps (evict_path c p) ∙ evict_path-max_file c p)
  | inr e ↦ rw (e, evict_under) (evict_under-max_file prefix ps c)
]

pub invalidate_prefix-max_file :
    (c : Cache) (prefix : Text) → (invalidate_prefix c prefix).max_file ≡ c.max_file
unfolding invalidate_prefix
invalidate_prefix-max_file c prefix = evict_under-max_file prefix c.order c

shrink-max_file : (n : ℕ) (c : Cache) → (shrink n c).max_file ≡ c.max_file
unfolding shrink
shrink-max_file zero c = refl
shrink-max_file (suc n) c = elim (Bool-cases (ltb c.max_size c.size)) [
  | inr fits ↦ rw (fits, shrink) refl
  | inl over ↦ elim (Option-cases (back c.order)) [
    | inl e ↦ rw (over, e, shrink) refl
    | inr (p, e) ↦
        rw (over, e, shrink) (shrink-max_file n (evict_path c p) ∙ evict_path-max_file c p)
  ]
]

pub put-max_file :
    (c : Cache) (now : ℕ) (p : Text) (bytes : List ℕ) (version : Version)
    → (put c now p bytes version).max_file ≡ c.max_file
unfolding put store
put-max_file c now p bytes version = ground (
  arith,
  shrink-max_file (length (store c now p bytes version).order) (store c now p bytes version),
)
