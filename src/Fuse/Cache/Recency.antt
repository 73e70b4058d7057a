-- ===== src/Fuse/Cache/Recency.antt =====
-- What making room drops: the entries at the back of the list, and no more than it must.
use ti_cli.Common.{
  ℕ, zero, suc, ◌+◌, ◌≤◌, ◌<◌, true, false, none, some, List, [], ◌∷◌, ◌++◌, ◌≡◌, refl, sym, subst,
  ap, ◌∙◌, ◌⊎◌, inl, inr, arith, ltb, Bool-cases, Option-cases, length, length-append, length-zero,
  append-nil, append_assoc,
}
use ti_cli.Common.Text.{Text, eqb, eqb_iff, eqb_refl}
use ti_cli.Fuse.Version.{Version}
use ti_cli.Fuse.Cache.{Cache, update, remove, back, evict, evict_path, shrink, store, put}
use ti_cli.Fuse.Cache.Invariant.{
  Inv, has, weight, bytes_of, is_some, Distinct, evict_path-Inv, store-Inv, inserted, new_entry,
  store-inserted,
}

has-back : (p : Text) (ps : List Text) → back ps ≡ some p → has p ps ≡ true
unfolding back has
has-back p [] h = cc
has-back p (q ∷ []) h = ground (arith, eqb_iff q p)
has-back p (q ∷ r ∷ ps) h = ground (arith, has-back p (r ∷ ps))

remove-back :
    (p : Text) (ps : List Text) → Distinct ps → back ps ≡ some p → remove p ps ++ p ∷ [] ≡ ps
unfolding back remove
remove-back p [] d h = cc
remove-back p (q ∷ []) d h = ground (arith, eqb_iff q p)
remove-back p (q ∷ r ∷ ps) d h =
    let there = has-back p (r ∷ ps) h in
    ground (arith, remove-back p (r ∷ ps) d.1, eqb_iff q p, there)

back-nil : (ps : List Text) → back ps ≡ none → ps ≡ []
unfolding back
back-nil [] h = refl
back-nil (q ∷ []) h = cc
back-nil (q ∷ r ∷ ps) h = absurd (cc (back-nil (r ∷ ps) h))

-- One round of the loop: the last path goes, the rest stays.
evict_path-back :
    (c : Cache) (p : Text)
    → Inv c
    → back c.order ≡ some p
    → ((evict_path c p).order ++ p ∷ [] ≡ c.order)
      × ((evict_path c p).max_size ≡ c.max_size)
      × ((q : Text) → eqb p q ≡ false → (evict_path c p).items q ≡ c.items q)
unfolding evict_path evict
evict_path-back c p v h = elim (Option-cases (c.items p)) [
  | inl e ↦ absurd (cc (has-back p c.order h, v.agree p, ap is_some e))
  | inr (d, e) ↦
      let same = v.keyed p d e in
      rw (e, evict_path, evict, same)
        (remove-back p c.order v.distinct h, refl, λ q ne. unfold update in ground (arith, ne))
]

weight-nil : (c : Cache) → Inv c → c.order ≡ [] → c.size ≡ 0
weight-nil c v e = v.total ∙ unfold weight in ap (weight c.items) e

-- The fuel that `put` gives is enough: afterwards the cache is within its size.
pub shrink_size :
    (n : ℕ) (c : Cache)
    → Inv c
    → length c.order ≤ n
    → ((shrink n c).size ≤ c.max_size) × ((shrink n c).max_size ≡ c.max_size)
unfolding shrink
shrink_size zero c v h = (omega (arith, weight-nil c v (length-zero c.order h)), refl)
shrink_size (suc n) c v h = elim (Bool-cases (ltb c.max_size c.size)) [
  | inr fits ↦ rw (fits, shrink) (ground arith, refl)
  | inl over ↦ elim (Option-cases (back c.order)) [
    | inl e ↦ rw (over, e, shrink) (omega (arith, weight-nil c v (back-nil c.order e)), refl)
    | inr (p, e) ↦
        let (shorter, same, _) = evict_path-back c p v e in
        let fewer : length (evict_path c p).order + 1 ≡ length c.order =
          sym (length-append (evict_path c p).order (p ∷ [])) ∙ ap length shorter in
        let rest = shrink_size n (evict_path c p) (evict_path-Inv c p v) (omega arith) in
        rw (over, e, shrink) (omega arith)
  ]
]

-- The paths that stay are a front part of the list, in the same order.
pub shrink-order :
    (n : ℕ) (c : Cache) → Inv c → (dropped : List Text) × ((shrink n c).order ++ dropped ≡ c.order)
unfolding shrink
shrink-order zero c v = ([], append-nil c.order)
shrink-order (suc n) c v = elim (Bool-cases (ltb c.max_size c.size)) [
  | inr fits ↦ rw (fits, shrink) ([], append-nil c.order)
  | inl over ↦ elim (Option-cases (back c.order)) [
    | inl e ↦ rw (over, e, shrink) ([], append-nil c.order)
    | inr (p, e) ↦
        let (dropped, rest) = shrink-order n (evict_path c p) (evict_path-Inv c p v) in
        let (shorter, _, _) = evict_path-back c p v e in
        rw (over, e, shrink)
          (
            dropped ++ p ∷ [],
            sym (append_assoc _ dropped (p ∷ [])) ∙ ap (λ l. l ++ p ∷ []) rest ∙ shorter,
          )
  ]
]

pub evict_path-items :
    (c : Cache) (p q : Text)
    → ((evict_path c p).items q ≡ none) ⊎ ((evict_path c p).items q ≡ c.items q)
unfolding evict_path evict update
evict_path-items c p q = elim (Option-cases (c.items p)) [
  | inl e ↦ rw (e, evict_path) (inr refl)
  | inr (d, e) ↦ elim (Bool-cases (eqb d.path q)) [
    | inl hit ↦ rw (e, evict_path, evict, update, hit) (inl refl)
    | inr miss ↦ rw (e, evict_path, evict, update, miss) (inr refl)
  ]
]

-- What is still in the map after the loop is what was there before it.
pub shrink-items :
    (n : ℕ) (c : Cache) (q : Text)
    → Inv c
    → ((shrink n c).items q ≡ none) ⊎ ((shrink n c).items q ≡ c.items q)
unfolding shrink
shrink-items zero c q v = inr refl
shrink-items (suc n) c q v = elim (Bool-cases (ltb c.max_size c.size)) [
  | inr fits ↦ rw (fits, shrink) (inr refl)
  | inl over ↦ elim (Option-cases (back c.order)) [
    | inl e ↦ rw (over, e, shrink) (inr refl)
    | inr (p, e) ↦
        rw (over, e, shrink)
          (elim (shrink-items n (evict_path c p) q (evict_path-Inv c p v)) [
            | inl gone ↦ inl gone
            | inr kept ↦ elim (evict_path-items c p q) [
              | inl gone ↦ inl (kept ∙ gone)
              | inr same ↦ inr (kept ∙ same)
            ]
          ])
  ]
]

has-last : (p q : Text) (ps : List Text) → has p (ps ++ q ∷ []) ≡ false → eqb q p ≡ false
unfolding has
has-last p q [] h = ground arith
has-last p q (x ∷ ps) h = ground (arith, has-last p q ps)

front_split :
    (p q : Text) (ps front : List Text)
    → front ++ q ∷ [] ≡ p ∷ ps
    → (ps ≡ []) ⊎ ((rest : List Text) × (front ≡ p ∷ rest) × (ps ≡ rest ++ q ∷ []))
front_split p q ps [] h = inl (ground arith)
front_split p q ps (x ∷ rest) h = inr (rest, ground arith, ground arith)

-- An overfull cache whose front entry fits has a second one at the back.
back-ne-front :
    (c : Cache) (p q : Text) (ps front : List Text)
    → Inv c
    → c.order ≡ p ∷ ps
    → bytes_of (c.items p) ≤ c.max_size
    → c.max_size < c.size
    → front ++ q ∷ [] ≡ c.order
    → (rest : List Text) × (front ≡ p ∷ rest) × (eqb q p ≡ false)
back-ne-front c p q ps front v o h over split = elim (front_split p q ps front (split ∙ o)) [
  | inl e ↦ absurd (omega (arith, v.total, lone e))
  | inr (rest, f, e) ↦ (rest, f, has-last p q rest (rw e at (subst Distinct o v.distinct).0))
]
  where
    lone : ps ≡ [] → weight c.items c.order ≡ bytes_of (c.items p) + 0
    lone e = unfold weight in ap (weight c.items) (o ∙ ap (λ l. p ∷ l) e)

-- The front entry stays if it fits by itself.
shrink-front :
    (n : ℕ) (c : Cache) (p : Text) (ps : List Text)
    → Inv c
    → c.order ≡ p ∷ ps
    → bytes_of (c.items p) ≤ c.max_size
    → (shrink n c).items p ≡ c.items p
unfolding shrink
shrink-front zero c p ps v o h = refl
shrink-front (suc n) c p ps v o h = elim (Bool-cases (ltb c.max_size c.size)) [
  | inr fits ↦ rw (fits, shrink) refl
  | inl over ↦ elim (Option-cases (back c.order)) [
    | inl e ↦ rw (over, e, shrink) refl
    | inr (q, e) ↦
        let (shorter, same, others) = evict_path-back c q v e in
        let (rest, order', ne) =
          back-ne-front c p q ps (evict_path c q).order v o h (ground arith) shorter in
        rw (over, e, shrink)
          (shrink-front n (evict_path c q) p rest (evict_path-Inv c q v) order'
              (rw (same, others p ne) h)
            ∙ others p ne)
  ]
]

ltb_le : (a b : ℕ) → a ≤ b → ltb b a ≡ false
ltb_le a b h = ground arith

-- `put` within the limits of a file and of the cache leaves the new entry in the cache.
pub put-items :
    (c : Cache) (now : ℕ) (p : Text) (bytes : List ℕ) (version : Version)
    → Inv c
    → length bytes ≤ c.max_file
    → length bytes ≤ c.max_size
    → (put c now p bytes version).items p ≡ some (new_entry c now p bytes version)
unfolding put
put-items c now p bytes version v small fits =
    let d = new_entry c now p bytes version in
    let there : (inserted c d).items p ≡ some d = unfold update in ground (arith, eqb_refl p) in
    let stored = store-inserted c now p bytes version v in
    let inv = subst Inv stored (store-Inv c now p bytes version v) in
    rw (stored, ltb_le (length bytes) c.max_file small)
      (shrink-front (length (inserted c d).order) (inserted c d) p (remove p c.order) inv refl
          (rw there fits)
        ∙ there)

-- After `put` the cache is within its size, if it was so before.
pub put_size :
    (c : Cache) (now : ℕ) (p : Text) (bytes : List ℕ) (version : Version)
    → Inv c
    → c.size ≤ c.max_size
    → (put c now p bytes version).size ≤ (put c now p bytes version).max_size
unfolding put
put_size c now p bytes version v h = elim (Bool-cases (ltb c.max_file (length bytes))) [
  | inl large ↦ rw large h
  | inr small ↦
      let (fits, same) =
        shrink_size (length (store c now p bytes version).order) (store c now p bytes version)
          (store-Inv c now p bytes version v) (omega arith) in
      rw (small, same) fits
]

-- In a cache that satisfies its invariant, `put` within the limit of a file keeps the paths that
-- were used last: what stays is a front part of the list with the new path moved to the front.
pub put-order :
    (c : Cache) (now : ℕ) (p : Text) (bytes : List ℕ) (version : Version)
    → Inv c
    → length bytes ≤ c.max_file
    → (dropped : List Text) × ((put c now p bytes version).order ++ dropped ≡ p ∷ remove p c.order)
unfolding put
put-order c now p bytes version v small =
    let d = new_entry c now p bytes version in
    let stored = store-inserted c now p bytes version v in
    rw (stored, ltb_le (length bytes) c.max_file small)
      (shrink-order (length (inserted c d).order) (inserted c d)
        (subst Inv stored (store-Inv c now p bytes version v)))
