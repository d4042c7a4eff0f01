-- ===== src/Storage/Schedule/Capacity/Smallest.antt =====
-- `promote` takes the smallest of the unused volumes that are large enough, as they are sorted by size.
use resource_extend.Base.{
  ℕ, zero, suc, ◌+◌, ◌/◌, ◌≤◌, ◌<◌, ltb, ◌≡◌, refl, sym, ◌∙◌, ap, inl, inr, List, [], ◌∷◌, ◌++◌,
  Option, none, some, length, get_elem?, get_elem?-some, arith, Bool-cases, Option-cases,
}
use resource_extend.Base.Int.{ℤ, ltb_ℤ, ◌≤ℤ◌, ◌<ℤ◌}
use resource_extend.Storage.Schedule.Host.{Volume, Host}
use resource_extend.Storage.Schedule.Capacity.Promote.{
  search_loop, search_size, remove_at, promote_one,
}

-- A volume is no larger than one that stands after it.
abbrev pub IsSortedBySize : List Volume → Type 0
IsSortedBySize vs =
    (a b : ℕ) (v w : Volume)
    → a ≤ b
    → get_elem? vs a ≡ some v
    → get_elem? vs b ≡ some w
    → v.size ≤ℤ w.size

module _ (vs : List Volume) (size : ℤ) where
  abbrev AreBelow : ℕ → Type 0
  AreBelow i = (a : ℕ) (w : Volume) → a < i → get_elem? vs a ≡ some w → w.size <ℤ size

  abbrev AreEnough : ℕ → Type 0
  AreEnough j = (b : ℕ) (w : Volume) → j ≤ b → get_elem? vs b ≡ some w → size ≤ℤ w.size

  -- The volumes before a place are too small, and those from it on are large enough.
  record IsSplit (p : ℕ) : Type 0 where
    below : AreBelow p
    enough : AreEnough p

  search_loop-IsSplit :
      (rounds i j : ℕ)
      → IsSortedBySize vs
      → i ≤ j
      → j ≤ length vs
      → j ≤ i + rounds
      → AreBelow i
      → AreEnough j
      → IsSplit (search_loop rounds vs size i j)
  unfolding search_loop
  search_loop-IsSplit zero i j s h l r b e = record {
    below = b;
    enough = λ a w k g. e a w (omega arith) g;
  }
  search_loop-IsSplit (suc rounds) i j s h l r b e =
      let m = (i + j) / 2 in
      elim (Bool-cases (ltb i j)) [
        | inr done ↦
            rw (done, search_loop)
              (record { below = b; enough = λ a w k g. e a w (ground arith) g })
        | inl more ↦
            let inside : m < j = ground arith in
            let (x, at) = get_elem?-some vs m (omega arith) in
            elim (Bool-cases (ltb_ℤ x.size size)) [
              | inl small ↦
                  rw (more, at, small, search_loop)
                    (search_loop-IsSplit rounds (suc m) j s inside l (omega arith)
                      (λ a w k g. let le = s a m w x (omega arith) g at in ground arith) e)
              | inr large ↦
                  rw (more, at, large, search_loop)
                    (search_loop-IsSplit rounds i m s (omega arith) (omega arith) (omega arith) b
                      (λ a w k g. let le = s m a x w k at g in ground arith))
            ]
      ]

get_elem?-below {ℓ} :
    {A : Type ℓ} (xs : List A) (i : ℕ) (x : A) → get_elem? xs i ≡ some x → i < length xs
get_elem?-below [] i x h = absurd (cc h)
get_elem?-below (y ∷ xs) zero x h = omega arith
get_elem?-below (y ∷ xs) (suc i) x h = let ih = get_elem?-below xs i x h in omega arith

search_size-IsSplit :
    (vs : List Volume) (size : ℤ) → IsSortedBySize vs → IsSplit vs size (search_size vs size)
unfolding search_size
search_size-IsSplit vs size s =
    search_loop-IsSplit vs size (length vs) 0 (length vs) s (omega arith) (omega arith)
      (omega arith) (λ a w k g. absurd (omega arith))
      (λ b w k g. let inside = get_elem?-below vs b w g in absurd (omega arith))

-- The place in a list of the item that stands at `a` once the one at `p` is gone.
skip : ℕ → ℕ → ℕ
skip zero a = suc a
skip (suc p) zero = zero
skip (suc p) (suc a) = suc (skip p a)

skip_mono : (p a b : ℕ) → a ≤ b → skip p a ≤ skip p b
unfolding skip
skip_mono zero a b h = omega arith
skip_mono (suc p) zero b h = omega arith
skip_mono (suc p) (suc a) zero h = absurd (omega arith)
skip_mono (suc p) (suc a) (suc b) h = let ih = skip_mono p a b (omega arith) in omega arith

abbrev Removed : ℕ → List Volume → Option (Volume × List Volume) → Type 0
Removed p vs none = length vs ≤ p
Removed p vs (some (v, rest)) =
    (get_elem? vs p ≡ some v) × ((a : ℕ) → get_elem? rest a ≡ get_elem? vs (skip p a))

remove_at-Removed : (p : ℕ) (vs : List Volume) → Removed p vs (remove_at p vs)
unfolding remove_at skip
remove_at-Removed p [] = omega arith
remove_at-Removed zero (v ∷ vs) = (refl, λ a. refl)
remove_at-Removed (suc p) (v ∷ vs) =
    let ih = remove_at-Removed p vs in
    elim (Option-cases (remove_at p vs)) [
      | inl e ↦ let short : Removed p vs none = rw e at ih in rw (e, remove_at) (omega arith)
      | inr ((x, rest), e) ↦
          let found : Removed p vs (some (x, rest)) = rw e at ih in
          rw (e, remove_at) (found.0, shifted rest (found.1))
    ]
  where
    shifted :
        (rest : List Volume)
        → ((a : ℕ) → get_elem? rest a ≡ get_elem? vs (skip p a))
        → (a : ℕ) → get_elem? (v ∷ rest) a ≡ get_elem? (v ∷ vs) (skip (suc p) a)
    shifted rest h zero = refl
    shifted rest h (suc a) = h a

-- Where the item at a place of a list stands: between what is before it and after it.
abbrev Splits : List Volume → Option (Volume × List Volume) → Type 0
Splits vs none = Unit {0}
Splits vs (some (v, rest)) =
    (before : List Volume) × (after : List Volume) × (vs ≡ before ++ v ∷ after)
    × (rest ≡ before ++ after)

remove_at-Splits : (p : ℕ) (vs : List Volume) → Splits vs (remove_at p vs)
unfolding remove_at
remove_at-Splits p [] = tt
remove_at-Splits zero (v ∷ vs) = ([], vs, refl, refl)
remove_at-Splits (suc p) (v ∷ vs) =
    let ih = remove_at-Splits p vs in
    elim (Option-cases (remove_at p vs)) [
      | inl e ↦ rw (e, remove_at) tt
      | inr ((x, rest), e) ↦
          let (before, after, all, left) : Splits vs (some (x, rest)) = rw e at ih in
          rw (e, remove_at) (v ∷ before, after, ap (λ ws. v ∷ ws) all, ap (λ ws. v ∷ ws) left)
    ]

-- The second host is the first with one volume moved: the smallest unused one that is large enough
-- has left the unused volumes, where the others stay as they stood, and is the last of the used
-- ones. Nothing else of the host is changed.
pub record IsPromoted (size : ℤ) (h h1 : Host) : Type 0 where
  pub volume : Volume
  pub before : List Volume
  pub after : List Volume
  pub unused_eq : h.unused_volumes ≡ before ++ volume ∷ after
  pub enough : size ≤ℤ volume.size
  pub smallest :
      (b : ℕ) (w : Volume)
      → get_elem? h.unused_volumes b ≡ some w
      → size ≤ℤ w.size
      → volume.size ≤ℤ w.size
  pub moved_eq :
      h1
      ≡ record h { unused_volumes = before ++ after; used_volumes = h.used_volumes ++ volume ∷ [] }
  pub sorted : IsSortedBySize h1.unused_volumes

abbrev pub Promotes : ℤ → Host → Option Host → Type 0
Promotes size h none = (a : ℕ) (w : Volume) → get_elem? h.unused_volumes a ≡ some w → w.size <ℤ size
Promotes size h (some h1) = IsPromoted size h h1

smallest_from :
    (vs : List Volume) (size : ℤ) (p : ℕ) (v : Volume)
    → IsSortedBySize vs
    → IsSplit vs size p
    → get_elem? vs p ≡ some v
    → (b : ℕ) (w : Volume) → get_elem? vs b ≡ some w
    → size ≤ℤ w.size
    → v.size ≤ℤ w.size
smallest_from vs size p v s split at b w g k = elim (Bool-cases (ltb b p)) [
  | inl before ↦ let small = split.below b w (ground arith) g in absurd (omega arith)
  | inr after ↦ s p b v w (ground arith) at g
]

-- Where the unused volumes are sorted by size: a round of promote moves the smallest of those that
-- have a size from the unused volumes to the end of the used ones, and leaves all else of the host as
-- it is and the unused volumes sorted; it does nothing only where none has the size.
pub promote_one-Promotes :
    (size : ℤ) (h : Host) → IsSortedBySize h.unused_volumes → Promotes size h (promote_one size h)
unfolding promote_one
promote_one-Promotes size h s =
    let vs = h.unused_volumes in
    let p = search_size vs size in
    let split = search_size-IsSplit vs size s in
    let removed = remove_at-Removed p vs in
    let splits = remove_at-Splits p vs in
    elim (Option-cases (remove_at p vs)) [
      | inl e ↦
          let short : Removed p vs none = rw e at removed in
          rw (e, promote_one, Promotes)
            (λ a w g. let inside = get_elem?-below vs a w g in split.below a w (omega arith) g)
      | inr ((v, rest), e) ↦
          let found : Removed p vs (some (v, rest)) = rw e at removed in
          let (before, after, all, left) : Splits vs (some (v, rest)) = rw e at splits in
          rw (e, promote_one, Promotes)
            (record {
              volume = v;
              before = before;
              after = after;
              unused_eq = all;
              enough = split.enough p v (omega arith) (found.0);
              smallest = λ b w g k. smallest_from vs size p v s split (found.0) b w g k;
              moved_eq =
                  ap
                    (λ (ws : List Volume). record h {
                      unused_volumes = ws;
                      used_volumes = h.used_volumes ++ v ∷ [];
                    })
                    left;
              sorted = λ a b w x le g k.
                  s (skip p a) (skip p b) w x (skip_mono p a b le) (sym (found.1 a) ∙ g)
                    (sym (found.1 b) ∙ k);
            })
    ]
