-- ===== src/Channels/Dealt.antt =====
-- Items taken from the fronts of several lists, one after the other.
use mathlib.Core.Path.{subst}
use statsgod.Prelude.{
  refl, ◌∙◌, ap, sym, inr, inl, Option-cases, arith, ◌∷◌, some, ◌≡◌, Option, ◌++◌, map, [], ℕ, List,
}
use statsgod.Channels.{take_from, update_at}
use statsgod.Prelude.{zero, suc, ℕ, List, [], ◌∷◌, ◌++◌, map, Option, some, ◌≡◌, arith}

-- The items, taken in this order from the fronts of the first lists, leave the second ones.
pub data Takes {ℓ} {A : Type ℓ} : List (List A) → List A → List (List A) → Type ℓ where
  nothing : {xss : List (List A)} → Takes xss [] xss
  one :
      {xss yss zss : List (List A)} {x : A} {xs : List A} (i : ℕ)
      → take_from i xss ≡ some (x, yss)
      → Takes yss xs zss
      → Takes xss (x ∷ xs) zss

-- The items are those of the lists, each list in its order: taken in this order, they leave nothing.
abbrev pub IsMerge {ℓ} : {A : Type ℓ} → List (List A) → List A → Type ℓ
IsMerge xss xs = Takes xss xs (map (λ x. []) xss)

module _ {ℓ} {A : Type ℓ} where
  pub Takes-append :
      {xss yss zss : List (List A)} {xs ys : List A}
      → Takes xss xs yss
      → Takes yss ys zss
      → Takes xss (xs ++ ys) zss
  Takes-append nothing t = t
  Takes-append (one i e s) t = one i e (Takes-append s t)

  -- An item more at the end of a list.
  abbrev add_at : ℕ → A → List (List A) → Option (List (List A))
  add_at j x = update_at j (λ xs. xs ++ x ∷ [])

  take_from-add_at :
      (i j : ℕ) (x y : A) (xss yss uss : List (List A))
      → take_from i xss ≡ some (x, yss)
      → add_at j y xss ≡ some uss
      → (vss : List (List A)) × (take_from i uss ≡ some (x, vss)) × (add_at j y yss ≡ some vss)
  unfolding take_from update_at
  take_from-add_at i j x y [] yss uss e h = absurd (ground arith)
  take_from-add_at zero zero x y ([] ∷ xss) yss uss e h = absurd (ground arith)
  take_from-add_at zero zero x y ((z ∷ xs) ∷ xss) yss uss e h =
      ((xs ++ y ∷ []) ∷ xss, ground arith, ground arith)
  take_from-add_at zero (suc j) x y ([] ∷ xss) yss uss e h = absurd (ground arith)
  take_from-add_at zero (suc j) x y ((z ∷ xs) ∷ xss) yss uss e h =
      elim (Option-cases (add_at j y xss)) [
        | inl fails ↦ absurd (ground arith)
        | inr (wss, added) ↦ (xs ∷ wss, ground arith, ground arith)
      ]
  take_from-add_at (suc i) zero x y (xs ∷ xss) yss uss e h = elim (Option-cases (take_from i xss)) [
    | inl fails ↦ absurd (ground arith)
    | inr ((z, wss), took) ↦ ((xs ++ y ∷ []) ∷ wss, ground arith, ground arith)
  ]
  take_from-add_at (suc i) (suc j) x y (xs ∷ xss) yss uss e h =
      elim (Option-cases (take_from i xss)) [
        | inl fails ↦ absurd (ground arith)
        | inr ((z, wss), took) ↦ elim (Option-cases (add_at j y xss)) [
          | inl fails ↦ absurd (ground arith)
          | inr (tss, added) ↦
              let (vss, t, a) = take_from-add_at i j z y xss wss tss took added in
              (xs ∷ vss, ground arith, ground arith)
        ]
      ]

  Takes-add_at :
      (j : ℕ) (y : A) {xss yss uss : List (List A)} {xs : List A}
      → Takes xss xs yss
      → add_at j y xss ≡ some uss
      → (vss : List (List A)) × Takes uss xs vss × (add_at j y yss ≡ some vss)
  Takes-add_at j y {uss} nothing h = (uss, nothing, h)
  Takes-add_at j y {xss} {uss} (one {yss} {x} i e t) h =
      let (wss, took, added) = take_from-add_at i j x y xss yss uss e h in
      let (vss, s, a) = Takes-add_at j y t added in (vss, one i took s, a)

  abbrev empties : List (List A) → List (List A)
  empties = map λ x. []

  take_from-added :
      (j : ℕ) (y : A) (xss vss : List (List A))
      → add_at j y (empties xss) ≡ some vss
      → take_from j vss ≡ some (y, empties xss)
  unfolding take_from update_at
  take_from-added j y [] vss h = absurd (ground arith)
  take_from-added zero y (xs ∷ xss) vss h = ground arith
  take_from-added (suc j) y (xs ∷ xss) vss h = elim (Option-cases (add_at j y (empties xss))) [
    | inl fails ↦ absurd (ground arith)
    | inr (wss, added) ↦ ground (arith, take_from-added j y xss wss added)
  ]

  empties-add_at :
      (j : ℕ) (y : A) (xss uss : List (List A))
      → add_at j y xss ≡ some uss
      → empties uss ≡ empties xss
  unfolding update_at
  empties-add_at j y [] uss h = absurd (ground arith)
  empties-add_at zero y (xs ∷ xss) uss h =
      let e : uss ≡ (xs ++ y ∷ []) ∷ xss = ground arith in rw e refl
  empties-add_at (suc j) y (xs ∷ xss) uss h = elim (Option-cases (add_at j y xss)) [
    | inl fails ↦ absurd (ground arith)
    | inr (wss, added) ↦
        let e : uss ≡ xs ∷ wss = ground arith in
        rw e (ap (λ zss. [] ∷ zss) (empties-add_at j y xss wss added))
  ]

  -- An item more, the last of all, comes at the end of one of the lists.
  pub IsMerge-add_at :
      (j : ℕ) (y : A) (xss uss : List (List A)) (xs : List A)
      → IsMerge xss xs
      → add_at j y xss ≡ some uss
      → IsMerge uss (xs ++ y ∷ [])
  IsMerge-add_at j y xss uss xs t h =
      let (vss, s, a) = Takes-add_at j y t h in
      let last : Takes vss (y ∷ []) (empties xss) = one j (take_from-added j y xss vss a) nothing in
      subst (λ zss. Takes uss (xs ++ y ∷ []) zss) (sym (empties-add_at j y xss uss h))
        (Takes-append s last)

-- Two lists of the same length, whose items are related one by one.
pub data Pairwise {ℓ κ μ} {A : Type ℓ} {B : Type κ} (R : A → B → Type μ)
    : List A → List B → Type (ℓ ⊔ κ ⊔ μ) where
  no_pair : Pairwise R [] []
  pair :
      {x : A} {y : B} {xs : List A} {ys : List B}
      → R x y
      → Pairwise R xs ys
      → Pairwise R (x ∷ xs) (y ∷ ys)

-- An update on one side is one on the other side.
pub update_at-Pairwise {ℓ κ μ} :
    {A : Type ℓ} {B : Type κ} {R : A → B → Type μ} (i : ℕ) (h : A → A) (g : B → B)
    → ((x : A) (y : B) → R x y → R (h x) (g y))
    → {xs : List A} {ys zs : List B} → Pairwise R xs ys
    → update_at i g ys ≡ some zs
    → (ws : List A) × (update_at i h xs ≡ some ws) × Pairwise R ws zs
unfolding update_at
update_at-Pairwise i h g c no_pair e = absurd (ground arith)
update_at-Pairwise {R} zero h g c {zs} (pair {x} {y} {xs} {ys} r p) e =
    let same : zs ≡ g y ∷ ys = ground arith in
    (h x ∷ xs, refl, subst (Pairwise R (h x ∷ xs)) (sym same) (pair (c x y r) p))
update_at-Pairwise {R} (suc i) h g c {zs} (pair {x} {y} {xs} {ys} r p) e =
    elim (Option-cases (update_at i g ys)) [
      | inl fails ↦ absurd (ground arith)
      | inr (us, updated) ↦
          let (ws, u, q) = update_at-Pairwise i h g c p updated in
          let same : zs ≡ y ∷ us = ground arith in
          (x ∷ ws, ground arith, subst (Pairwise R (x ∷ ws)) (sym same) (pair r q))
    ]

pub update_at-same {ℓ} :
    {A : Type ℓ} (i : ℕ) (xs ys : List A) → update_at i (λ x. x) xs ≡ some ys → ys ≡ xs
unfolding update_at
update_at-same i [] ys e = absurd (ground arith)
update_at-same zero (x ∷ xs) ys e = ground arith
update_at-same (suc i) (x ∷ xs) ys e = elim (Option-cases (update_at i (λ x. x) xs)) [
  | inl fails ↦ absurd (ground arith)
  | inr (zs, updated) ↦
      let all : ys ≡ x ∷ zs = ground arith in
      all ∙ ap (λ us. x ∷ us) (update_at-same i xs zs updated)
]
