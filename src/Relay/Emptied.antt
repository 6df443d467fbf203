-- ===== src/Relay/Emptied.antt =====
-- statsgod/relay.go: the order in which `range` visits a map, and that deleting the keys of all the entries
-- that it visits empties the map.
use statsgod.Prelude.Dict.{delete, keys, Dict}
use mathlib.Core.List.{Perm}
use mathlib.Core.List.Perm
use statsgod.Prelude.{
  Bool-cases, inl, inr, ap, ◌∙◌, ltb, ℕ, refl, bytes_eq, if◌then◌else◌, arith, true, false, [], ◌≡◌,
  ◌∷◌, All, Bool, Bytes, bytes_eq_refl, All-map,
}

module _ {ℓ} {V : Type ℓ} where
  unfoldable pub insert_visited : (Bytes → ℕ) → Bytes → V → Dict V → Dict V
  insert_visited order key m [] = (key, m) ∷ []
  insert_visited order key m ((j, v) ∷ entries) =
      let later = insert_visited order key m entries in
      if ltb (order j) (order key) then (j, v) ∷ later else (key, m) ∷ (j, v) ∷ entries

  -- The entries of a map in the order in which they are visited: by the turn of each key, which Go does not
  -- specify.
  unfoldable pub visited : (Bytes → ℕ) → Dict V → Dict V
  unfolding insert_visited
  visited order [] = []
  visited order ((key, m) ∷ entries) = insert_visited order key m (visited order entries)

  -- Each entry of the map is visited once.
  abbrev pub IsEachVisited : (Bytes → ℕ) → Dict V → Type ℓ
  IsEachVisited order metrics = Perm (visited order metrics) metrics

  Perm-insert_visited :
      (order : Bytes → ℕ) (key : Bytes) (m : V) (entries : Dict V)
      → Perm (insert_visited order key m entries) ((key, m) ∷ entries)
  unfolding insert_visited
  Perm-insert_visited order key m [] = Perm.rfl
  Perm-insert_visited order key m ((j, v) ∷ entries) =
      let later =
        Perm.trans (Perm.cons (j, v) (Perm-insert_visited order key m entries))
          (Perm.swap (key, m) (j, v) entries) in
      elim (Bool-cases (ltb (order j) (order key))) [ inl h ↦ rw h later | inr h ↦ rw h Perm.rfl ]

  pub visited-IsEachVisited : (order : Bytes → ℕ) (metrics : Dict V) → IsEachVisited order metrics
  unfolding visited
  visited-IsEachVisited order [] = Perm.rfl
  visited-IsEachVisited order ((key, m) ∷ metrics) =
      Perm.trans (Perm-insert_visited order key m (visited order metrics))
        (Perm.cons (key, m) (visited-IsEachVisited order metrics))

  -- The map without the keys of the entries.
  unfoldable pub without : Dict V → Dict V → Dict V
  unfolding delete
  without [] metrics = metrics
  without ((key, m) ∷ entries) metrics = without entries (delete key metrics)

  is_key : Bytes → Dict V → Bool
  is_key j [] = false
  is_key j ((k, v) ∷ m) = if bytes_eq j k then true else is_key j m

  abbrev AreKeys : Dict V → Dict V → Type 0
  AreKeys entries metrics = All (λ j. is_key j entries ≡ true) (keys metrics)

  AreKeys-delete :
      (k : Bytes) (v : V) (entries metrics : Dict V)
      → AreKeys ((k, v) ∷ entries) metrics
      → AreKeys entries (delete k metrics)
  unfolding delete is_key
  AreKeys-delete k v entries [] h = tt
  AreKeys-delete k v entries ((j, w) ∷ metrics) (here, h) =
      ground (arith, AreKeys-delete k v entries metrics h)

  without-AreKeys :
      (entries metrics : Dict V) → AreKeys entries metrics → without entries metrics ≡ []
  unfolding without is_key
  without-AreKeys [] [] h = refl
  without-AreKeys [] ((k, v) ∷ metrics) (e, h) = absurd (ground arith)
  without-AreKeys ((k, v) ∷ entries) metrics h =
      without-AreKeys entries (delete k metrics) (AreKeys-delete k v entries metrics h)

  AreKeys-self : (metrics : Dict V) → AreKeys metrics metrics
  unfolding is_key
  AreKeys-self [] = tt
  AreKeys-self ((k, v) ∷ metrics) = (
    ground (arith, bytes_eq_refl k),
    All-map _ _ (keys metrics) (λ j h. ground arith) (AreKeys-self metrics),
  )

  is_key-insert_visited :
      (order : Bytes → ℕ) (j key : Bytes) (m : V) (entries : Dict V)
      → is_key j (insert_visited order key m entries)
        ≡ (if bytes_eq j key then true else is_key j entries)
  unfolding is_key insert_visited
  is_key-insert_visited order j key m [] = refl
  is_key-insert_visited order j key m ((i, v) ∷ entries) =
      ground (arith, is_key-insert_visited order j key m entries)

  is_key-visited :
      (order : Bytes → ℕ) (j : Bytes) (entries : Dict V)
      → is_key j (visited order entries) ≡ is_key j entries
  unfolding visited is_key
  is_key-visited order j [] = refl
  is_key-visited order j ((key, m) ∷ entries) =
      is_key-insert_visited order j key m (visited order entries)
      ∙ ap (λ b. if bytes_eq j key then true else b) (is_key-visited order j entries)

  pub without-visited :
      (order : Bytes → ℕ) (metrics : Dict V) → without (visited order metrics) metrics ≡ []
  without-visited order metrics = without-AreKeys (visited order metrics) metrics (
      All-map _ _ (keys metrics) (λ j h. is_key-visited order j metrics ∙ h) (AreKeys-self metrics))

  pub without_self : (metrics : Dict V) → without metrics metrics ≡ []
  without_self metrics = without-AreKeys metrics metrics (AreKeys-self metrics)
