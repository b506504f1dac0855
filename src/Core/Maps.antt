-- ===== src/Core/Maps.antt =====
-- BTreeMap: an association list in the order of its keys.
use mpc_ext.Base.{
  ℕ, ◌≡◌, ◌≢◌, refl, List, [], ◌∷◌, Option, none, some, arith, ltb, ◌==◌, if◌then◌else◌, map,
}

module _ {ℓ} {V : Type ℓ} where
  unfoldable pub insert : ℕ → V → List (ℕ × V) → List (ℕ × V)
  insert k v [] = (k, v) ∷ []
  insert k v ((j, w) ∷ m) =
      if k == j then (k, v) ∷ m else if ltb k j then (k, v) ∷ (j, w) ∷ m else (j, w) ∷ insert k v m

  unfoldable pub get : ℕ → List (ℕ × V) → Option V
  get k [] = none
  get k ((j, w) ∷ m) = if k == j then some w else get k m

  abbrev pub values : List (ℕ × V) → List V
  values m = map (λ e. e.1) m

  -- Inserting under two different keys in either order gives the same map.
  pub insert_comm :
      (j k : ℕ) (v w : V) (m : List (ℕ × V))
      → j ≢ k
      → insert j v (insert k w m) ≡ insert k w (insert j v m)
  unfolding insert
  insert_comm j k v w [] h = ground arith
  insert_comm j k v w ((i, x) ∷ m) h = ground (arith, insert_comm j k v w m h)

  pub get-insert :
      (j k : ℕ) (v : V) (m : List (ℕ × V))
      → get j (insert k v m) ≡ (if j == k then some v else get j m)
  unfolding insert get
  get-insert j k v [] = refl
  get-insert j k v ((i, x) ∷ m) = ground (arith, get-insert j k v m)
