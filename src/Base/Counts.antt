-- ===== src/Base/Counts.antt =====
-- Counting the rows that pass a test, across an update of the table.
use Prim.Native.Nat.{◌≤◌}
use mathlib.Core.Path.{◌≡◌, refl}
use mathlib.Core.Bool.{Bool, true, false}
use mathlib.Core.List.{List, [], ◌∷◌}
use native.Mathlib.Omega.{arith}
use mathlib.Core.Logic.{inl, inr}
use mpc_ext.Base.Tests.{Bool-cases}
use mpc_ext.Base.Lists.{All, All-map}
use mpc_ext.Base.Tables.{update_where, count_where, All-update_where, All-of_count_where-zero}

module _ {ℓ} {A : Type ℓ} where
  -- No row starts to pass `q`, so the count does not grow.
  pub count_where-update_where_le :
      (q p : A → Bool) (f : A → A) (xs : List A)
      → ((x : A) → p x ≡ true → q (f x) ≡ true → q x ≡ true)
      → count_where q (update_where p f xs) ≤ count_where q xs
  unfolding count_where update_where
  count_where-update_where_le q p f [] keep = omega arith
  count_where-update_where_le q p f (x ∷ xs) keep =
      ground (arith, keep x, count_where-update_where_le q p f xs keep)

  -- Rows that are touched never pass `q` on either side.
  pub count_where-update_where_same :
      (q p : A → Bool) (f : A → A) (xs : List A)
      → ((x : A) → p x ≡ true → q (f x) ≡ q x)
      → count_where q (update_where p f xs) ≡ count_where q xs
  unfolding count_where update_where
  count_where-update_where_same q p f [] keep = refl
  count_where-update_where_same q p f (x ∷ xs) keep =
      ground (arith, keep x, count_where-update_where_same q p f xs keep)

  -- A narrower test counts no more rows.
  pub count_where_mono :
      (p q : A → Bool) (xs : List A)
      → ((x : A) → p x ≡ true → q x ≡ true)
      → count_where p xs ≤ count_where q xs
  unfolding count_where
  count_where_mono p q [] weak = omega arith
  count_where_mono p q (x ∷ xs) weak = ground (arith, weak x, count_where_mono p q xs weak)

  -- The only row that passes `q` passes the narrower `p` too, so an update of the rows that pass `p`
  -- reaches every row that passes `q`.
  pub All-update_where_only {κ} :
      (P : A → Type κ) (p q : A → Bool) (f : A → A) (xs : List A)
      → ((x : A) → p x ≡ true → q x ≡ true)
      → ((x : A) → p x ≡ true → P (f x))
      → ((x : A) → q x ≡ false → P x)
      → count_where q xs ≤ 1
      → count_where p xs ≡ 1
      → All P (update_where p f xs)
  unfolding count_where update_where
  All-update_where_only P p q f [] weak hit miss most one = tt
  All-update_where_only P p q f (x ∷ xs) weak hit miss most one = elim (Bool-cases (p x)) [
    | inl e ↦
        let none_left : count_where q xs ≡ 0 = ground (arith, weak x) in
        rw e (
          hit x e,
          All-update_where P p f xs (λ y h _. hit y h)
              (All-map xs miss (All-of_count_where-zero q xs none_left)),
        )
    | inr e ↦
        let here : q x ≡ false = ground (arith, count_where_mono p q xs weak) in
        rw e (
          miss x here,
          All-update_where_only P p q f xs weak hit miss (ground arith) (ground arith),
        )
  ]
