-- ===== src/Base/Tables.antt =====
-- A table is the list of its rows. The SQL statements that the store issues are these five loops
-- over the rows, with the WHERE clause as a test.
use Prim.Native.Nat.{ℕ, ◌+◌, ◌<◌}
use mathlib.Core.Path.{◌≡◌, refl, subst}
use mathlib.Core.Logic.{inl, inr}
use mathlib.Core.Bool.{Bool, true, false}
use mathlib.Core.Option
use mathlib.Core.Option.{Option, none, some}
use mathlib.Core.List.{List, [], ◌∷◌}
use native.Mathlib.Omega.{arith}
use mpc_ext.Base.Tests.{if◌then◌else◌, Bool-cases, is_some}
use mpc_ext.Base.Lists.{All}

module _ {ℓ} {A : Type ℓ} where
  -- SELECT … WHERE p, the first row.
  unfoldable pub find_where : (A → Bool) → List A → Option A
  find_where p [] = none
  find_where p (x ∷ xs) = if p x then some x else find_where p xs

  -- UPDATE … SET f WHERE p.
  unfoldable pub update_where : (A → Bool) → (A → A) → List A → List A
  update_where p f [] = []
  update_where p f (x ∷ xs) = (if p x then f x else x) ∷ update_where p f xs

  -- DELETE … WHERE p.
  unfoldable pub delete_where : (A → Bool) → List A → List A
  delete_where p [] = []
  delete_where p (x ∷ xs) = if p x then delete_where p xs else x ∷ delete_where p xs

  -- SELECT COUNT(*) … WHERE p; also the rows affected by an UPDATE or a DELETE.
  unfoldable pub count_where : (A → Bool) → List A → ℕ
  count_where p [] = 0
  count_where p (x ∷ xs) = (if p x then 1 else 0) + count_where p xs

  -- SELECT … WHERE p, every row in order.
  unfoldable pub select_where : (A → Bool) → List A → List A
  select_where p [] = []
  select_where p (x ∷ xs) = if p x then x ∷ select_where p xs else select_where p xs

  -- The row that is found passes the test.
  pub find_where_holds :
      (p : A → Bool) (xs : List A) (a : A) → find_where p xs ≡ some a → p a ≡ true
  unfolding find_where
  find_where_holds p [] a h = cc
  find_where_holds p (x ∷ xs) a h = ground (arith, find_where_holds p xs a)

  -- What holds throughout the table holds of the row that is found.
  pub All-find_where {κ} :
      (P : A → Type κ) (p : A → Bool) (xs : List A) (a : A)
      → All P xs
      → find_where p xs ≡ some a
      → P a
  unfolding find_where
  All-find_where P p [] a all h = cc
  All-find_where P p (x ∷ xs) a all h = elim (Bool-cases (p x)) [
    | inl hit ↦ let e : x ≡ a = ground arith in subst P e all.0
    | inr miss ↦ All-find_where P p xs a all.1 (ground arith)
  ]

  -- An update keeps what holds throughout the table if it keeps it on the rows that it touches.
  pub All-update_where {κ} :
      (P : A → Type κ) (p : A → Bool) (f : A → A) (xs : List A)
      → ((x : A) → p x ≡ true → P x → P (f x))
      → All P xs
      → All P (update_where p f xs)
  unfolding update_where
  All-update_where P p f [] keep all = tt
  All-update_where P p f (x ∷ xs) keep all = elim (Bool-cases (p x)) [
    | inl hit ↦ rw hit (keep x hit all.0, All-update_where P p f xs keep all.1)
    | inr miss ↦ rw miss (all.0, All-update_where P p f xs keep all.1)
  ]

  pub All-delete_where {κ} :
      (P : A → Type κ) (p : A → Bool) (xs : List A) → All P xs → All P (delete_where p xs)
  unfolding delete_where
  All-delete_where P p [] all = tt
  All-delete_where P p (x ∷ xs) all = elim (Bool-cases (p x)) [
    | inl hit ↦ rw hit (All-delete_where P p xs all.1)
    | inr miss ↦ rw miss (all.0, All-delete_where P p xs all.1)
  ]

  -- Nothing is found exactly when no row passes the test.
  pub find_where-none :
      (p : A → Bool) (xs : List A) → All (λ x. p x ≡ false) xs → find_where p xs ≡ none
  unfolding find_where
  find_where-none p [] all = refl
  find_where-none p (x ∷ xs) all = rw (all.0) (find_where-none p xs all.1)

  pub All-of_find_where-none :
      (p : A → Bool) (xs : List A) → find_where p xs ≡ none → All (λ x. p x ≡ false) xs
  unfolding find_where
  All-of_find_where-none p [] h = tt
  All-of_find_where-none p (x ∷ xs) h = elim (Bool-cases (p x)) [
    | inl hit ↦ absurd (ground arith)
    | inr miss ↦ (miss, All-of_find_where-none p xs (ground arith))
  ]

  -- Looking up by a key after an update that leaves the key alone.
  pub find_where-update_where :
      (q p : A → Bool) (f : A → A) (xs : List A)
      → ((x : A) → q (f x) ≡ q x)
      → find_where q (update_where p f xs)
        ≡ Option.map (λ x. if p x then f x else x) (find_where q xs)
  unfolding find_where update_where
  find_where-update_where q p f [] key = refl
  find_where-update_where q p f (x ∷ xs) key =
      ground (arith, key x, find_where-update_where q p f xs key)

  pub count_where-zero :
      (p : A → Bool) (xs : List A) → All (λ x. p x ≡ false) xs → count_where p xs ≡ 0
  unfolding count_where
  count_where-zero p [] all = refl
  count_where-zero p (x ∷ xs) all = rw (all.0) (omega (arith, count_where-zero p xs all.1))

  pub All-of_count_where-zero :
      (p : A → Bool) (xs : List A) → count_where p xs ≡ 0 → All (λ x. p x ≡ false) xs
  unfolding count_where
  All-of_count_where-zero p [] h = tt
  All-of_count_where-zero p (x ∷ xs) h = (ground arith, All-of_count_where-zero p xs (ground arith))

  pub find_where-delete_where :
      (q p : A → Bool) (xs : List A)
      → ((x : A) → q x ≡ true → p x ≡ false)
      → find_where q (delete_where p xs) ≡ find_where q xs
  unfolding find_where delete_where
  find_where-delete_where q p [] apart = refl
  find_where-delete_where q p (x ∷ xs) apart =
      ground (arith, apart x, find_where-delete_where q p xs apart)

  pub find_where-deleted :
      (q p : A → Bool) (xs : List A)
      → ((x : A) → q x ≡ true → p x ≡ true)
      → find_where q (delete_where p xs) ≡ none
  unfolding find_where delete_where
  find_where-deleted q p [] apart = refl
  find_where-deleted q p (x ∷ xs) apart = ground (arith, apart x, find_where-deleted q p xs apart)

  -- An update establishes what it gives to the rows that it touches and the others have already.
  pub All-update_where_new {κ} :
      (P : A → Type κ) (p : A → Bool) (f : A → A) (xs : List A)
      → ((x : A) → p x ≡ true → P (f x))
      → ((x : A) → p x ≡ false → P x)
      → All P (update_where p f xs)
  unfolding update_where
  All-update_where_new P p f [] hit miss = tt
  All-update_where_new P p f (x ∷ xs) hit miss = elim (Bool-cases (p x)) [
    | inl e ↦ rw e (hit x e, All-update_where_new P p f xs hit miss)
    | inr e ↦ rw e (miss x e, All-update_where_new P p f xs hit miss)
  ]

  pub is_some-find_where_weaken :
      (p q : A → Bool) (xs : List A)
      → ((x : A) → p x ≡ true → q x ≡ true)
      → is_some (find_where p xs) ≡ true
      → is_some (find_where q xs) ≡ true
  unfolding find_where
  is_some-find_where_weaken p q [] weak h = h
  is_some-find_where_weaken p q (x ∷ xs) weak h =
      ground (arith, weak x, is_some-find_where_weaken p q xs weak)

  pub is_some-find_where_of_count :
      (p : A → Bool) (xs : List A) → 0 < count_where p xs → is_some (find_where p xs) ≡ true
  unfolding find_where count_where
  is_some-find_where_of_count p [] h = absurd (omega arith)
  is_some-find_where_of_count p (x ∷ xs) h = ground (arith, is_some-find_where_of_count p xs)

  pub count_where-zero_of_find_where :
      (p : A → Bool) (xs : List A) → is_some (find_where p xs) ≡ false → count_where p xs ≡ 0
  unfolding find_where count_where
  count_where-zero_of_find_where p [] h = refl
  count_where-zero_of_find_where p (x ∷ xs) h = ground (arith, count_where-zero_of_find_where p xs)

  pub count_where-pos_of_found :
      (p : A → Bool) (xs : List A) (a : A) → find_where p xs ≡ some a → 0 < count_where p xs
  unfolding find_where count_where
  count_where-pos_of_found p [] a h = cc
  count_where-pos_of_found p (x ∷ xs) a h = ground (arith, count_where-pos_of_found p xs a)
