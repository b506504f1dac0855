-- ===== src/Core/Field.antt =====
-- k256::Scalar as crates/mpc-core uses it: a commutative ring whose `invert` finds the inverses there
-- are, with the numbers 1 to 3 apart.
use mathlib.Core.Path.{◌≡⟨◌⟩◌, ◌∎}
use mpc_ext.Base.{ℕ, ◌≤◌, ◌<◌, ◌≡◌, ◌≢◌, ◌∙◌, sym, ap, subst, Option, some}

pub record Field {ℓ} (A : Type ℓ) : Type ℓ where
  pub from_u64 : ℕ → A
  pub add : A → A → A
  pub zero : A
  pub neg : A → A
  pub mul : A → A → A
  pub one : A
  pub invert : A → Option A
  pub add-neg : (x : A) → add x (neg x) ≡ zero
  pub one-mul : (x : A) → mul one x ≡ x
  pub zero-add : (x : A) → add zero x ≡ x
  pub mul_comm : (x y : A) → mul x y ≡ mul y x
  pub mul-add : (x y z : A) → mul x (add y z) ≡ add (mul x y) (mul x z)
  pub add_comm : (x y : A) → add x y ≡ add y x
  pub mul_assoc : (x y z : A) → mul (mul x y) z ≡ mul x (mul y z)
  pub add_assoc : (x y z : A) → add (add x y) z ≡ add x (add y z)
  pub invert_sound : (a b : A) → invert a ≡ some b → mul a b ≡ one
  pub invert_apart :
      (i j : ℕ)
      → 0 < i
      → i ≤ 3
      → 0 < j
      → j ≤ 3
      → i ≢ j
      → (b : A) × (invert (add (from_u64 j) (neg (from_u64 i))) ≡ some b)

module _ {ℓ} {A : Type ℓ} ⦃f : Field A⦄ where
  infixl 65 ◌⊕◌ ◌⊖◌
  infixl 70 ◌⊗◌
  abbrev pub ◌⊕◌ : A → A → A
  x ⊕ y = f.add x y

  abbrev pub ◌⊖◌ : A → A → A
  x ⊖ y = f.add x (f.neg y)

  abbrev pub ◌⊗◌ : A → A → A
  x ⊗ y = f.mul x y

  pub add_left_comm : (a b c : A) → a ⊕ (b ⊕ c) ≡ b ⊕ (a ⊕ c)
  add_left_comm a b c =
      sym (f.add_assoc a b c) ∙ ap (λ x. x ⊕ c) (f.add_comm a b) ∙ f.add_assoc b a c

  pub mul_left_comm : (a b c : A) → a ⊗ (b ⊗ c) ≡ b ⊗ (a ⊗ c)
  mul_left_comm a b c =
      sym (f.mul_assoc a b c) ∙ ap (λ x. x ⊗ c) (f.mul_comm a b) ∙ f.mul_assoc b a c

  pub add-mul : (a b c : A) → (a ⊕ b) ⊗ c ≡ (a ⊗ c) ⊕ (b ⊗ c)
  add-mul a b c = simp (f.mul_comm, f.mul-add)

  pub add-zero : (a : A) → a ⊕ f.zero ≡ a
  add-zero a = f.add_comm a f.zero ∙ f.zero-add a

  pub mul-one : (a : A) → a ⊗ f.one ≡ a
  mul-one a = f.mul_comm a f.one ∙ f.one-mul a

  pub neg-add_cancel : (a b : A) → f.neg a ⊕ (a ⊕ b) ≡ b
  neg-add_cancel a b =
      sym (f.add_assoc (f.neg a) a b)
      ∙ ap (λ x. x ⊕ b) (f.add_comm (f.neg a) a ∙ f.add-neg a)
      ∙ f.zero-add b

  -- What is added can be taken away again.
  pub add_cancel : (a b c : A) → a ⊕ b ≡ a ⊕ c → b ≡ c
  add_cancel a b c h = sym (neg-add_cancel a b) ∙ ap (λ x. f.neg a ⊕ x) h ∙ neg-add_cancel a c

  pub mul-zero : (a : A) → a ⊗ f.zero ≡ f.zero
  mul-zero a = add_cancel (a ⊗ f.zero) (a ⊗ f.zero) f.zero (
      sym (f.mul-add a f.zero f.zero)
      ∙ ap (λ x. a ⊗ x) (f.zero-add f.zero)
      ∙ sym (add-zero (a ⊗ f.zero)))

  pub mul-neg : (a b : A) → a ⊗ f.neg b ≡ f.neg (a ⊗ b)
  mul-neg a b = add_cancel (a ⊗ b) (a ⊗ f.neg b) (f.neg (a ⊗ b)) (
      sym (f.mul-add a b (f.neg b))
      ∙ ap (λ x. a ⊗ x) (f.add-neg b)
      ∙ mul-zero a
      ∙ sym (f.add-neg (a ⊗ b)))

  pub neg_neg : (a : A) → f.neg (f.neg a) ≡ a
  neg_neg a =
      add_cancel (f.neg a) (f.neg (f.neg a)) a
        (f.add-neg (f.neg a) ∙ sym (f.add-neg a) ∙ f.add_comm a (f.neg a))

  -- The inverse of a negated element.
  inverse-neg : (d e e' : A) → d ⊗ e ≡ f.one → f.neg d ⊗ e' ≡ f.one → e' ≡ f.neg e
  inverse-neg d e e' h h' =
      e'
      ≡⟨ sym (mul-one e') ⟩ e' ⊗ f.one
      ≡⟨ ap (λ x. e' ⊗ x) (sym h) ⟩ e' ⊗ (d ⊗ e)
      ≡⟨ (simp (mul_left_comm, f.mul_comm)) ⟩ e ⊗ (e' ⊗ d)
      ≡⟨ ap (λ x. e ⊗ x) turned ⟩ e ⊗ f.neg f.one
      ≡⟨ mul-neg e f.one ⟩ f.neg (e ⊗ f.one)
      ≡⟨ ap f.neg (mul-one e) ⟩ f.neg e ∎
    where
      turned : e' ⊗ d ≡ f.neg f.one
      turned = sym (neg_neg (e' ⊗ d)) ∙ ap f.neg (sym (mul-neg e' d) ∙ f.mul_comm e' (f.neg d) ∙ h')

  -- The line through a constant with a slope.
  abbrev pub line : A → A → A → A
  line a b x = a ⊕ (b ⊗ x)

  -- Lagrange interpolation at zero of a line from its values at `i` and at `i ⊕ d`.
  pub interpolate_step :
      (a b i d e e' : A)
      → d ⊗ e ≡ f.one
      → f.neg d ⊗ e' ≡ f.one
      → (((i ⊕ d) ⊗ e) ⊗ line a b i) ⊕ ((i ⊗ e') ⊗ line a b (i ⊕ d)) ≡ a
  interpolate_step a b i d e e' h h' =
      (((i ⊕ d) ⊗ e) ⊗ v) ⊕ ((i ⊗ e') ⊗ line a b (i ⊕ d))
      ≡⟨ ap (λ y. y ⊕ ((i ⊗ e') ⊗ line a b (i ⊕ d))) first ⟩
        ((i ⊗ x) ⊕ v) ⊕ ((i ⊗ e') ⊗ line a b (i ⊕ d))
      ≡⟨ ap (λ y. ((i ⊗ x) ⊕ v) ⊕ y) second ⟩ ((i ⊗ x) ⊕ v) ⊕ f.neg ((i ⊗ x) ⊕ (i ⊗ b))
      ≡⟨ ap (λ y. y ⊕ f.neg ((i ⊗ x) ⊕ (i ⊗ b))) gather ⟩
        (a ⊕ ((i ⊗ x) ⊕ (i ⊗ b))) ⊕ f.neg ((i ⊗ x) ⊕ (i ⊗ b))
      ≡⟨ f.add_assoc a ((i ⊗ x) ⊕ (i ⊗ b)) (f.neg ((i ⊗ x) ⊕ (i ⊗ b)))
        ∙ ap (λ y. a ⊕ y) (f.add-neg ((i ⊗ x) ⊕ (i ⊗ b)))
        ∙ add-zero a ⟩
        a ∎
    where
      v : A
      v = line a b i

      x : A
      x = e ⊗ v

      first : ((i ⊕ d) ⊗ e) ⊗ v ≡ (i ⊗ x) ⊕ v
      first =
          f.mul_assoc (i ⊕ d) e v
          ∙ add-mul i d x
          ∙ ap (λ y. (i ⊗ x) ⊕ y) (sym (f.mul_assoc d e v) ∙ ap (λ y. y ⊗ v) h ∙ f.one-mul v)

      gather : (i ⊗ x) ⊕ v ≡ a ⊕ ((i ⊗ x) ⊕ (i ⊗ b))
      gather = ap (λ y. (i ⊗ x) ⊕ (a ⊕ y)) (f.mul_comm b i) ∙ add_left_comm (i ⊗ x) a (i ⊗ b)

      step : e ⊗ (b ⊗ d) ≡ b
      step = mul_left_comm e b d ∙ ap (λ y. b ⊗ y) (f.mul_comm e d ∙ h) ∙ mul-one b

      value : line a b (i ⊕ d) ≡ v ⊕ (b ⊗ d)
      value = ap (λ y. a ⊕ y) (f.mul-add b i d) ∙ sym (f.add_assoc a (b ⊗ i) (b ⊗ d))

      second : (i ⊗ e') ⊗ line a b (i ⊕ d) ≡ f.neg ((i ⊗ x) ⊕ (i ⊗ b))
      second =
          ap (λ y. (i ⊗ y) ⊗ line a b (i ⊕ d)) (inverse-neg d e e' h h')
          ∙ ap (λ y. y ⊗ line a b (i ⊕ d)) (mul-neg i e)
          ∙ f.mul_comm (f.neg (i ⊗ e)) (line a b (i ⊕ d))
          ∙ mul-neg (line a b (i ⊕ d)) (i ⊗ e)
          ∙ ap f.neg (
              f.mul_comm (line a b (i ⊕ d)) (i ⊗ e)
              ∙ f.mul_assoc i e (line a b (i ⊕ d))
              ∙ ap (λ y. i ⊗ (e ⊗ y)) value
              ∙ ap (λ y. i ⊗ y) (f.mul-add e v (b ⊗ d))
              ∙ f.mul-add i x (e ⊗ (b ⊗ d))
              ∙ ap (λ y. (i ⊗ x) ⊕ (i ⊗ y)) step)

  sub_swap : (p q : A) → (p ⊖ q) ⊕ (q ⊖ p) ≡ f.zero
  sub_swap p q =
      f.add_assoc p (f.neg q) (q ⊖ p) ∙ ap (λ y. p ⊕ y) (neg-add_cancel q (f.neg p)) ∙ f.add-neg p

  -- From the values at `i` and `j`, with the inverses of the two differences.
  pub interpolate :
      (a b i j e e' : A)
      → (j ⊖ i) ⊗ e ≡ f.one
      → (i ⊖ j) ⊗ e' ≡ f.one
      → ((j ⊗ e) ⊗ line a b i) ⊕ ((i ⊗ e') ⊗ line a b j) ≡ a
  interpolate a b i j e e' h h' =
      subst (λ y. ((y ⊗ e) ⊗ line a b i) ⊕ ((i ⊗ e') ⊗ line a b y) ≡ a) back
        (interpolate_step a b i (j ⊖ i) e e' h (ap (λ y. y ⊗ e') turned ∙ h'))
    where
      back : i ⊕ (j ⊖ i) ≡ j
      back = add_left_comm i j (f.neg i) ∙ ap (λ y. j ⊕ y) (f.add-neg i) ∙ add-zero j

      turned : f.neg (j ⊖ i) ≡ i ⊖ j
      turned = add_cancel (j ⊖ i) (f.neg (j ⊖ i)) (i ⊖ j) (f.add-neg (j ⊖ i) ∙ sym (sub_swap j i))
