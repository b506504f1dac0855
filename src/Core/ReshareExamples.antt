-- ===== src/Core/ReshareExamples.antt =====
-- A reshare over the field of five elements, for the tests.
use mpc_ext.Base.{
  ℕ, ◌≡◌, ◌+◌, ◌-◌, ◌*◌, ◌%◌, ◌<◌, ◌≤◌, ◌==◌, ltb, ◌&&◌, refl, arith, [], ◌∷◌, Option, some, none,
  ◌≢◌, ◌∙◌, ap, sym, zero, suc, Bool, true, if◌then◌else◌,
}
use mpc_ext.Core.Types.{Bytes, Error, ok, err, KeyShare, traverse}
use mpc_ext.Core.Field.{Field}
use mpc_ext.Core.Reshare.{SharePoint, reshare_row, lagrange_at_zero, reconstruct, row_of}
use mpc_ext.Core.Reshare.Secret.{IsPoint, reconstruct_pair, reshare_keeps_secret, add_results}

pub data Five : Type 0 where
  f0 : Five
  f1 : Five
  f2 : Five
  f3 : Five
  f4 : Five

abbrev pub value : Five → ℕ
value f0 = 0
value f1 = 1
value f2 = 2
value f3 = 3
value f4 = 4

abbrev pub of : ℕ → Five
of n =
    if n == 0 then f0 else if n == 1 then f1 else if n == 2 then f2 else if n == 3 then f3 else f4

abbrev same : Five → Five → Bool
same a b = value a == value b

abbrev all_five : (Five → Bool) → Bool
all_five p = p f0 && (p f1 && (p f2 && (p f3 && p f4)))

all_five-at : (p : Five → Bool) → all_five p ≡ true → (a : Five) → p a ≡ true
all_five-at p h f0 = ground arith
all_five-at p h f1 = ground arith
all_five-at p h f2 = ground arith
all_five-at p h f3 = ground arith
all_five-at p h f4 = ground arith

of_value : (a : Five) → of (value a) ≡ a
of_value f0 = refl
of_value f1 = refl
of_value f2 = refl
of_value f3 = refl
of_value f4 = refl

same_sound : (a b : Five) → same a b ≡ true → a ≡ b
same_sound a b h =
    let e : value a ≡ value b = ground arith in sym (of_value a) ∙ ap of e ∙ of_value b

abbrev add : Five → Five → Five
add a b = of ((value a + value b) % 5)

abbrev mul : Five → Five → Five
mul a b = of ((value a * value b) % 5)

abbrev neg : Five → Five
neg a = of ((5 - value a) % 5)

abbrev invert : Five → Option Five
invert f0 = none
invert f1 = some f1
invert f2 = some f3
invert f3 = some f2
invert f4 = some f4

pub law1 : (f g : Five → Five) → all_five (λ a. same (f a) (g a)) ≡ true → (a : Five) → f a ≡ g a
law1 f g h a = same_sound _ _ (all_five-at (λ a. same (f a) (g a)) h a)

pub law2 :
    (f g : Five → Five → Five)
    → all_five (λ a. all_five (λ b. same (f a b) (g a b))) ≡ true
    → (a b : Five) → f a b ≡ g a b
law2 f g h a = law1 (f a) (g a) (all_five-at (λ a. all_five (λ b. same (f a b) (g a b))) h a)

pub law3 :
    (f g : Five → Five → Five → Five)
    → all_five (λ a. all_five (λ b. all_five (λ c. same (f a b c) (g a b c)))) ≡ true
    → (a b c : Five) → f a b c ≡ g a b c
law3 f g h a =
    law2 (f a) (g a)
      (all_five-at (λ a. all_five (λ b. all_five (λ c. same (f a b c) (g a b c)))) h a)

times : Five → Option Five → Five
times a none = f1
times a (some b) = mul a b

pub invert_sound : (a b : Five) → invert a ≡ some b → mul a b ≡ f1
unfolding times
invert_sound a b h = ap (times a) (sym h) ∙ law1 (λ a. times a (invert a)) (λ _. f1) refl a

pub invert_apart :
    (i j : ℕ)
    → 0 < i
    → i ≤ 3
    → 0 < j
    → j ≤ 3
    → i ≢ j
    → (b : Five) × (invert (add (of (j % 5)) (neg (of (i % 5)))) ≡ some b)
invert_apart zero j hi hi' hj hj' apart = absurd (omega arith)
invert_apart (suc zero) zero hi hi' hj hj' apart = absurd (omega arith)
invert_apart (suc zero) (suc zero) hi hi' hj hj' apart = absurd (apart refl)
invert_apart (suc zero) (suc (suc zero)) hi hi' hj hj' apart = (f1, refl)
invert_apart (suc zero) (suc (suc (suc zero))) hi hi' hj hj' apart = (f3, refl)
invert_apart (suc zero) (suc (suc (suc (suc j)))) hi hi' hj hj' apart = absurd (omega arith)
invert_apart (suc (suc zero)) zero hi hi' hj hj' apart = absurd (omega arith)
invert_apart (suc (suc zero)) (suc zero) hi hi' hj hj' apart = (f4, refl)
invert_apart (suc (suc zero)) (suc (suc zero)) hi hi' hj hj' apart = absurd (apart refl)
invert_apart (suc (suc zero)) (suc (suc (suc zero))) hi hi' hj hj' apart = (f1, refl)
invert_apart (suc (suc zero)) (suc (suc (suc (suc j)))) hi hi' hj hj' apart = absurd (omega arith)
invert_apart (suc (suc (suc zero))) zero hi hi' hj hj' apart = absurd (omega arith)
invert_apart (suc (suc (suc zero))) (suc zero) hi hi' hj hj' apart = (f2, refl)
invert_apart (suc (suc (suc zero))) (suc (suc zero)) hi hi' hj hj' apart = (f4, refl)
invert_apart (suc (suc (suc zero))) (suc (suc (suc zero))) hi hi' hj hj' apart = absurd (apart refl)
invert_apart (suc (suc (suc zero))) (suc (suc (suc (suc j)))) hi hi' hj hj' apart =
    absurd (omega arith)
invert_apart (suc (suc (suc (suc i)))) j hi hi' hj hj' apart = absurd (omega arith)

instance abbrev pub five : Field Five
five = record {
  zero = f0;
  one = f1;
  add = add;
  mul = mul;
  neg = neg;
  invert = invert;
  from_u64 = λ n. of (n % 5);
  add_assoc = law3 (λ a b c. add (add a b) c) (λ a b c. add a (add b c)) refl;
  add_comm = law2 add (λ a b. add b a) refl;
  zero-add = law1 (add f0) (λ a. a) refl;
  add-neg = law1 (λ a. add a (neg a)) (λ _. f0) refl;
  mul_assoc = law3 (λ a b c. mul (mul a b) c) (λ a b c. mul a (mul b c)) refl;
  mul_comm = law2 mul (λ a b. mul b a) refl;
  one-mul = law1 (mul f1) (λ a. a) refl;
  mul-add = law3 (λ a b c. mul a (add b c)) (λ a b c. add (mul a b) (mul a c)) refl;
  invert_sound = invert_sound;
  invert_apart = invert_apart;
}

-- The share with the number n is the point at n of the line 3 + 2 x.
abbrev pub point_of : Bytes → Option (SharePoint Five)
point_of n = some (record { party_index = n; poly_point = of ((3 + 2 * n) % 5) })

abbrev first_share : KeyShare
first_share = record { party = 0; secret = 1 }

abbrev third_share : KeyShare
third_share = record { party = 2; secret = 3 }

first-IsPoint : IsPoint point_of f3 f2 1 first_share
first-IsPoint = record { decoded = refl; positive = omega arith; in_range = omega arith }

third-IsPoint : IsPoint point_of f3 f2 3 third_share
third-IsPoint = record { decoded = refl; positive = omega arith; in_range = omega arith }

row_at_first : reshare_row (λ n. ltb 0 n) point_of 0 first_share (0, 2) f1 ≡ ok (f1 ∷ f2 ∷ f3 ∷ [])
unfolding reshare_row lagrange_at_zero
row_at_first = refl

too_few : reconstruct point_of (first_share ∷ []) ≡ err (Error.invalid_party_count 2 1)
unfolding reconstruct
too_few = refl

one_twice : reconstruct point_of (first_share ∷ first_share ∷ []) ≡ err Error.backend
unfolding reconstruct traverse
one_twice = refl

reconstruct_pair_example : reconstruct point_of (first_share ∷ third_share ∷ []) ≡ ok f3
reconstruct_pair_example =
    reconstruct_pair point_of f3 f2 1 3 first_share third_share (omega arith) first-IsPoint
      third-IsPoint

reshare_keeps_secret_example :
    add_results point_of
      (reshare_row (λ n. ltb 0 n) point_of 0 first_share (0, 2) f1)
      (reshare_row (λ n. ltb 0 n) point_of 2 third_share (0, 2) f4)
    ≡ ok (row_of f3 f0)
reshare_keeps_secret_example =
    reshare_keeps_secret point_of (λ n. ltb 0 n) f3 f2 f1 f4 0 2 first_share third_share
      (λ n h _. ground arith) (omega arith) (omega arith) (omega arith) refl refl first-IsPoint
      third-IsPoint
