-- ===== src/Core/Types.antt =====
-- crates/mpc-core/src/lib.rs, share.rs and session.rs, and the `Envelope` of protocol.rs.
use mpc_ext.Base.{
  All, ◌⊎◌, inl, inr, ℕ, ◌+◌, ◌≡◌, List, [], ◌∷◌, Option, none, some, Bool, true, false, ◌==◌, ltb,
  if◌then◌else◌, refl,
}

-- A byte string that is passed on whole.
abbrev pub Bytes : Type 0
Bytes = ℕ

abbrev pub threshold : ℕ
threshold = 2

abbrev pub total_parties : ℕ
total_parties = 3

-- A u8 below `total_parties`; the code does not enforce the bound.
abbrev pub PartyId : Type 0
PartyId = ℕ

-- session.rs, `enum Round`; the number is a u8.
pub data Round : Type 0 where
  init : Round
  round : ℕ → Round
  done : Round

-- `n.saturating_add(1)` on a u8.
unfoldable pub next : Round → Round
next init = round 1
next (round n) = round (if ltb n 255 then n + 1 else 255)
next done = done

-- The messages of `Backend` are left out.
pub data Error : Type 0 where
  unexpected_round : Round → Round → Error
  unknown_session : Error
  invalid_party_count : ℕ → ℕ → Error
  backend : Error

pub data Result {ℓ} (A : Type ℓ) : Type ℓ where
  ok : A → Result A
  err : Error → Result A

infixl 5 ◌>>=◌
abbrev pub ◌>>=◌ {ℓ κ} : {A : Type ℓ} {B : Type κ} → Result A → (A → Result B) → Result B
ok a >>= f = f a
err e >>= f = err e

-- `ok_or_else` with a backend error.
abbrev pub or_backend {ℓ} : {A : Type ℓ} → Option A → Result A
or_backend none = err backend
or_backend (some a) = ok a

abbrev pub is_ok {ℓ} : {A : Type ℓ} → Result A → Bool
is_ok (ok _) = true
is_ok (err _) = false

pub record KeyShare : Type 0 where
  pub party : PartyId
  pub secret : Bytes

pub record Envelope : Type 0 where
  pub round : ℕ
  pub from : PartyId
  pub to : Option PartyId
  pub payload : Bytes

-- `to` names this party, or is a broadcast.
abbrev pub is_for : PartyId → Option PartyId → Bool
is_for me none = true
is_for me (some target) = target == me

-- Each element in turn, until the first error.
unfoldable pub traverse {ℓ κ} :
    {A : Type ℓ} {B : Type κ} → (A → Result B) → List A → Result (List B)
traverse f [] = ok []
traverse f (x ∷ xs) = do y ← f x; ys ← traverse f xs; ok (y ∷ ys)

-- To split on a result and keep the equation.
pub Result-cases {ℓ} :
    {A : Type ℓ} (r : Result A) → ((a : A) × (r ≡ ok a)) ⊎ ((x : Error) × (r ≡ err x))
Result-cases (ok a) = inl (a, refl)
Result-cases (err x) = inr (x, refl)

-- `P` holds of the value that a result carries, if it carries one.
unfoldable pub Holds {ℓ κ} : {A : Type ℓ} → (A → Type κ) → Result A → Type κ
Holds P (ok a) = P a
Holds P (err _) = Unit

pub Holds-bind {ℓ κ μ ν} :
    {A : Type ℓ} {B : Type μ} (P : A → Type κ) (Q : B → Type ν) (r : Result A) (f : A → Result B)
    → Holds P r
    → ((a : A) → P a → Holds Q (f a))
    → Holds Q (r >>= f)
unfolding Holds
Holds-bind P Q (ok a) f h g = g a h
Holds-bind P Q (err x) f h g = tt

pub Holds-any {ℓ} : {A : Type ℓ} (r : Result A) → Holds (λ _. Unit {0}) r
unfolding Holds
Holds-any (ok a) = tt
Holds-any (err x) = tt

pub Holds-traverse {ℓ κ μ} :
    {A : Type ℓ} {B : Type κ} (P : B → Type μ) (f : A → Result B) (xs : List A)
    → ((x : A) → Holds P (f x))
    → Holds (All P) (traverse f xs)
unfolding Holds traverse
Holds-traverse P f [] h = tt
Holds-traverse P f (x ∷ xs) h =
    Holds-bind P (All P) (f x) (λ y. traverse f xs >>= (λ ys. ok (y ∷ ys))) (h x)
      (λ y a.
        Holds-bind (All P) (All P) (traverse f xs) (λ ys. ok (y ∷ ys)) (Holds-traverse P f xs h)
          (λ ys b. (a, b)))

pub Holds-then {ℓ κ μ} :
    {A : Type ℓ} {B : Type κ} (Q : B → Type μ) (r : Result A) (f : A → Result B)
    → ((a : A) → Holds Q (f a))
    → Holds Q (r >>= f)
unfolding Holds
Holds-then Q (ok a) f g = g a
Holds-then Q (err x) f g = tt
