-- ===== src/Core/Sign/Hex.antt =====
-- `hex` of crates/mpc-server/src/api.rs, which prints what `hex_into` of
-- crates/mpc-core/src/protocol.rs reads.
use mpc_ext.Base.{
  ℕ, ◌+◌, ◌*◌, ◌/◌, ◌%◌, ◌<◌, ◌≡◌, refl, List, [], ◌∷◌, some, All, arith, ltb, ◌==◌, if◌then◌else◌,
  length, false,
}
use mpc_ext.Core.Types.{ok}
use mpc_ext.Core.Sign.{hex_digit, hex_pair, hex_pairs, hex_into}

unfoldable pub hex_char : ℕ → ℕ
hex_char n = if ltb n 10 then 48 + n else 87 + n

unfoldable pub hex : List ℕ → List ℕ
unfolding hex_char
hex [] = []
hex (b ∷ bs) = hex_char (b / 16) ∷ hex_char (b % 16) ∷ hex bs

hex_digit-hex_char : (n : ℕ) → n < 16 → hex_digit (hex_char n) ≡ some n
unfolding hex_digit hex_char
hex_digit-hex_char n h = ground arith

hex_char_not_plus : (n : ℕ) → (hex_char n == 43) ≡ false
unfolding hex_char
hex_char_not_plus n = ground arith

hex_pair-hex_char : (b : ℕ) → b < 256 → hex_pair (hex_char (b / 16)) (hex_char (b % 16)) ≡ ok b
unfolding hex_pair
hex_pair-hex_char b h = ground (
  arith,
  hex_char_not_plus (b / 16),
  hex_digit-hex_char (b / 16) (omega arith),
  hex_digit-hex_char (b % 16) (omega arith),
)

hex_pairs-hex : (bs : List ℕ) → All (λ b. b < 256) bs → hex_pairs (hex bs) ≡ ok bs
unfolding hex_pairs hex
hex_pairs-hex [] h = refl
hex_pairs-hex (b ∷ bs) h = rw (hex_pair-hex_char b h.0, hex_pairs-hex bs h.1) refl

length-hex : (bs : List ℕ) → length (hex bs) ≡ 2 * length bs
unfolding hex
length-hex [] = refl
length-hex (b ∷ bs) = omega (arith, length-hex bs)

-- Reading what was printed: 32 bytes survive `hex` and then `hex_into`.
pub hex_into-hex :
    (bs : List ℕ) → length bs ≡ 32 → All (λ b. b < 256) bs → hex_into (hex bs) ≡ ok bs
unfolding hex_into
hex_into-hex bs n h =
    let e : length (hex bs) ≡ 64 = omega (arith, length-hex bs) in
    rw (hex_into, e) (hex_pairs-hex bs h)
