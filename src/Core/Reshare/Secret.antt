-- ===== src/Core/Reshare/Secret.antt =====
-- The wallet's secret across a reshare of crates/mpc-core/src/protocol.rs.
use mpc_ext.Base.{
  ℕ, ◌+◌, ◌%◌, ◌≡◌, ◌≢◌, ◌≤◌, ◌<◌, ◌∙◌, sym, ap, refl, List, [], ◌∷◌, Option, some, Bool, true,
  false, ◌==◌, leb, arith,
}
use mpc_ext.Core.Types.{Bytes, PartyId, Result, ok, ◌>>=◌, KeyShare, traverse}
use mpc_ext.Core.Field.{
  Field, ◌⊕◌, ◌⊗◌, ◌⊖◌, line, interpolate, add_left_comm, mul_left_comm, add-mul,
}
use mpc_ext.Core.Reshare.{
  SharePoint, weight, lagrange_at_zero, row_of, own_row, reshare_row, index_of, products,
  interpolate_all, repeats, contains, reconstruct,
}

module _ {A : Type 0} ⦃f : Field A⦄ (decode : Bytes → Option (SharePoint A)) where
  -- The share decodes to the point at `index` of the line with constant `secret`.
  pub record IsPoint (secret slope : A) (index : ℕ) (share : KeyShare) : Type 0 where
    pub decoded :
        decode share.secret
        ≡ some (record { party_index = index; poly_point = line secret slope (f.from_u64 index) })
    pub positive : 0 < index
    pub in_range : index ≤ 3

  sum_pair :
      (p q m n e e' : A)
      → ((p ⊗ (f.one ⊗ m)) ⊗ e) ⊕ ((q ⊗ (f.one ⊗ n)) ⊗ e') ≡ ((m ⊗ e) ⊗ p) ⊕ ((n ⊗ e') ⊗ q)
  sum_pair p q m n e e' = simp (f.one-mul, f.mul_assoc, mul_left_comm, f.mul_comm)

  interpolate_two :
      (i j : ℕ) (p q e e' : A)
      → f.invert (f.from_u64 j ⊖ f.from_u64 i) ≡ some e
      → f.invert (f.from_u64 i ⊖ f.from_u64 j) ≡ some e'
      → interpolate_all f.zero [] (
          record { party_index = i; poly_point = p }
          ∷ record { party_index = j; poly_point = q }
          ∷ [])
        ≡ ok (((f.from_u64 j ⊗ e) ⊗ p) ⊕ ((f.from_u64 i ⊗ e') ⊗ q))
  unfolding interpolate_all products
  interpolate_two i j p q e e' he hf =
      rw (f.one-mul (f.from_u64 j ⊖ f.from_u64 i), he, f.one-mul (f.from_u64 i ⊖ f.from_u64 j), hf)
        (ap ok (
          ap (λ y. y ⊕ ((q ⊗ (f.one ⊗ f.from_u64 i)) ⊗ e')) (f.zero-add _)
          ∙ sum_pair p q (f.from_u64 j) (f.from_u64 i) e e'))

  differ : (i j : ℕ) → i ≢ j → repeats (i ∷ j ∷ []) ≡ false
  unfolding repeats contains
  differ i j h = ground arith

  -- Any two shares that are points of one line reconstruct its constant.
  pub reconstruct_pair :
      (secret slope : A) (i j : ℕ) (s t : KeyShare)
      → i ≢ j
      → IsPoint secret slope i s
      → IsPoint secret slope j t
      → reconstruct decode (s ∷ t ∷ []) ≡ ok secret
  unfolding reconstruct traverse
  reconstruct_pair secret slope i j s t apart ps pt =
      let (e, he) = f.invert_apart i j ps.positive ps.in_range pt.positive pt.in_range apart in
      let (e', hf) =
        f.invert_apart j i pt.positive pt.in_range ps.positive ps.in_range (λ h. apart (sym h)) in
      rw (ps.decoded, pt.decoded, differ i j apart)
        (interpolate_two i j (line secret slope (f.from_u64 i)) (line secret slope (f.from_u64 j)) e
            e' he hf
          ∙ ap ok (
              interpolate secret slope (f.from_u64 i) (f.from_u64 j) e e' (f.invert_sound _ e he)
                (f.invert_sound _ e' hf)))

  -- Two rows, entry by entry.
  unfoldable pub add_rows : List A → List A → List A
  add_rows (p ∷ ps) (q ∷ qs) = (p ⊕ q) ∷ add_rows ps qs
  add_rows _ _ = []

  add_interchange : (a b c d : A) → (a ⊕ b) ⊕ (c ⊕ d) ≡ (a ⊕ c) ⊕ (b ⊕ d)
  add_interchange a b c d = simp (f.add_assoc, add_left_comm)

  add_lines : (c d x y k : A) → line c x k ⊕ line d y k ≡ line (c ⊕ d) (x ⊕ y) k
  add_lines c d x y k =
      add_interchange c (x ⊗ k) d (y ⊗ k) ∙ ap (λ z. (c ⊕ d) ⊕ z) (sym (add-mul x y k))

  add_rows-row_of : (c d x y : A) → add_rows (row_of c x) (row_of d y) ≡ row_of (c ⊕ d) (x ⊕ y)
  unfolding add_rows row_of
  add_rows-row_of c d x y =
      rw
        (
          add_lines c d x y (f.from_u64 1),
          add_lines c d x y (f.from_u64 2),
          add_lines c d x y (f.from_u64 3),
        )
        refl

  index_of_small :
      (is_index : ℕ → Bool) (a : PartyId)
      → ((n : ℕ) → 0 < n → n ≤ 3 → is_index n ≡ true)
      → a < 3
      → index_of is_index a ≡ ok (a + 1)
  unfolding index_of
  index_of_small is_index a valid h =
      let e : (a + 1) % 256 ≡ a + 1 = omega arith in
      rw (e, valid (a + 1) (omega arith) (omega arith)) refl

  weight_value :
      (is_index : ℕ → Bool) (e : A) (a b : PartyId)
      → ((n : ℕ) → 0 < n → n ≤ 3 → is_index n ≡ true)
      → a < 3
      → b < 3
      → f.invert (f.from_u64 (b + 1) ⊖ f.from_u64 (a + 1)) ≡ some e
      → weight is_index a b ≡ ok (f.from_u64 (b + 1) ⊗ e)
  unfolding weight
  weight_value is_index e a b valid ha hb he =
      rw (index_of_small is_index a valid ha, index_of_small is_index b valid hb, he) refl

  same : (n : ℕ) → (n == n) ≡ true
  same n = ground arith

  -- The row that a survivor deals, from its coefficient.
  survivor_row :
      (is_index : ℕ → Bool) (x c p : A) (a : PartyId) (pair : PartyId × PartyId) (s : KeyShare)
      → ((n : ℕ) → 0 < n → n ≤ 3 → is_index n ≡ true)
      → a < 3
      → s.party ≡ a
      → decode s.secret ≡ some (record { party_index = a + 1; poly_point = p })
      → lagrange_at_zero is_index a pair ≡ ok c
      → reshare_row is_index decode a s pair x ≡ ok (row_of (c ⊗ p) x)
  unfolding reshare_row own_row
  survivor_row is_index x c p a pair s valid ha own decoded lag =
      rw (own, same a, decoded, index_of_small is_index a valid ha, same (a + 1), lag) refl

  first_weight :
      (is_index : ℕ → Bool) (a b : PartyId)
      → a < 3
      → b < 3
      → a ≢ b
      → lagrange_at_zero {A = A} is_index a (a, b) ≡ weight is_index a b
  unfolding lagrange_at_zero
  first_weight is_index a b ha hb apart =
      let d : (a == b) ≡ false = ground arith in
      let la : leb 3 a ≡ false = ground arith in
      let lb : leb 3 b ≡ false = ground arith in rw (d, la, lb, same a) refl

  second_weight :
      (is_index : ℕ → Bool) (a b : PartyId)
      → a < 3
      → b < 3
      → a ≢ b
      → lagrange_at_zero {A = A} is_index b (a, b) ≡ weight is_index b a
  unfolding lagrange_at_zero
  second_weight is_index a b ha hb apart =
      let d : (a == b) ≡ false = ground arith in
      let d' : (b == a) ≡ false = ground arith in
      let la : leb 3 a ≡ false = ground arith in
      let lb : leb 3 b ≡ false = ground arith in rw (d, la, lb, d', same b) refl

  abbrev pub add_results : Result (List A) → Result (List A) → Result (List A)
  add_results r s = do p ← r; q ← s; ok (add_rows p q)

  -- What the two survivors deal with their old shares and fresh slopes sums up, entry by entry, to a
  -- row of points of a new line that has the same constant: the reshare keeps the wallet's secret.
  -- The two are different parties below 3, their shares are points of one line, and the indices 1 to 3
  -- are valid.
  pub reshare_keeps_secret :
      (is_index : ℕ → Bool) (secret slope x y : A) (a b : PartyId) (s t : KeyShare)
      → ((n : ℕ) → 0 < n → n ≤ 3 → is_index n ≡ true)
      → a < 3
      → b < 3
      → a ≢ b
      → s.party ≡ a
      → t.party ≡ b
      → IsPoint secret slope (a + 1) s
      → IsPoint secret slope (b + 1) t
      → add_results
          (reshare_row is_index decode a s (a, b) x)
          (reshare_row is_index decode b t (a, b) y)
        ≡ ok (row_of secret (x ⊕ y))
  reshare_keeps_secret is_index secret slope x y a b s t valid ha hb apart own_s own_t ps pt =
      let (e, he) =
        f.invert_apart (a + 1) (b + 1) ps.positive ps.in_range pt.positive pt.in_range
          (omega arith) in
      let (e', hf) =
        f.invert_apart (b + 1) (a + 1) pt.positive pt.in_range ps.positive ps.in_range
          (omega arith) in
      rw
        (
          survivor_row is_index x (f.from_u64 (b + 1) ⊗ e) (line secret slope (f.from_u64 (a + 1)))
              a (a, b) s valid ha own_s ps.decoded
              (first_weight is_index a b ha hb apart ∙ weight_value is_index e a b valid ha hb he),
          survivor_row is_index y (f.from_u64 (a + 1) ⊗ e') (line secret slope (f.from_u64 (b + 1)))
              b (a, b) t valid hb own_t pt.decoded
              (second_weight is_index a b ha hb apart
                ∙ weight_value is_index e' b a valid hb ha hf),
        )
        (ap ok (
          add_rows-row_of ((f.from_u64 (b + 1) ⊗ e) ⊗ line secret slope (f.from_u64 (a + 1)))
            ((f.from_u64 (a + 1) ⊗ e') ⊗ line secret slope (f.from_u64 (b + 1))) x y
          ∙ ap (λ c. row_of c (x ⊕ y))
              (interpolate secret slope (f.from_u64 (a + 1)) (f.from_u64 (b + 1)) e e'
                (f.invert_sound _ e he) (f.invert_sound _ e' hf))))
