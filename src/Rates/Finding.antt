-- ===== src/Rates/Finding.antt =====
-- What `find`, `emplace` and an assignment do to a map whose keys are valid pairs.
use spot_grid_bot.Base.{
  ◌≡◌, ◌∙◌, refl, ap, inl, inr, Bool, true, false, Option, none, some, List, [], ◌∷◌, arith,
  if◌then◌else◌, Bool-cases, All, subst,
}
use spot_grid_bot.Instrument.{CurrencyPair, pair_valid, pair_lt, pair_lt_keys}
use spot_grid_bot.Rates.{same_key, find_at, emplace_at, assign_at}

abbrev pub IsValidPair : CurrencyPair → Type 0
IsValidPair cp = pair_valid cp ≡ true

pub same_key_refl : (k : CurrencyPair) → same_key k k ≡ true
unfolding same_key pair_lt pair_valid
same_key_refl k = ground arith

pub same_key→eq : (a b : CurrencyPair) → IsValidPair a → IsValidPair b → same_key a b ≡ true → a ≡ b
unfolding same_key
same_key→eq a b va vb h = (pair_lt_keys a b va vb).0 (ground arith)

pub same_key_trans :
    (a b c : CurrencyPair)
    → IsValidPair a
    → IsValidPair b
    → same_key a b ≡ true
    → same_key a c ≡ same_key b c
same_key_trans a b c va vb h = ap (λ k. same_key k c) (same_key→eq a b va vb h)

pub same_key_sym : (a b : CurrencyPair) → same_key a b ≡ same_key b a
unfolding same_key
same_key_sym a b = ground arith

keys_apart :
    (i cp j : CurrencyPair)
    → IsValidPair i
    → IsValidPair cp
    → IsValidPair j
    → same_key i cp ≡ false
    → same_key i j ≡ true
    → same_key cp j ≡ true
    → ⊥
keys_apart i cp j vi vc vj h e f =
    let g : same_key i cp ≡ true = ap (same_key i) (same_key→eq cp j vc vj f) ∙ e in cc

module _ {ℓ} {V : Type ℓ} where
  some-injective : (w v : V) → some w ≡ some v → w ≡ v
  some-injective w v e = cc

  same_test :
      (p q : Bool)
      → p ≡ q
      → (x y z : Option V) → (if p then x else z) ≡ (if q then x else if p then y else z)
  same_test p q e x y z = ground arith

  -- Every key is a valid pair.
  abbrev pub KeysValid : List (CurrencyPair × V) → Type 0
  KeysValid m = All (λ e. IsValidPair e.0) m

  -- An entry that is found makes the predicate on entries hold of what is found.
  pub All-find_at {κ} :
      (P : CurrencyPair × V → Type κ) (m : List (CurrencyPair × V)) (cp : CurrencyPair) (v : V)
      → All P m
      → KeysValid m
      → IsValidPair cp
      → find_at cp m ≡ some v
      → P (cp, v)
  unfolding find_at
  All-find_at P [] cp v a k c e = cc
  All-find_at P ((j, w) ∷ m) cp v a k c e = elim (Bool-cases (same_key j cp)) [
    | inl same ↦
        subst P
          (ap (λ i. (i, w)) (same_key→eq j cp k.0 c same)
            ∙ ap (λ x. (cp, x)) (some-injective w v (rw same at e)))
          a.0
    | inr other ↦ All-find_at P m cp v a.1 k.1 c (rw other at e)
  ]

  pub All-emplace_at {κ} :
      (P : CurrencyPair × V → Type κ) (m : List (CurrencyPair × V)) (cp : CurrencyPair) (v : V)
      → P (cp, v)
      → All P m
      → All P (emplace_at cp v m)
  unfolding emplace_at
  All-emplace_at P [] cp v p a = (p, tt)
  All-emplace_at P ((j, w) ∷ m) cp v p a = elim (Bool-cases (same_key j cp)) [
    | inl same ↦ rw same a
    | inr other ↦ elim (Bool-cases (pair_lt cp j)) [
      | inl below ↦ rw (other, below) (p, a)
      | inr above ↦ rw (other, above) (a.0, All-emplace_at P m cp v p a.1)
    ]
  ]

  pub KeysValid-assign_at :
      (m : List (CurrencyPair × V)) (cp : CurrencyPair) (v : V)
      → KeysValid m
      → KeysValid (assign_at cp v m)
  unfolding assign_at
  KeysValid-assign_at [] cp v a = tt
  KeysValid-assign_at ((j, w) ∷ m) cp v a = elim (Bool-cases (same_key j cp)) [
    | inl same ↦ rw same a
    | inr other ↦ rw other (a.0, KeysValid-assign_at m cp v a.1)
  ]

  -- Tests that do not both hold can be made in either order.
  swap_tests :
      (p q : Bool) (x y z : Option V)
      → ((p ≡ true) → (q ≡ true) → ⊥)
      → (if p then x else if q then y else z) ≡ (if q then y else if p then x else z)
  swap_tests true true x y z h = absurd (h refl refl)
  swap_tests true false x y z h = refl
  swap_tests false q x y z h = refl

  -- What is found after an `emplace` of a pair that was not there
  pub find_at-emplace_at :
      (m : List (CurrencyPair × V)) (cp j : CurrencyPair) (v : V)
      → KeysValid m
      → IsValidPair cp
      → IsValidPair j
      → find_at cp m ≡ none
      → find_at j (emplace_at cp v m) ≡ (if same_key cp j then some v else find_at j m)
  unfolding find_at emplace_at
  find_at-emplace_at [] cp j v k c vj h = refl
  find_at-emplace_at ((i, w) ∷ m) cp j v k c vj h = elim (Bool-cases (same_key i cp)) [
    | inl same ↦ cc (rw same at h)
    | inr other ↦ elim (Bool-cases (pair_lt cp i)) [
      | inl below ↦ rw (other, below) refl
      | inr above ↦
          rw (other, above, find_at-emplace_at m cp j v k.1 c vj (rw other at h))
            (swap_tests (same_key i j) (same_key cp j) (some w) (some v) (find_at j m)
              (keys_apart i cp j k.0 c vj other))
    ]
  ]

  -- What is found after an assignment to a pair that is there
  pub find_at-assign_at :
      (m : List (CurrencyPair × V)) (cp j : CurrencyPair) (v w : V)
      → KeysValid m
      → IsValidPair cp
      → IsValidPair j
      → find_at cp m ≡ some w
      → find_at j (assign_at cp v m) ≡ (if same_key cp j then some v else find_at j m)
  unfolding find_at assign_at
  find_at-assign_at [] cp j v w k c vj h = cc
  find_at-assign_at ((i, u) ∷ m) cp j v w k c vj h = elim (Bool-cases (same_key i cp)) [
    | inl same ↦ rw same (
        same_test (same_key i j) (same_key cp j) (same_key_trans i cp j k.0 c same) (some v)
          (some u) (find_at j m))
    | inr other ↦
        rw (other, find_at-assign_at m cp j v w k.1 c vj (rw other at h))
          (swap_tests (same_key i j) (same_key cp j) (some u) (some v) (find_at j m)
            (keys_apart i cp j k.0 c vj other))
  ]
