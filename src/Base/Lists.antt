-- ===== src/Base/Lists.antt =====
-- Lists measured and indexed by native numbers, and predicates on them.
use Prim.Native.Nat.{ℕ, zero, suc, ◌+◌, ◌≤◌, ◌<◌}
use mathlib.Core.Path.{◌≡◌, refl, ap}
use mathlib.Core.Logic.{◌≢◌}
use mathlib.Core.Bool.{Bool, false, not, ◌||◌}
use mathlib.Core.List.{List, [], ◌∷◌, ◌++◌}
use native.Mathlib.Omega.{arith}
use spot_grid_bot.Base.Tests.{◌==◌, if◌then◌else◌}

module _ {ℓ} {A : Type ℓ} where
  abbrev pub length : List A → ℕ
  length [] = 0
  length (a ∷ l) = suc (length l)

  abbrev pub get_or : List A → ℕ → A → A
  get_or [] i d = d
  get_or (a ∷ l) zero d = a
  get_or (a ∷ l) (suc i) d = get_or l i d

  abbrev pub set : List A → ℕ → A → List A
  set [] i v = []
  set (a ∷ l) zero v = v ∷ l
  set (a ∷ l) (suc i) v = a ∷ set l i v

  abbrev pub take : ℕ → List A → List A
  take zero l = []
  take (suc n) [] = []
  take (suc n) (a ∷ l) = a ∷ take n l

  -- The elements that pass a test, in order.
  abbrev pub keep : (A → Bool) → List A → List A
  keep p [] = []
  keep p (a ∷ l) = if p a then a ∷ keep p l else keep p l

  pub length-append : (l m : List A) → length (l ++ m) ≡ length l + length m
  length-append [] m = omega arith
  length-append (a ∷ l) m = omega (arith, length-append l m)

  pub keep-append : (p : A → Bool) (l m : List A) → keep p (l ++ m) ≡ keep p l ++ keep p m
  keep-append p [] m = refl
  keep-append p (a ∷ l) m = ground (arith, keep-append p l m)

  pub length-keep : (p : A → Bool) (l : List A) → length (keep p l) ≤ length l
  length-keep p [] = omega arith
  length-keep p (a ∷ l) = ground (arith, length-keep p l)

module _ {ℓ κ} {A : Type ℓ} where
  abbrev pub All : (A → Type κ) → List A → Type κ
  All P [] = Unit
  All P (a ∷ l) = P a × All P l

module _ {ℓ} {A : Type ℓ} where
  pub length-set : (l : List A) (i : ℕ) (v : A) → length (set l i v) ≡ length l
  length-set [] i v = refl
  length-set (a ∷ l) zero v = refl
  length-set (a ∷ l) (suc i) v = ap suc (length-set l i v)

  pub get_or-set_self : (l : List A) (i : ℕ) (v d : A) → i < length l → get_or (set l i v) i d ≡ v
  get_or-set_self [] i v d h = elim h [ ]
  get_or-set_self (a ∷ l) zero v d h = refl
  get_or-set_self (a ∷ l) (suc i) v d h = get_or-set_self l i v d (omega arith)

  pub get_or-set_ne :
      (l : List A) (i j : ℕ) (v d : A) → i ≢ j → get_or (set l i v) j d ≡ get_or l j d
  get_or-set_ne [] i j v d h = refl
  get_or-set_ne (a ∷ l) zero zero v d h = absurd (h refl)
  get_or-set_ne (a ∷ l) zero (suc j) v d h = refl
  get_or-set_ne (a ∷ l) (suc i) zero v d h = refl
  get_or-set_ne (a ∷ l) (suc i) (suc j) v d h = get_or-set_ne l i j v d (λ e. h (ap suc e))

-- Whether a list has a number
abbrev pub has : List ℕ → ℕ → Bool
has [] j = false
has (k ∷ l) j = (j == k) || has l j

pub has-keep :
    (k j : ℕ) (l : List ℕ)
    → has (keep (λ i. not (i == k)) l) j ≡ (if j == k then false else has l j)
has-keep k j [] = ground arith
has-keep k j (i ∷ l) = ground (arith, has-keep k j l)

module _ {ℓ} {A : Type ℓ} where
  -- How many elements pass a test
  abbrev pub count : (A → Bool) → List A → ℕ
  count p [] = 0
  count p (a ∷ l) = if p a then suc (count p l) else count p l

  pub count-append : (p : A → Bool) (l m : List A) → count p (l ++ m) ≡ count p l + count p m
  count-append p [] m = omega arith
  count-append p (a ∷ l) m = ground (arith, count-append p l m)
