-- ===== src/Pool/Chain.antt =====
-- The linked list of free buffers of `BufferPool` of lib/utils/include/Utils/ObjectPool.h.
use spot_grid_bot.Base.{
  ℕ, zero, suc, ◌+◌, ◌≤◌, ◌<◌, ◌≡◌, refl, ap, subst, inl, inr, some, List, [], ◌∷◌, arith, ◌==◌,
  length, count, Bool-cases, ==→eq,
}
use spot_grid_bot.Base.Dict.{Dict, lookup, insert, erase, lookup-insert, lookup-erase}
use spot_grid_bot.Pool.{init_buffers}

-- From an address on the links lead through the buffers of a list to the end.
unfoldable pub IsChain : ℕ → ℕ → Dict ℕ → List ℕ → Type 0
IsChain end h d [] = h ≡ end
IsChain end h d (b ∷ l) = (h ≡ b) × (n : ℕ) × (lookup b d ≡ some n) × IsChain end n d l

-- How often an address stands in a list
abbrev pub times : ℕ → List ℕ → ℕ
times i l = count (λ j. j == i) l

pub insert-IsChain :
    (end h k v : ℕ) (d : Dict ℕ) (l : List ℕ)
    → times k l ≡ 0
    → IsChain end h d l
    → IsChain end h (insert k v d) l
unfolding IsChain
insert-IsChain end h k v d [] z c = c
insert-IsChain end h k v d (b ∷ l) z (e, n, f, c) = (
  e,
  n,
  ground (arith, z, f, lookup-insert b k v d),
  insert-IsChain end n k v d l (ground (arith, z)) c,
)

pub erase-IsChain :
    (end h k : ℕ) (d : Dict ℕ) (l : List ℕ)
    → times k l ≡ 0
    → IsChain end h d l
    → IsChain end h (erase k d) l
unfolding IsChain
erase-IsChain end h k d [] z c = c
erase-IsChain end h k d (b ∷ l) z (e, n, f, c) = (
  e,
  n,
  ground (arith, z, f, lookup-erase b k d),
  erase-IsChain end n k d l (ground (arith, z)) c,
)

cons-IsChain :
    (end h k v : ℕ) (d : Dict ℕ) (l : List ℕ)
    → times k l ≡ 0
    → IsChain end h d l
    → IsChain end h ((k, v) ∷ d) l
unfolding IsChain lookup
cons-IsChain end h k v d [] z c = c
cons-IsChain end h k v d (b ∷ l) z (e, n, f, c) =
    (e, n, ground (arith, z, f), cons-IsChain end n k v d l (ground (arith, z)) c)

-- The addresses from one on
unfoldable pub range : ℕ → ℕ → List ℕ
range offset zero = []
range offset (suc n) = offset ∷ range (suc offset) n

pub length-range : (offset n : ℕ) → length (range offset n) ≡ n
unfolding range
length-range offset zero = refl
length-range offset (suc n) = ap suc (length-range (suc offset) n)

pub times_before : (i offset n : ℕ) → i < offset → times i (range offset n) ≡ 0
unfolding range
times_before i offset zero h = refl
times_before i offset (suc n) h = ground (arith, times_before i (suc offset) n)

pub times-range : (i offset n : ℕ) → times i (range offset n) ≤ 1
unfolding range
times-range i offset zero = ground arith
times-range i offset (suc n) = elim (Bool-cases (offset == i)) [
  | inl e ↦ ground (arith, e, ==→eq offset i e, times_before i (suc offset) n)
  | inr e ↦ ground (arith, e, times-range i (suc offset) n)
]

-- `initBuffers` links the buffers of the block one after the other to the address behind it.
pub init_buffers-IsChain :
    (offset n : ℕ) → IsChain (offset + n) offset (init_buffers offset n) (range offset n)
unfolding IsChain init_buffers range lookup
init_buffers-IsChain offset zero = omega arith
init_buffers-IsChain offset (suc n) = (
  refl,
  suc offset,
  ground arith,
  cons-IsChain (offset + suc n) (suc offset) offset (suc offset) (init_buffers (suc offset) n)
      (range (suc offset) n) (times_before offset (suc offset) n (omega arith))
      (subst (λ e. IsChain e (suc offset) (init_buffers (suc offset) n) (range (suc offset) n))
        (omega arith) (init_buffers-IsChain (suc offset) n)),
)
