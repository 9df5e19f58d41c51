-- ===== src/Pool/Live.antt =====
-- Which buffers of a pool of lib/utils/include/Utils/ObjectPool.h are in use, and what its count says.
use spot_grid_bot.Base.{
  ℕ, suc, ◌+◌, ◌-◌, ◌%◌, ◌^◌, ◌≤◌, ◌<◌, ◌≡◌, refl, sym, ap, subst, inl, inr, true, false, some,
  List, [], ◌∷◌, ◌++◌, arith, ◌==◌, if◌then◌else◌, length, length-append, count-append, Bool-cases,
  ==→eq,
}
use spot_grid_bot.Base.Dict.{lookup, erase, lookup-insert}
use spot_grid_bot.Orders.{Outcome}
use spot_grid_bot.Pool.{Pool, init_buffers, new_pool, is_exhausted, get_raw_buffer, release_buffer}
use spot_grid_bot.Pool.Chain.{
  IsChain, times, insert-IsChain, erase-IsChain, range, length-range, times-range,
  init_buffers-IsChain,
}

module _ (capacity : ℕ) where
  -- A pool from its construction on, with the free buffers, those in use, and how many of these
  -- two came from `malloc`, which returns no address that is one of them. A buffer is released
  -- once.
  pub data Reach : Pool → List ℕ → List ℕ → ℕ → Type 0 where
    new : Reach (new_pool capacity) (range 0 capacity) [] 0
    reuse :
        {p : Pool} {free live : List ℕ} {k : ℕ} (malloc b : ℕ)
        → Reach p (b ∷ free) live k
        → is_exhausted capacity p ≡ false
        → Reach (get_raw_buffer capacity malloc p).0 free (b ∷ live) k
    heap :
        {p : Pool} {free live : List ℕ} {k : ℕ} (malloc : ℕ)
        → Reach p free live k
        → is_exhausted capacity p ≡ true
        → times malloc free + times malloc live ≡ 0
        → Reach (get_raw_buffer capacity malloc p).0 free (malloc ∷ live) (suc k)
    release :
        {p : Pool} {free : List ℕ} {k : ℕ} (l : List ℕ) (b : ℕ) (r : List ℕ)
        → Reach p free (l ++ (b ∷ r)) k
        → Reach (release_buffer p b) (b ∷ free) (l ++ r) k

  -- The links lead through the free buffers; no buffer is twice free or in use, nor both; each
  -- buffer of the block and each from `malloc` is free or in use; the count and the number of
  -- free buffers make up the capacity, in 64 bits.
  unfoldable pub IsSafe : Pool → List ℕ → List ℕ → ℕ → Type 0
  IsSafe p free live k =
      IsChain capacity p.free_list p.links free
      × ((i : ℕ) → times i free + times i live ≤ 1)
      × (length free + length live ≡ capacity + k)
      × ((p.buffers_in_use + length free) % 2 ^ 64 ≡ capacity)
      × (p.buffers_in_use < 2 ^ 64)

  new-IsSafe : capacity < 2 ^ 64 → IsSafe (new_pool capacity) (range 0 capacity) [] 0
  unfolding IsSafe new_pool
  new-IsSafe h = (
    subst (λ e. IsChain e 0 (init_buffers 0 capacity) (range 0 capacity)) (omega arith)
        (init_buffers-IsChain 0 capacity),
    (λ i. ground (arith, times-range i 0 capacity)),
    ground (arith, length-range 0 capacity),
    ground (arith, length-range 0 capacity),
    ground arith,
  )

  -- The pool after the first free buffer is taken off, with the rest of its list
  abbrev taken : Pool → ℕ → ℕ → Pool
  taken p b n = record {
    free_list = n;
    links = erase b p.links;
    buffers_in_use = suc p.buffers_in_use % 2 ^ 64;
  }

  taken-IsSafe :
      (p : Pool) (b n : ℕ) (free live : List ℕ) (k : ℕ)
      → p.buffers_in_use < capacity
      → capacity < 2 ^ 64
      → IsChain capacity n p.links free
      → IsSafe p (b ∷ free) live k
      → IsSafe (taken p b n) free (b ∷ live) k
  unfolding IsSafe
  taken-IsSafe p b n free live k e small c (_, one, all, sum, le) =
      let once : times b free ≡ 0 = ground (arith, one b) in
      (
        erase-IsChain capacity n b p.links free once c,
        (λ i. ground (arith, one i)),
        ground (arith, all),
        omega (arith, sum, le),
        omega arith,
      )

  get_raw_buffer-taken :
      (p : Pool) (malloc b n : ℕ)
      → is_exhausted capacity p ≡ false
      → p.free_list ≡ b
      → lookup b p.links ≡ some n
      → get_raw_buffer capacity malloc p ≡ (taken p b n, Outcome.returned b)
  unfolding get_raw_buffer
  get_raw_buffer-taken p malloc b n e h f = ground arith

  reuse-IsSafe :
      (p : Pool) (malloc b : ℕ) (free live : List ℕ) (k : ℕ)
      → capacity < 2 ^ 64
      → is_exhausted capacity p ≡ false
      → IsSafe p (b ∷ free) live k
      → IsSafe (get_raw_buffer capacity malloc p).0 free (b ∷ live) k
        × ((get_raw_buffer capacity malloc p).1 ≡ Outcome.returned b)
  unfolding IsSafe is_exhausted IsChain
  reuse-IsSafe p malloc b free live k small e ((h, n, f, c), one, all, sum, le) =
      subst (λ x. IsSafe x.0 free (b ∷ live) k × (x.1 ≡ Outcome.returned b))
        (sym (get_raw_buffer-taken p malloc b n e h f))
        (
          taken-IsSafe p b n free live k (ground (arith, e)) small c
              ((h, n, f, c), one, all, sum, le),
          refl,
        )

  get_raw_buffer-exhausted :
      (p : Pool) (malloc : ℕ)
      → is_exhausted capacity p ≡ true
      → get_raw_buffer capacity malloc p ≡ (p, Outcome.returned malloc)
  unfolding get_raw_buffer
  get_raw_buffer-exhausted p malloc e = ground arith

  heap-IsSafe :
      (p : Pool) (malloc : ℕ) (free live : List ℕ) (k : ℕ)
      → is_exhausted capacity p ≡ true
      → times malloc free + times malloc live ≡ 0
      → IsSafe p free live k
      → IsSafe (get_raw_buffer capacity malloc p).0 free (malloc ∷ live) (suc k)
        × ((get_raw_buffer capacity malloc p).1 ≡ Outcome.returned malloc)
  unfolding IsSafe
  heap-IsSafe p malloc free live k e fresh (c, one, all, sum, le) =
      subst (λ x. IsSafe x.0 free (malloc ∷ live) (suc k) × (x.1 ≡ Outcome.returned malloc))
        (sym (get_raw_buffer-exhausted p malloc e))
        (
          (
            c,
            (λ i. elim (Bool-cases (malloc == i)) [
              | inl q ↦ ground (arith, one i, fresh, q, ==→eq malloc i q)
              | inr q ↦ ground (arith, one i, q)
            ]),
            ground (arith, all),
            sum,
            le,
          ),
          refl,
        )

  release-IsSafe :
      (p : Pool) (b : ℕ) (free l r : List ℕ) (k : ℕ)
      → IsSafe p free (l ++ (b ∷ r)) k
      → IsSafe (release_buffer p b) (b ∷ free) (l ++ r) k
  unfolding IsSafe release_buffer IsChain
  release-IsSafe p b free l r k (c, one, all, sum, le) =
      let split : (i : ℕ) → times i (l ++ (b ∷ r)) ≡ times i (l ++ r) + (if b == i then 1 else 0) =
        λ i. ground (arith, count-append (λ j. j == i) l (b ∷ r), count-append (λ j. j == i) l r) in
      (
        (
          refl,
          p.free_list,
          ground (arith, lookup-insert b b p.free_list p.links),
          insert-IsChain capacity p.free_list b p.free_list p.links free
              (ground (arith, one b, split b)) c,
        ),
        (λ i. ground (arith, one i, split i)),
        ground (arith, all, length-append l (b ∷ r), length-append l r),
        omega (arith, sum, le),
        omega arith,
      )

  Reach-IsSafe :
      {p : Pool} {free live : List ℕ} {k : ℕ}
      → capacity < 2 ^ 64
      → Reach p free live k
      → IsSafe p free live k
  Reach-IsSafe small new = new-IsSafe small
  Reach-IsSafe small (reuse {p = p} {free = free} {live = live} {k = k} malloc b r e) =
      (reuse-IsSafe p malloc b free live k small e (Reach-IsSafe small r)).0
  Reach-IsSafe small (heap {p = p} {free = free} {live = live} {k = k} malloc r e fresh) =
      (heap-IsSafe p malloc free live k e fresh (Reach-IsSafe small r)).0
  Reach-IsSafe small (release {p = p} {free = free} {k = k} l b r x) =
      release-IsSafe p b free l r k (Reach-IsSafe small x)

  -- A pool that is not exhausted has a free buffer.
  not_exhausted :
      (p : Pool) (free live : List ℕ) (k : ℕ)
      → is_exhausted capacity p ≡ false
      → IsSafe p free live k
      → (b : ℕ) × (rest : List ℕ) × (free ≡ b ∷ rest)
  unfolding IsSafe is_exhausted
  not_exhausted p [] live k e (c, one, all, sum, le) = absurd (ground (arith, e, sum, le))
  not_exhausted p (b ∷ rest) live k e h = (b, rest, refl)

  fresh_of :
      (p : Pool) (malloc : ℕ) (free live : List ℕ) (k b : ℕ) (rest : List ℕ)
      → capacity < 2 ^ 64
      → is_exhausted capacity p ≡ false
      → free ≡ b ∷ rest
      → IsSafe p free live k
      → (c : ℕ) × ((get_raw_buffer capacity malloc p).1 ≡ Outcome.returned c) × (times c live ≡ 0)
  unfolding IsSafe
  fresh_of p malloc free live k b rest small e f (c, one, all, sum, le) =
      let h : IsSafe p (b ∷ rest) live k =
        subst (λ l. IsSafe p l live k) f (c, one, all, sum, le) in
      (b, (reuse-IsSafe p malloc b rest live k small e h).1, ground (arith, one b, ap (times b) f))

  -- Whatever was taken and released before, also when the block was exhausted, `getRawBuffer` has
  -- defined behaviour and returns a buffer that is not in use. The capacity is below 2^64, and
  -- `malloc` returns no address of the pool's buffers.
  pub get_raw_buffer-fresh :
      {p : Pool} {free live : List ℕ} {k : ℕ} (malloc : ℕ)
      → capacity < 2 ^ 64
      → Reach p free live k
      → times malloc free + times malloc live ≡ 0
      → (b : ℕ) × ((get_raw_buffer capacity malloc p).1 ≡ Outcome.returned b) × (times b live ≡ 0)
  get_raw_buffer-fresh {p = p} {free = free} {live = live} {k = k} malloc small r fresh =
      let h = Reach-IsSafe small r in
      elim (Bool-cases (is_exhausted capacity p)) [
        | inl e ↦ (malloc, (heap-IsSafe p malloc free live k e fresh h).1, omega (arith, fresh))
        | inr e ↦
            let (b, rest, f) = not_exhausted p free live k e h in
            fresh_of p malloc free live k b rest small e f h
      ]

  -- A pool to which everything was returned, when some of its buffers came from `malloc`, counts
  -- below zero: with the number of these, in 64 bits. So it is exhausted though all of its buffers
  -- are free.
  pub all_returned_exhausted :
      {p : Pool} {free : List ℕ} {k : ℕ}
      → capacity + suc k < 2 ^ 64
      → Reach p free [] (suc k)
      → (p.buffers_in_use ≡ 2 ^ 64 - suc k)
        × (is_exhausted capacity p ≡ true)
        × (length free ≡ capacity + suc k)
  unfolding IsSafe is_exhausted
  all_returned_exhausted {p = p} {free = free} {k = k} small r =
      let (c, one, all, sum, le) = Reach-IsSafe (omega (arith, small)) r in
      let count_is : p.buffers_in_use ≡ 2 ^ 64 - suc k = omega (arith, all, sum, le, small) in
      (count_is, ground (arith, count_is, small), omega (arith, all))
