-- ===== src/Pool/Tests.antt =====
-- The theorems about the pool, at a pool of one buffer.
use spot_grid_bot.Base.{ℕ, ◌+◌, ◌-◌, ◌^◌, ◌≡◌, refl, true, false, [], ◌∷◌, arith}
use spot_grid_bot.Base.Dict.{lookup}
use spot_grid_bot.Orders.{Outcome}
use spot_grid_bot.Pool.{Pool, new_pool, is_exhausted, get_raw_buffer, release_buffer, init_buffers}
use spot_grid_bot.Pool.Chain.{times, range}
use spot_grid_bot.Pool.Live.{Reach, get_raw_buffer-fresh, all_returned_exhausted}

-- The buffer 0 is taken, then the address 9 of `malloc`, and both are returned.
abbrev one_taken : Pool
one_taken = (get_raw_buffer 1 8 (new_pool 1)).0

abbrev two_taken : Pool
two_taken = (get_raw_buffer 1 9 one_taken).0

abbrev all_returned : Pool
all_returned = release_buffer (release_buffer two_taken 9) 0

not_yet : is_exhausted 1 (new_pool 1) ≡ false
unfolding is_exhausted new_pool
not_yet = refl

one_is_all : is_exhausted 1 one_taken ≡ true
unfolding is_exhausted get_raw_buffer new_pool init_buffers lookup
one_is_all = refl

run_one : Reach 1 one_taken [] (0 ∷ []) 0
unfolding range
run_one = Reach.reuse 8 0 Reach.new not_yet

run_all : Reach 1 all_returned (0 ∷ 9 ∷ []) [] 1
run_all =
    Reach.release [] 0 []
      (Reach.release [] 9 (0 ∷ []) (Reach.heap 9 run_one one_is_all (ground arith)))

get_raw_buffer-fresh_example :
    (b : ℕ) × ((get_raw_buffer 1 9 one_taken).1 ≡ Outcome.returned b) × (times b (0 ∷ []) ≡ 0)
get_raw_buffer-fresh_example = get_raw_buffer-fresh 1 9 (ground arith) run_one (ground arith)

all_returned_exhausted_example :
    (all_returned.buffers_in_use ≡ 2 ^ 64 - 1) × (is_exhausted 1 all_returned ≡ true) × (2 ≡ 1 + 1)
all_returned_exhausted_example = all_returned_exhausted 1 (ground arith) run_all
