-- ===== src/Pool.antt =====
-- `BufferPool` and `ObjectPool` of lib/utils/include/Utils/ObjectPool.h, from which the quotes come: a
-- block of buffers whose free ones are linked through their own memory. An address is a number,
-- the n-th buffer of the block n; the address behind the block is the capacity. What `malloc`
-- returns is an argument.
pub mod Chain
pub mod Live
pub mod Tests
use spot_grid_bot.Base.{
  ℕ, zero, suc, ◌+◌, ◌-◌, ◌%◌, ◌^◌, Bool, true, false, Option, none, some, List, [], ◌∷◌, ◌==◌, leb,
  if◌then◌else◌,
}
use spot_grid_bot.Base.Dict.{Dict, lookup, insert, erase}
use spot_grid_bot.Orders.{Outcome}

-- `m_freeList`, the links in the free buffers, and `m_buffersInUse` of 64 bits
pub record Pool : Type 0 where
  pub free_list : ℕ
  pub links : Dict ℕ
  pub buffers_in_use : ℕ

-- The loop of `initBuffers` over the last n offsets before the end of the block
unfoldable pub init_buffers : ℕ → ℕ → Dict ℕ
init_buffers offset zero = []
init_buffers offset (suc n) = (offset, suc offset) ∷ init_buffers (suc offset) n

-- The constructor
unfoldable pub new_pool : ℕ → Pool
unfolding init_buffers
new_pool capacity = record { free_list = 0; links = init_buffers 0 capacity; buffers_in_use = 0 }

-- `isExhausted`
unfoldable pub is_exhausted : ℕ → Pool → Bool
is_exhausted capacity p = leb capacity p.buffers_in_use

-- `getRawBuffer`: an address that is no free buffer has no link to read. The buffer then belongs
-- to the caller, who writes over its link.
unfoldable pub get_raw_buffer : ℕ → ℕ → Pool → Pool × Outcome ℕ
unfolding is_exhausted
get_raw_buffer capacity malloc p =
    if is_exhausted capacity p
    then (p, Outcome.returned malloc)
    else elim (lookup p.free_list p.links) [
      | none ↦ (p, Outcome.undefined)
      | some next ↦ (
        record {
          free_list = next;
          links = erase p.free_list p.links;
          buffers_in_use = suc p.buffers_in_use % 2 ^ 64;
        },
        Outcome.returned p.free_list,
      )
    ]

-- `releaseBuffer`, which the deleter of every object calls
unfoldable pub release_buffer : Pool → ℕ → Pool
release_buffer p buffer = record {
  free_list = buffer;
  links = insert buffer p.free_list p.links;
  buffers_in_use = (p.buffers_in_use + (2 ^ 64 - 1)) % 2 ^ 64;
}
