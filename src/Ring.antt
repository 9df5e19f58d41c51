-- ===== src/Ring.antt =====
-- `OneToOneQueue` of lib/utils/include/Utils/OneToOneQueue.hpp: a ring buffer of one producer and
-- one consumer. The steps of the two are taken one at a time, in any order.
pub mod Fifo
pub mod Tests
use spot_grid_bot.Base.{
  ℕ, ◌+◌, ◌-◌, Bool, true, false, Option, none, some, List, [], ◌∷◌, ◌==◌, ltb, leb, ◌||◌,
  if◌then◌else◌, get_or, set,
}

-- The buffer, the two indices and the shutdown flag
pub record Ring (T : Type 0) : Type 0 where
  pub buffer : List T
  pub ix_head : ℕ
  pub ix_tail : ℕ
  pub shutdown : Bool

module _ (max_count : ℕ) where
  -- `Inc` and `Dist`, with `size` one above `maxCount`
  abbrev pub inc : ℕ → ℕ
  inc ix = if ltb ix max_count then ix + 1 else 0

  abbrev pub dist : ℕ → ℕ → ℕ
  dist head tail = if leb head tail then tail - head else tail + (max_count + 1) - head

-- `blank` is what `{}` makes of a T.
module _ {T : Type 0} (max_count : ℕ) (blank : T) where
  -- `QueueSize`, `Empty` and `Full`
  abbrev pub queue_size : Ring T → ℕ
  queue_size r = dist max_count r.ix_head r.ix_tail

  abbrev pub empty : Ring T → Bool
  empty r = queue_size r == 0

  abbrev pub full : Ring T → Bool
  full r = queue_size r == max_count

  -- `Enqueue`
  unfoldable pub enqueue : Ring T → T → Ring T × Bool
  enqueue r value =
      if r.shutdown then (r, false) else if queue_size r == max_count then (r, false) else (
        record r { buffer = set r.buffer r.ix_tail value; ix_tail = inc max_count r.ix_tail },
        true,
      )

  -- `Dequeue`; none is the result false.
  unfoldable pub dequeue : Ring T → Ring T × Option T
  dequeue r = if queue_size r == 0 then (r, none) else (
    record r { buffer = set r.buffer r.ix_head blank; ix_head = inc max_count r.ix_head },
    some (get_or r.buffer r.ix_head blank),
  )

  -- `Dequeue(idx, ref)`
  unfoldable pub dequeue_at : Ring T → ℕ → Ring T × Option T
  dequeue_at r idx =
      if empty r || ltb max_count idx
      then (r, none)
      else (record r { buffer = set r.buffer idx blank }, some (get_or r.buffer idx blank))

  -- `Insert`
  unfoldable pub insert_at : Ring T → ℕ → T → Ring T × Bool
  insert_at r idx value =
      if ltb max_count idx then (r, false) else (record r { buffer = set r.buffer idx value }, true)
