-- ===== src/Ring/Fifo.antt =====
-- The ring buffer of lib/utils/include/Utils/OneToOneQueue.hpp against a list: a bounded queue,
-- first in, first out.
use spot_grid_bot.Base.{
  ℕ, zero, suc, ◌≡◌, ◌≢◌, ◌<◌, ◌≤◌, ◌+◌, refl, inl, inr, true, false, not, ◌&&◌, ◌⊎◌, Option, none,
  some, List, [], ◌∷◌, ◌++◌, ltb, if◌then◌else◌, get_or, set, length, arith, ap, ap₂, sym, subst,
  ◌∙◌, get_or-set_self, get_or-set_ne, length-set, Bool-cases,
}
use spot_grid_bot.Ring.{Ring, inc, dist, queue_size, enqueue, dequeue}

module _ {T : Type 0} (max_count : ℕ) (blank : T) where
  pub record IsRing (r : Ring T) : Type 0 where
    pub size : length r.buffer ≡ max_count + 1
    pub head_fits : r.ix_head ≤ max_count
    pub tail_fits : r.ix_tail ≤ max_count

  -- `n` elements from the index `ix` on, around the end of the buffer
  abbrev pub window : ℕ → ℕ → List T → List T
  window zero ix buffer = []
  window (suc n) ix buffer = get_or buffer ix blank ∷ window n (inc max_count ix) buffer

  -- The queue that a ring stands for
  abbrev pub contents : Ring T → List T
  contents r = window (queue_size max_count blank r) r.ix_head r.buffer

  inc_fits : (ix : ℕ) → ix ≤ max_count → inc max_count ix ≤ max_count
  inc_fits ix h = ground arith

  dist-inc :
      (n ix t : ℕ)
      → ix ≤ max_count
      → t ≤ max_count
      → dist max_count ix t ≡ suc n
      → (dist max_count (inc max_count ix) t ≡ n) × (t ≢ ix)
  dist-inc n ix t h k e = (ground arith, ground arith)

  inc_apart :
      (n ix t : ℕ)
      → ix ≤ max_count
      → t ≤ max_count
      → suc n ≤ dist max_count ix t
      → (n ≤ dist max_count (inc max_count ix) t) × (t ≢ ix)
  inc_apart n ix t h k e = (ground arith, ground arith)

  -- Writing at an index that a window does not reach
  window-set :
      (n ix t : ℕ) (buffer : List T) (v : T)
      → ix ≤ max_count
      → t ≤ max_count
      → n ≤ dist max_count ix t
      → window n ix (set buffer t v) ≡ window n ix buffer
  window-set zero ix t buffer v h k e = refl
  window-set (suc n) ix t buffer v h k e =
      let (d, x) = inc_apart n ix t h k e in
      ap₂ (λ a l. a ∷ l) (get_or-set_ne buffer t ix v blank x)
        (window-set n (inc max_count ix) t buffer v (inc_fits ix h) k d)

  window-last :
      (n ix t : ℕ) (buffer : List T)
      → ix ≤ max_count
      → t ≤ max_count
      → dist max_count ix t ≡ n
      → window (suc n) ix buffer ≡ window n ix buffer ++ (get_or buffer t blank ∷ [])
  window-last zero ix t buffer h k e = ap (λ i. get_or buffer i blank ∷ []) (ground arith)
  window-last (suc n) ix t buffer h k e =
      let (d, x) = dist-inc n ix t h k e in
      ap (λ l. get_or buffer ix blank ∷ l)
        (window-last n (inc max_count ix) t buffer (inc_fits ix h) k d)

  dist-inc_tail :
      (ix t : ℕ)
      → ix ≤ max_count
      → t ≤ max_count
      → dist max_count ix t < max_count
      → dist max_count ix (inc max_count t) ≡ suc (dist max_count ix t)
  dist-inc_tail ix t h k e = ground arith

  length-window : (n ix : ℕ) (buffer : List T) → length (window n ix buffer) ≡ n
  length-window zero ix buffer = refl
  length-window (suc n) ix buffer = ap suc (length-window n (inc max_count ix) buffer)

  dist_fits : (ix t : ℕ) → ix ≤ max_count → t ≤ max_count → dist max_count ix t ≤ max_count
  dist_fits ix t h k = ground arith

  -- The ring after the value has been stored
  abbrev pub stored : Ring T → T → Ring T
  stored r v = record r { buffer = set r.buffer r.ix_tail v; ix_tail = inc max_count r.ix_tail }

  stored-contents :
      (r : Ring T) (v : T)
      → IsRing r
      → dist max_count r.ix_head r.ix_tail < max_count
      → contents (stored r v) ≡ contents r ++ (v ∷ [])
  stored-contents r v w room =
      let n = dist max_count r.ix_head r.ix_tail in
      let b = set r.buffer r.ix_tail v in
      ap (λ k. window k r.ix_head b)
        (dist-inc_tail r.ix_head r.ix_tail w.head_fits w.tail_fits room)
      ∙ window-last n r.ix_head r.ix_tail b w.head_fits w.tail_fits refl
      ∙ ap₂ (λ l a. l ++ (a ∷ []))
          (window-set n r.ix_head r.ix_tail r.buffer v w.head_fits w.tail_fits (ground arith))
          (get_or-set_self r.buffer r.ix_tail v blank (ground (arith, w.size, w.tail_fits)))

  stored-IsRing : (r : Ring T) (v : T) → IsRing r → IsRing (stored r v)
  stored-IsRing r v w = record {
    size = length-set r.buffer r.ix_tail v ∙ w.size;
    head_fits = w.head_fits;
    tail_fits = inc_fits r.ix_tail w.tail_fits;
  }

  enqueue_room :
      (r : Ring T) (v : T)
      → r.shutdown ≡ false
      → dist max_count r.ix_head r.ix_tail < max_count
      → enqueue max_count blank r v ≡ (stored r v, true)
  unfolding enqueue
  enqueue_room r v e x = ground arith

  enqueue_refused :
      (r : Ring T) (v : T)
      → (not r.shutdown && ltb (dist max_count r.ix_head r.ix_tail) max_count) ≡ false
      → dist max_count r.ix_head r.ix_tail ≤ max_count
      → enqueue max_count blank r v ≡ (r, false)
  unfolding enqueue
  enqueue_refused r v e x = ground arith

  -- `Enqueue` appends its value at the end of the queue, and keeps the ring well formed, exactly if
  -- the ring is not shut down and holds fewer than `maxCount` values; else the ring stays as it is.
  pub enqueue-contents :
      (r : Ring T) (v : T)
      → IsRing r
      → let (r', done) = enqueue max_count blank r v in
        if not r.shutdown && ltb (length (contents r)) max_count
        then (done ≡ true) × (contents r' ≡ contents r ++ (v ∷ [])) × IsRing r'
        else (done ≡ false) × (r' ≡ r)
  enqueue-contents r v w =
      let fits = dist_fits r.ix_head r.ix_tail w.head_fits w.tail_fits in
      let n = length-window (dist max_count r.ix_head r.ix_tail) r.ix_head r.buffer in
      elim (Bool-cases (not r.shutdown && ltb (dist max_count r.ix_head r.ix_tail) max_count)) [
        | inl c ↦
            rw (n, c)
              (subst (λ o. (o.1 ≡ true) × (contents o.0 ≡ contents r ++ (v ∷ [])) × IsRing o.0)
                (sym (enqueue_room r v (ground (arith, c)) (ground (arith, c))))
                (refl, stored-contents r v w (ground (arith, c)), stored-IsRing r v w))
        | inr c ↦
            rw (n, c)
              (subst (λ o. (o.1 ≡ false) × (o.0 ≡ r)) (sym (enqueue_refused r v c fits))
                (refl, refl))
      ]

  -- The ring after the first value has been taken
  abbrev pub taken : Ring T → Ring T
  taken r = record r { buffer = set r.buffer r.ix_head blank; ix_head = inc max_count r.ix_head }

  taken-contents :
      (r : Ring T) (n : ℕ)
      → IsRing r
      → dist max_count r.ix_head r.ix_tail ≡ suc n
      → contents r ≡ get_or r.buffer r.ix_head blank ∷ contents (taken r)
  taken-contents r n w e =
      let (d, x) = dist-inc n r.ix_head r.ix_tail w.head_fits w.tail_fits e in
      let next = inc max_count r.ix_head in
      ap (λ k. window k r.ix_head r.buffer) e
      ∙ ap (λ l. get_or r.buffer r.ix_head blank ∷ l)
          (sym (
              window-set n next r.ix_head r.buffer blank (inc_fits r.ix_head w.head_fits)
                w.head_fits (ground (arith, e, w.head_fits, w.tail_fits)))
            ∙ ap (λ k. window k next (set r.buffer r.ix_head blank)) (sym d))

  taken-IsRing : (r : Ring T) → IsRing r → IsRing (taken r)
  taken-IsRing r w = record {
    size = length-set r.buffer r.ix_head blank ∙ w.size;
    head_fits = inc_fits r.ix_head w.head_fits;
    tail_fits = w.tail_fits;
  }

  dequeue-some :
      (r : Ring T) (n : ℕ)
      → dist max_count r.ix_head r.ix_tail ≡ suc n
      → dequeue max_count blank r ≡ (taken r, some (get_or r.buffer r.ix_head blank))
  unfolding dequeue
  dequeue-some r n e = ground arith

  dequeue-none :
      (r : Ring T) → dist max_count r.ix_head r.ix_tail ≡ 0 → dequeue max_count blank r ≡ (r, none)
  unfolding dequeue
  dequeue-none r e = ground arith

  -- What `Dequeue` does
  abbrev pub Dequeued : Ring T → Ring T × Option T → Type 0
  Dequeued r (r', value) =
      ((contents r ≡ []) × (value ≡ none) × (r' ≡ r))
      ⊎ ((v : T) × (value ≡ some v) × (contents r ≡ v ∷ contents r') × IsRing r')

  taken_or_not :
      (r : Ring T)
      → IsRing r
      → (n : ℕ) → dist max_count r.ix_head r.ix_tail ≡ n
      → Dequeued r (dequeue max_count blank r)
  taken_or_not r w zero e =
      subst (Dequeued r) (sym (dequeue-none r e))
        (inl (ap (λ k. window k r.ix_head r.buffer) e, refl, refl))
  taken_or_not r w (suc n) e =
      subst (Dequeued r) (sym (dequeue-some r n e))
        (inr (get_or r.buffer r.ix_head blank, refl, taken-contents r n w e, taken-IsRing r w))

  -- `Dequeue` takes the first value of the queue and keeps the ring well formed; it fails, with the
  -- ring as it was, exactly if the queue is empty.
  pub dequeue-contents :
      (r : Ring T)
      → IsRing r
      → let (r', value) = dequeue max_count blank r in
        ((contents r ≡ []) × (value ≡ none) × (r' ≡ r))
        ⊎ ((v : T) × (value ≡ some v) × (contents r ≡ v ∷ contents r') × IsRing r')
  dequeue-contents r w = taken_or_not r w (dist max_count r.ix_head r.ix_tail) refl
