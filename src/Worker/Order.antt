-- ===== src/Worker/Order.antt =====
-- The order in which a `BackgroundWorker` of lib/utils/include/Utils/BackgroundWorker.hpp processes what
-- is enqueued, and that it does so.
use spot_grid_bot.Base.{
  ℕ, ◌≡◌, refl, sym, ap, ◌∙◌, inl, inr, Bool, true, false, Option, none, some, List, [], ◌∷◌, ◌++◌,
  arith, ◌==◌, if◌then◌else◌, length, keep, keep-append, Bool-cases, Option-cases, append-nil,
  append_assoc,
}
use spot_grid_bot.Worker.{
  Worker, Element, enqueue_tagged, is_ready, find_ready, fetch, finish, take_next, open_sequence,
  close_sequence, work,
}
use spot_grid_bot.Worker.Steps.{find_ready_lem}

module _ {ℓ} {A : Type ℓ} where
  -- The steps without a clearing, from a worker: what its queue accepted, and what its threads
  -- took, both in the order of time.
  pub data Trace (s : Worker A) : Worker A → List (Element A) → List (Element A) → Type ℓ where
    here : Trace s s s.queue []
    enqueue :
        {t : Worker A} {accepted taken : List (Element A)} (now : ℕ) (e : Element A)
        → Trace s t accepted taken
        → Trace s
            (enqueue_tagged A now t e).0
            (if (enqueue_tagged A now t e).1 then accepted ++ (e ∷ []) else accepted)
            taken
    take :
        {t : Worker A} {accepted taken : List (Element A)} (now : ℕ) (b : List (Element A))
        (e : Element A) (a : List (Element A))
        → find_ready A t.open_sequences t.queue ≡ some (b, (e, a))
        → Trace s t accepted taken
        → Trace s (fetch A now t b e a) accepted (taken ++ (e ∷ []))
    done :
        {t : Worker A} {accepted taken : List (Element A)} (l : List (Element A)) (e : Element A)
        (r : List (Element A))
        → t.processed ≡ l ++ (e ∷ r)
        → Trace s t accepted taken
        → Trace s (finish A t l e r) accepted taken

  -- Whether an element belongs to a sequence; the elements without tag count as one.
  abbrev pub is_of : Option ℕ → Element A → Bool
  is_of none e = elim e.tag [ none ↦ true | some u ↦ false ]
  is_of (some t) e = elim e.tag [ none ↦ false | some u ↦ t == u ]

  abbrev pub of : Option ℕ → List (Element A) → List (Element A)
  of k l = keep (is_of k) l

  -- What is left of the queue follows what was taken, in each sequence.
  unfoldable pub IsInOrder : List (Element A) → List (Element A) → List (Element A) → Type ℓ
  IsInOrder accepted taken queue = (k : Option ℕ) → of k taken ++ of k queue ≡ of k accepted

  same_ready :
      (opened : List ℕ) (k : Option ℕ) (e f : Element A)
      → is_of k e ≡ true
      → is_of k f ≡ true
      → is_ready A opened e ≡ is_ready A opened f
  unfolding is_ready
  same_ready opened none e f x y = elim (Option-cases e.tag) [
    | inl p ↦ elim (Option-cases f.tag) [ inl q ↦ ground arith | inr (u, q) ↦ ground arith ]
    | inr (t, p) ↦ ground arith
  ]
  same_ready opened (some k) e f x y = elim (Option-cases e.tag) [
    | inl p ↦ ground arith
    | inr (t, p) ↦ elim (Option-cases f.tag) [ inl q ↦ ground arith | inr (u, q) ↦ ground arith ]
  ]

  -- What the loop skips is of other sequences than what it takes.
  skipped_others :
      (opened : List ℕ) (q b : List (Element A)) (e : Element A) (a : List (Element A))
      (k : Option ℕ)
      → find_ready A opened q ≡ some (b, (e, a))
      → is_of k e ≡ true
      → of k b ≡ []
  unfolding find_ready
  skipped_others opened [] b e a k h x = ground arith
  skipped_others opened (f ∷ q) b e a k h x = elim (Bool-cases (is_ready A opened f)) [
    | inl r ↦ ground (arith, r)
    | inr r ↦ elim (Option-cases (find_ready A opened q)) [
      | inl n ↦ ground (arith, r, n)
      | inr ((b', (e', a')), s) ↦ ground (
        arith,
        r,
        s,
        skipped_others opened q b' e' a' k s,
        find_ready_lem opened q b' e' a' s,
        same_ready opened k f e',
      )
    ]
  ]

  enqueue-IsInOrder :
      (w : Worker A) (now : ℕ) (e : Element A) (accepted taken : List (Element A))
      → IsInOrder accepted taken w.queue
      → IsInOrder
          (if (enqueue_tagged A now w e).1 then accepted ++ (e ∷ []) else accepted)
          taken
          (enqueue_tagged A now w e).0.queue
  unfolding IsInOrder enqueue_tagged
  enqueue-IsInOrder w now e accepted taken h k = ground (
    arith,
    h k,
    keep-append (is_of k) accepted (e ∷ []),
    keep-append (is_of k) w.queue (e ∷ []),
    append_assoc (of k taken) (of k w.queue) (of k (e ∷ [])),
  )

  -- Taking one element from between two lists, seen from one sequence
  move_one :
      (k : Option ℕ) (taken b a : List (Element A)) (e : Element A)
      → (is_of k e ≡ true → of k b ≡ [])
      → of k (taken ++ (e ∷ [])) ++ of k (b ++ a) ≡ of k taken ++ of k (b ++ (e ∷ a))
  move_one k taken b a e h = elim (Bool-cases (is_of k e)) [
    | inl x ↦ ground (
      arith,
      x,
      h x,
      keep-append (is_of k) taken (e ∷ []),
      keep-append (is_of k) b a,
      keep-append (is_of k) b (e ∷ a),
      append_assoc (of k taken) (e ∷ []) (of k a),
    )
    | inr x ↦ ground (
      arith,
      x,
      keep-append (is_of k) taken (e ∷ []),
      append-nil (of k taken),
      keep-append (is_of k) b a,
      keep-append (is_of k) b (e ∷ a),
    )
  ]

  -- After every sequence of steps without a clearing, for each tag and for the elements without
  -- one: what the threads took of it followed by what is still queued of it is what the queue
  -- accepted of it, in the order of acceptance. So the elements of a sequence are taken in that
  -- order, each once and none passed over.
  pub Trace-IsInOrder :
      {s t : Worker A} {accepted taken : List (Element A)}
      → Trace s t accepted taken
      → IsInOrder accepted taken t.queue
  unfolding IsInOrder fetch finish
  Trace-IsInOrder here k = refl
  Trace-IsInOrder (enqueue {t = t} {accepted = x} {taken = y} now e r) k =
      enqueue-IsInOrder t now e x y (λ j. Trace-IsInOrder r j) k
  Trace-IsInOrder (take {t = t} {taken = y} now b e a f r) k =
      move_one k y b a e (skipped_others t.open_sequences t.queue b e a k f)
      ∙ ap (λ q. of k y ++ of k q) (sym (find_ready_lem t.open_sequences t.queue b e a f).0)
      ∙ Trace-IsInOrder r k
  Trace-IsInOrder (done l e r x u) k = Trace-IsInOrder u k

  -- One thread and the first element of the queue, when no sequence is open
  first_round :
      (w : Worker A) (now : ℕ) (e : Element A) (q : List (Element A))
      → w.queue ≡ e ∷ q
      → w.open_sequences ≡ []
      → let (t, taken) = take_next A now w in
        (taken ≡ some e)
        × ((finish A t [] e []).queue ≡ q)
        × ((finish A t [] e []).open_sequences ≡ [])
  unfolding take_next find_ready is_ready fetch finish open_sequence close_sequence
  first_round w now e q h o = elim (Option-cases e.tag) [
    | inl n ↦ (ground arith, ground arith, ground arith)
    | inr (u, n) ↦ (ground arith, ground arith, ground arith)
  ]

  -- One thread that starts on a queue while no sequence is open and nobody else enqueues takes
  -- every element once, in the order of the queue, in as many rounds as there are elements, and
  -- leaves the queue empty with no sequence open.
  pub work_all :
      (q : List (Element A)) (w : Worker A) (now : ℕ)
      → w.queue ≡ q
      → w.open_sequences ≡ []
      → let (t, taken) = work A (length q) now w in
        (taken ≡ q) × (t.queue ≡ []) × (t.open_sequences ≡ [])
  unfolding work
  work_all [] w now h o = (refl, h, o)
  work_all (e ∷ q) w now h o =
      let (t, f) = take_next A now w in
      let (x, y, z) = first_round w now e q h o in
      let (a, b, c) = work_all q (finish A t [] e []) now y z in
      (ground arith, ground arith, ground arith)
