-- ===== src/Ring/Tests.antt =====
-- The theorems about the ring buffer, at a ring of three places.
use spot_grid_bot.Base.{
  ℕ, ◌≡◌, refl, true, false, not, ◌&&◌, [], ◌∷◌, ◌++◌, ltb, length, if◌then◌else◌, arith,
}
use spot_grid_bot.Ring.{Ring, enqueue}
use spot_grid_bot.Ring.Fifo.{IsRing, contents, enqueue-contents}

-- At most two values; one is there, and the tail is at the end.
abbrev one_value : Ring ℕ
one_value = record { buffer = 0 ∷ 7 ∷ 0 ∷ []; ix_head = 1; ix_tail = 2; shutdown = false }

one_value-IsRing : IsRing 2 0 one_value
one_value-IsRing = record { size = refl; head_fits = ground arith; tail_fits = ground arith }

enqueue-contents_example :
    let (r', done) = enqueue 2 0 one_value 9 in
    if not false && ltb (length (contents 2 0 one_value)) 2
    then (done ≡ true) × (contents 2 0 r' ≡ contents 2 0 one_value ++ (9 ∷ [])) × IsRing 2 0 r'
    else (done ≡ false) × (r' ≡ one_value)
enqueue-contents_example = enqueue-contents 2 0 one_value 9 one_value-IsRing
