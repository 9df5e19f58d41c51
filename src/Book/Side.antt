-- ===== src/Book/Side.antt =====
-- One side of an order book: the vector of quotes for a pair's bid or ask.
use spot_grid_bot.Base.{Bool, not, ◌&&◌, List, [], ◌∷◌, Option, none, some, if◌then◌else◌}
use spot_grid_bot.Base.Int.{ℤ, pos, ◌-ℤ◌, leb_ℤ, ltb_ℤ, eqb_ℤ}
use spot_grid_bot.Quote.{Quote, Store, set_invalid}

abbrev pub QuoteVec : Type 0
QuoteVec = List Quote

-- The lambda of `AddQuote`: whether the new quote goes in front of `q`. A better price comes first,
-- and of equal prices the greater volume.
unfoldable pub goes_before : Bool → Quote → Quote → Bool
goes_before bid new q =
    if not (eqb_ℤ new.price q.price)
    then (if bid then ltb_ℤ q.price new.price else ltb_ℤ new.price q.price)
    else leb_ℤ q.volume new.volume

-- `vec->insert(find_if(...), quote)`; for an empty vector this is `push_back`.
unfoldable pub insert_quote : Bool → Quote → QuoteVec → QuoteVec
insert_quote bid new [] = new ∷ []
insert_quote bid new (q ∷ vec) =
    if goes_before bid new q then new ∷ q ∷ vec else q ∷ insert_quote bid new vec

-- The first quote with a key, and the vector without it.
unfoldable pub find_key : ℤ → QuoteVec → Option Quote
find_key k [] = none
find_key k (q ∷ vec) = if eqb_ℤ q.key k then some q else find_key k vec

unfoldable pub erase_key : ℤ → QuoteVec → QuoteVec
erase_key k [] = []
erase_key k (q ∷ vec) = if eqb_ℤ q.key k then vec else q ∷ erase_key k vec

-- The first quote with a positive price that the predicate accepts.
unfoldable pub first_accepted : (Quote → Bool) → QuoteVec → Option Quote
first_accepted accept [] = none
first_accepted accept (q ∷ vec) =
    if ltb_ℤ (pos 0) q.price && accept q then some q else first_accepted accept vec

abbrev pub outdated : ℤ → ℤ → Quote → Bool
outdated max_age now q = ltb_ℤ max_age (now -ℤ q.sending_time)

-- The loop of `CleanupQuoteVec`: outdated quotes are set invalid and erased.
unfoldable pub cleanup_loop : ℤ → ℤ → QuoteVec → Store → QuoteVec × Store
cleanup_loop max_age now [] h = ([], h)
cleanup_loop max_age now (q ∷ vec) h =
    let old = outdated max_age now q in
    let (rest, h') =
      cleanup_loop max_age now vec (if old then (set_invalid h q none now now).0 else h) in
    (if old then rest else q ∷ rest, h')

unfoldable pub cleanup : ℤ → ℤ → QuoteVec → Store → QuoteVec × Store
unfolding cleanup_loop
cleanup max_age now vec h =
    if ltb_ℤ (pos 0) max_age then cleanup_loop max_age now vec h else (vec, h)

-- The part of a clean-up that stays: the quotes that are not outdated, in order.
abbrev pub fresh_quotes : ℤ → ℤ → QuoteVec → QuoteVec
fresh_quotes max_age now [] = []
fresh_quotes max_age now (q ∷ vec) =
    if outdated max_age now q
    then fresh_quotes max_age now vec
    else q ∷ fresh_quotes max_age now vec
