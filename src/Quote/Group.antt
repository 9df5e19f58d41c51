-- ===== src/Quote/Group.antt =====
-- `QuoteGroup` of lib/orderbook/include/OrderBook/Quote.h and lib/orderbook/src/Quote.cpp: a list
-- of quotes with two cached records of aggregate values, one over all of its quotes and one over
-- those that are not used.
pub mod Cache
pub mod Tests
use spot_grid_bot.Base.{
  ℕ, ◌+◌, Bool, true, false, not, ◌&&◌, ◌||◌, Option, none, some, List, [], ◌∷◌, ◌++◌, ◌==◌,
  if◌then◌else◌,
}
use spot_grid_bot.Base.Int.{ℤ, pos, ◌+ℤ◌, ◌-ℤ◌, ◌*ℤ◌, quot, ltb_ℤ, leb_ℤ, eqb_ℤ, min_ℤ, max_ℤ}
use spot_grid_bot.Quote.{Quote, Store, is_used}

-- `AggregateValues`
pub record AggregateValues : Type 0 where
  pub min_price : ℤ
  pub max_price : ℤ
  pub avg_price : ℤ
  pub max_volume : ℤ
  pub total_volume : ℤ
  pub min_qty : ℤ

abbrev pub no_values : AggregateValues
no_values = record {
  min_price = pos 0;
  max_price = pos 0;
  avg_price = pos 0;
  max_volume = pos 0;
  total_volume = pos 0;
  min_qty = pos 0;
}

-- `m_quotes` and the two places of `m_aggregateValues`
pub record QuoteGroup : Type 0 where
  pub quotes : List Quote
  pub unused_values : Option AggregateValues
  pub all_values : Option AggregateValues

-- `QuoteGroup(srcVec)`
unfoldable pub group_of : List Quote → QuoteGroup
group_of vec = record { quotes = vec; unused_values = none; all_values = none }

-- The quotes that a calculation leaves out
abbrev pub left_out : Bool → Store → Quote → Bool
left_out unused_only h q = unused_only && is_used h q

-- The first loop of `CalculateAggregateValues`
unfoldable pub accumulate : Bool → Store → AggregateValues → List Quote → AggregateValues
accumulate unused_only h av [] = av
accumulate unused_only h av (q ∷ l) =
    accumulate unused_only h
      (if left_out unused_only h q then av else record av {
        min_price =
            if eqb_ℤ av.total_volume (pos 0) || ltb_ℤ q.price av.min_price
            then q.price
            else av.min_price;
        max_price = max_ℤ av.max_price q.price;
        max_volume = max_ℤ av.max_volume q.volume;
        total_volume = av.total_volume +ℤ q.volume;
        min_qty = max_ℤ av.min_qty q.min_qty;
      })
      l

-- Its second loop
unfoldable pub price_sum : Bool → Store → List Quote → ℤ
price_sum unused_only h [] = pos 0
price_sum unused_only h (q ∷ l) =
    (if left_out unused_only h q then pos 0 else q.price *ℤ q.volume) +ℤ price_sum unused_only h l

-- `CalculateAggregateValues`
unfoldable pub calculate : Bool → Store → List Quote → AggregateValues
calculate unused_only h l =
    let av = accumulate unused_only h no_values l in
    record av {
      avg_price =
          if eqb_ℤ av.total_volume (pos 0) || eqb_ℤ av.min_price av.max_price
          then av.min_price
          else quot (price_sum unused_only h l) av.total_volume;
    }

-- `InvalidateAggregateValues`
unfoldable pub invalidate : QuoteGroup → Bool → QuoteGroup
invalidate g only_used_changed = record g {
  unused_values = none;
  all_values = if only_used_changed then g.all_values else none;
}

-- `GetOrCreateAggregateValues`
unfoldable pub get_or_create : Bool → Store → QuoteGroup → QuoteGroup × AggregateValues
get_or_create true h g = elim g.unused_values [
  | some av ↦ (g, av)
  | none ↦
      (record g { unused_values = some (calculate true h g.quotes) }, calculate true h g.quotes)
]
get_or_create false h g = elim g.all_values [
  | some av ↦ (g, av)
  | none ↦ (record g { all_values = some (calculate false h g.quotes) }, calculate false h g.quotes)
]

-- `SinglePrice`
unfoldable pub single_price : Bool → Store → QuoteGroup → QuoteGroup × Bool
single_price unused_only h g =
    let (g', av) = get_or_create unused_only h g in (g', eqb_ℤ av.min_price av.max_price)

-- `AddQuote` and `AddQuotes` of another group
unfoldable pub add_to_group : QuoteGroup → Quote → QuoteGroup
unfolding invalidate
add_to_group g q = invalidate (record g { quotes = g.quotes ++ (q ∷ []) }) false

unfoldable pub add_group : QuoteGroup → QuoteGroup → QuoteGroup
unfolding invalidate
add_group g other = invalidate (record g { quotes = g.quotes ++ other.quotes }) false

-- The list without the first element that is the quote itself, none without one
unfoldable pub without : Quote → List Quote → Option (List Quote)
without q [] = none
without q (p ∷ l) =
    if p.address == q.address
    then some l
    else elim (without q l) [ none ↦ none | some l' ↦ some (p ∷ l') ]

-- `RemoveQuote`
unfoldable pub remove_from_group : QuoteGroup → Quote → QuoteGroup × Bool
unfolding invalidate
remove_from_group g q = elim (without q g.quotes) [
  | none ↦ (g, false)
  | some l ↦ (invalidate (record g { quotes = l }) false, true)
]

-- The loop of `PartialAvgPrice`: the average, the volume it covers, the count, the volume left
unfoldable pub partial_loop : Store → List Quote → ℤ → ℤ → ℕ → ℤ → ℤ × ℕ
partial_loop h [] result covered count volume = (result, count)
partial_loop h (q ∷ l) result covered count volume =
    let current = min_ℤ q.volume volume in
    let covered' = covered +ℤ current in
    let result' = result +ℤ quot ((q.price -ℤ result) *ℤ current) covered' in
    let rest = partial_loop h l result' covered' (count + 1) (volume -ℤ current) in
    let skipped = partial_loop h l result covered count volume in
    if not (is_used h q) && leb_ℤ q.min_qty volume && ltb_ℤ (pos 0) current
    then (if leb_ℤ (volume -ℤ current) (pos 0) then (result', count + 1) else rest)
    else skipped

-- `PartialAvgPrice`: the price and the number of quotes
unfoldable pub partial_avg_price : Store → QuoteGroup → ℤ → ℤ × ℕ
partial_avg_price h g volume =
    if ltb_ℤ (pos 0) volume then partial_loop h g.quotes (pos 0) (pos 0) 0 volume else (pos 0, 0)
