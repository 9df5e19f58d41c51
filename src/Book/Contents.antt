-- ===== src/Book/Contents.antt =====
-- Which quotes a book holds after a quote has been added.
use mathlib.Core.List.Perm
use mathlib.Core.List.{perm_append_comm}
use spot_grid_bot.Base.{
  ◌≡◌, refl, inl, inr, Bool, true, false, not, ◌&&◌, List, [], ◌∷◌, ◌++◌, Option, none, some, arith,
  if◌then◌else◌, Perm, Bool-cases, append_assoc,
}
use spot_grid_bot.Base.Int.{ℤ, eqb_ℤ}
use spot_grid_bot.FixTypes.{set_side}
use spot_grid_bot.Instrument.{CurrencyPair}
use spot_grid_bot.Quote.{Quote, Store}
use spot_grid_bot.Book.Side.{QuoteVec, goes_before, insert_quote, find_key, erase_key}
use spot_grid_bot.Book.{
  OrderBook, same_pair, put_pair, sides_of, vec_of, add_quote, update_vec, drop_found,
  drop_referred, referred, is_delete,
}
use spot_grid_bot.Book.Sorted.{sides_of-put}

insert_quote-perm :
    (bid : Bool) (q : Quote) (vec : QuoteVec) → Perm (insert_quote bid q vec) (q ∷ vec)
unfolding insert_quote
insert_quote-perm bid q [] = Perm.refl _
insert_quote-perm bid q (x ∷ vec) = elim (Bool-cases (goes_before bid q x)) [
  | inl e ↦ rw e (Perm.refl _)
  | inr e ↦ rw e (Perm.trans (Perm.cons x (insert_quote-perm bid q vec)) (Perm.swap q x vec))
]

erase_key-perm :
    (k : ℤ) (vec : QuoteVec) (old : Quote)
    → find_key k vec ≡ some old
    → Perm (old ∷ erase_key k vec) vec
unfolding find_key erase_key
erase_key-perm k [] old e = cc
erase_key-perm k (q ∷ vec) old e = elim (Bool-cases (eqb_ℤ q.key k)) [
  | inl hit ↦ rw hit (Perm.cons' (ground arith) (Perm.refl vec))
  | inr miss ↦ rw miss (
      Perm.trans (Perm.swap q old (erase_key k vec))
        (Perm.cons q (erase_key-perm k vec old (ground arith))))
]

abbrev pub as_list : Option Quote → List Quote
as_list none = []
as_list (some q) = q ∷ []

-- The quotes that a call takes out, and those that it puts in.
pub taken_out : Quote → QuoteVec → List Quote
taken_out q vec = as_list (referred q vec)

abbrev pub put_in : Quote → List Quote
put_in q = if is_delete q then [] else q ∷ []

drop_found-perm :
    (o : Option Quote) (q : Quote) (now : ℤ) (vec : QuoteVec) (h : Store)
    → ((old : Quote) → o ≡ some old → find_key q.ref_key vec ≡ some old)
    → Perm (as_list o ++ (drop_found o q now (vec, h)).0) vec
unfolding drop_found
drop_found-perm none q now vec h found = Perm.refl vec
drop_found-perm (some old) q now vec h found = erase_key-perm q.ref_key vec old (found old refl)

referred-found :
    (q : Quote) (vec : QuoteVec) (old : Quote)
    → referred q vec ≡ some old
    → find_key q.ref_key vec ≡ some old
unfolding referred
referred-found q vec old e = ground arith

drop_referred-perm :
    (q : Quote) (now : ℤ) (vec : QuoteVec) (h : Store)
    → Perm (taken_out q vec ++ (drop_referred q now (vec, h)).0) vec
unfolding drop_referred taken_out
drop_referred-perm q now vec h = drop_found-perm (referred q vec) q now vec h (referred-found q vec)

swap_front : (a b c : List Quote) → Perm (a ++ (b ++ c)) (b ++ (a ++ c))
swap_front a b c =
    rw (← append_assoc a b c, ← append_assoc b a c) (Perm.append_right c (perm_append_comm a b))

insert_unless_deleted-perm :
    (bid : Bool) (q : Quote) (vec : QuoteVec)
    → Perm (if not (is_delete q) then insert_quote bid q vec else vec) (put_in q ++ vec)
insert_unless_deleted-perm bid q vec = elim (Bool-cases (is_delete q)) [
  | inl e ↦ rw e (Perm.refl vec)
  | inr e ↦ rw e (insert_quote-perm bid q vec)
]

-- The vector loses exactly the quote that an UPDATE or DELETE refers to, if it holds one, and
-- gains exactly the new quote, unless that is a DELETE.
pub update_vec-perm :
    (bid : Bool) (q : Quote) (now : ℤ) (vec : QuoteVec) (h : Store)
    → Perm (taken_out q vec ++ (update_vec bid q now (vec, h)).0) (put_in q ++ vec)
unfolding update_vec
update_vec-perm bid q now vec h =
    let dropped = (drop_referred q now (vec, h)).0 in
    Perm.trans (Perm.append_left (taken_out q vec) (insert_unless_deleted-perm bid q dropped)) (
      Perm.trans (swap_front (taken_out q vec) (put_in q) dropped)
        (Perm.append_left (put_in q) (drop_referred-perm q now vec h)))

abbrev pub same_side : Bool → Bool → Bool
same_side true side = side
same_side false side = not side

pub same_pair→eq : (a b : CurrencyPair) → same_pair a b ≡ true → a ≡ b
unfolding same_pair
same_pair→eq a b e = ground arith

vec_of-put :
    (b b' : OrderBook) (c cp : CurrencyPair) (bid side : Bool) (vec : QuoteVec)
    → b'.quotes ≡ put_pair cp (set_side (sides_of b cp) bid vec) b.quotes
    → vec_of b' c side ≡ (if same_pair cp c && same_side bid side then vec else vec_of b c side)
vec_of-put b b' c cp bid side vec e =
    ground (arith, sides_of-put b b' c cp (set_side (sides_of b cp) bid vec) e, same_pair→eq cp c)

-- Adding a quote changes exactly one vector, that of its pair and side, in the way of `update_vec`;
-- every other vector of the book stays as it was.
pub add_quote_vecs :
    (b : OrderBook) (cp c : CurrencyPair) (bid side : Bool) (q : Quote) (now : ℤ)
    → vec_of (add_quote b cp bid q now).0 c side ≡ (
        if same_pair cp c && same_side bid side
        then (update_vec bid q now (vec_of b cp bid, b.marks)).0
        else vec_of b c side)
unfolding add_quote
add_quote_vecs b cp c bid side q now =
    vec_of-put b _ c cp bid side (update_vec bid q now (vec_of b cp bid, b.marks)).0 refl
