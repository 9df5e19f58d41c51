-- ===== src/Symbols/Registering.antt =====
-- Registering a currency: all of it, or nothing.
use spot_grid_bot.Base.{
  ◌≡◌, refl, inl, inr, true, false, some, List, [], ◌∷◌, if◌then◌else◌, Bool-cases, is_some,
}
use spot_grid_bot.Base.Dict.{lookup, lookup-insert_self}
use spot_grid_bot.Instrument.{Currency}
use spot_grid_bot.Symbols.{
  Text, Mapping, text_eqb, text_lt, find_name, emplace_name, register_currency,
  check_registered_currencies,
}
use spot_grid_bot.Symbols.Texts.{text_eqb_refl, erase_name-emplace_name, erase-insert}

find_name-emplace_name :
    (t : Text) (c : Currency) (names : List (Text × Currency))
    → is_some (find_name t names) ≡ false
    → find_name t (emplace_name t c names) ≡ some c
unfolding find_name emplace_name
find_name-emplace_name t c [] h = rw (text_eqb_refl t) refl
find_name-emplace_name t c ((s, d) ∷ names) h = elim (Bool-cases (text_eqb s t)) [
  | inl e ↦ cc (rw e at h)
  | inr e ↦ elim (Bool-cases (text_lt t s)) [
    | inl b ↦ rw (b, text_eqb_refl t) refl
    | inr b ↦ rw (b, e) (find_name-emplace_name t c names (rw e at h))
  ]
]

-- What RegisterCurrency answers and does: with false both maps are as before, also when the new
-- currency was entered and made some pair ambiguous; with true the maps have the currency and its
-- name, in both directions, and its names pass CheckRegisteredCurrencies.
pub register_currency_lem :
    (m : Mapping) (value : Currency) (symbol : Text)
    → (if (register_currency m value symbol).1
        then (lookup value (register_currency m value symbol).0.val_to_str ≡ some symbol)
          × (find_name symbol (register_currency m value symbol).0.str_to_val ≡ some value)
          × (check_registered_currencies (register_currency m value symbol).0.str_to_val ≡ true)
        else (register_currency m value symbol).0 ≡ m)
unfolding register_currency
register_currency_lem m value symbol = elim (Bool-cases (is_some (lookup value m.val_to_str))) [
  | inl e ↦ rw e refl
  | inr e ↦ rw e (elim (Bool-cases (is_some (find_name symbol m.str_to_val))) [
    | inl f ↦ rw f refl
    | inr f ↦
        rw f
          (elim (Bool-cases
            (check_registered_currencies (emplace_name symbol value m.str_to_val))) [
              | inl g ↦ rw g (
                lookup-insert_self value symbol m.val_to_str,
                find_name-emplace_name symbol value m.str_to_val f,
                g,
              )
              | inr g ↦
                  rw
                    (
                      g,
                      erase-insert value symbol m.val_to_str e,
                      erase_name-emplace_name symbol value m.str_to_val f,
                    )
                    refl
            ])
  ])
]
