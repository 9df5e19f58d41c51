-- ===== src/Orders/Balances.antt =====
-- `InitializeBalances` of src/OrderManager.cpp: what a listing of the accounts makes of the balances.
use spot_grid_bot.Base.{◌≡◌, refl, Option, none, some, List, [], ◌∷◌, arith, ◌==◌, if◌then◌else◌}
use spot_grid_bot.Base.Dict.{Dict, lookup, lookup-insert}
use spot_grid_bot.Base.Double.{Double}
use spot_grid_bot.Instrument.{Currency, str_to_val}
use spot_grid_bot.Orders.{
  Manager, Account, Connection, set_balance, enter_account, enter_accounts, initialize_balances,
}

module _ (D : Double) where
  -- What an account says of the currency `c`
  abbrev pub says : Dict Currency → Currency → Account D → Option D.F
  says names c Account.null_account = none
  says names c (Account.account currency none) = none
  says names c (Account.account currency (some b)) =
      if currency == 0 then none else if str_to_val names currency == c then some b else none

  -- What the last account with the currency `c` says of it
  abbrev pub last_word : Dict Currency → Currency → List (Account D) → Option D.F
  last_word names c [] = none
  last_word names c (a ∷ l) = elim (last_word names c l) [ some b ↦ some b | none ↦ says names c a ]

  enter_account-says :
      (names : Dict Currency) (m : Manager D) (a : Account D) (c : Currency)
      → lookup c (enter_account D names m a).balance
        ≡ elim (says names c a) [ some b ↦ some b | none ↦ lookup c m.balance ]
  unfolding enter_account set_balance
  enter_account-says names m Account.null_account c = refl
  enter_account-says names m (Account.account k none) c = ground arith
  enter_account-says names m (Account.account k (some b)) c =
      ground (arith, lookup-insert c (str_to_val names k) b m.balance)

  enter_accounts-last_word :
      (names : Dict Currency) (l : List (Account D)) (m : Manager D) (c : Currency)
      → lookup c (enter_accounts D names m l).balance
        ≡ elim (last_word names c l) [ some b ↦ some b | none ↦ lookup c m.balance ]
  unfolding enter_accounts
  enter_accounts-last_word names [] m c = refl
  enter_accounts-last_word names (a ∷ l) m c = ground (
    arith,
    enter_accounts-last_word names l (enter_account D names m a) c,
    enter_account-says names m a c,
  )

  -- Over a Coinbase REST connection with a listing, each currency's balance is afterwards the one
  -- of the last readable account that names it, and without such an account the old one. A null
  -- account, one without currency and one whose balance is no number are skipped; a name that is
  -- not in the table counts as the currency INVALID.
  pub initialize_balances-last_word :
      (names : Dict Currency) (l : List (Account D)) (m : Manager D) (c : Currency)
      → m.connection ≡ Connection.coinbase_rest
      → lookup c (initialize_balances D names (some l) m).balance
        ≡ elim (last_word names c l) [ some b ↦ some b | none ↦ lookup c m.balance ]
  unfolding initialize_balances
  initialize_balances-last_word names l m c e = ground (arith, enter_accounts-last_word names l m c)
