-- ===== src/Symbols/Loading.antt =====
-- Loading currencies keeps the two maps between currencies and names the inverse of each other.
use spot_grid_bot.Base.{
  ◌≡◌, ◌↔◌, ◌∙◌, refl, sym, ap, inl, inr, Bool, true, false, ◌&&◌, ◌||◌, Option, none, some, List,
  [], ◌∷◌, arith, ◌==◌, if◌then◌else◌, Bool-cases, is_some,
}
use spot_grid_bot.Base.Int.{ℤ, pos, magnitude, leb_ℤ}
use spot_grid_bot.Base.Dict.{lookup, lookup-insert}
use spot_grid_bot.Instrument.{Currency, invalid_currency}
use spot_grid_bot.Symbols.{
  Text, Mapping, NameMap, text_eqb, text_lt, find_name, emplace_name, register_currency,
  check_registered_currencies,
}
use spot_grid_bot.Symbols.Texts.{text_eqb→eq, text_eqb_refl, erase_name-emplace_name, erase-insert}
use spot_grid_bot.Symbols.Config.{
  ValueNode, SectionNode, ConfigDoc, null_config, no_config_node, config_node, ConfigError,
  is_currency, is_currencies, load_named, load_values, load_sections,
  initialize_currencies_from_xml,
}

-- A name is of a currency exactly if the currency has that name.
abbrev pub IsMutual : Mapping → Type 0
IsMutual m =
    (t : Text) (c : Currency)
    → (find_name t m.str_to_val ≡ some c) ↔ (lookup c m.val_to_str ≡ some t)

-- Each name of the first mapping is in the second, with the same currency.
abbrev pub Extends : Mapping → Mapping → Type 0
Extends m m' =
    (t : Text) (c : Currency)
    → find_name t m.str_to_val ≡ some c
    → find_name t m'.str_to_val ≡ some c

pub lookup-emplace_name :
    (s t : Text) (c : Currency) (names : NameMap)
    → is_some (find_name t names) ≡ false
    → find_name s (emplace_name t c names) ≡ (if text_eqb t s then some c else find_name s names)
unfolding find_name emplace_name
lookup-emplace_name s t c [] h = refl
lookup-emplace_name s t c ((u, d) ∷ names) h = elim (Bool-cases (text_eqb u t)) [
  | inl e ↦ cc (rw e at h)
  | inr e ↦ elim (Bool-cases (text_lt t u)) [
    | inl b ↦ rw b refl
    | inr b ↦
        rw (b, lookup-emplace_name s t c names (rw e at h))
          (elim (Bool-cases (text_eqb u s)) [ inr f ↦ rw f refl | inl f ↦ rw (f, other f e) refl ])
  ]
]
  where
    other : text_eqb u s ≡ true → text_eqb u t ≡ false → text_eqb t s ≡ false
    other f e = elim (Bool-cases (text_eqb t s)) [
      | inr g ↦ g
      | inl g ↦
          let same : u ≡ t = text_eqb→eq u s f ∙ sym (text_eqb→eq t s g) in
          cc (rw (same, text_eqb_refl t) at e)
    ]

abbrev named : Text → Option Text → Bool
named t none = false
named t (some s) = text_eqb s t

kept :
    (t symbol : Text) (value c : Currency) (names : NameMap)
    → is_some (find_name symbol names) ≡ false
    → find_name t names ≡ some c
    → (if text_eqb symbol t then some value else find_name t names) ≡ some c
kept t symbol value c names f h = elim (Bool-cases (text_eqb symbol t)) [
  | inl e ↦ cc (rw (text_eqb→eq symbol t e, h) at f)
  | inr e ↦ rw e h
]

-- Entering a new currency under a new name
enter-IsMutual :
    (m : Mapping) (value : Currency) (symbol : Text)
    → IsMutual m
    → is_some (lookup value m.val_to_str) ≡ false
    → is_some (find_name symbol m.str_to_val) ≡ false
    → (t : Text) (c : Currency)
    → ((if text_eqb symbol t then some value else find_name t m.str_to_val) ≡ some c)
      ↔ ((if value == c then some symbol else lookup c m.val_to_str) ≡ some t)
enter-IsMutual m value symbol w no_text no_name t c = elim (Bool-cases (text_eqb symbol t)) [
  | inl e ↦ elim (Bool-cases (value == c)) [
    | inl f ↦ rw (e, f) (λ g. ap some (text_eqb→eq symbol t e), λ g. ap some (grind (arith, f)))
    | inr f ↦
        rw (e, f)
          (
            λ g. absurd (grind (arith, g, f)),
            λ g. cc (rw (text_eqb→eq symbol t e, (w t c).1 g) at no_name),
          )
  ]
  | inr e ↦ elim (Bool-cases (value == c)) [
    | inl f ↦
        let same : value ≡ c = grind (arith, f) in
        rw (e, f)
          (
            λ g. cc (rw (same, (w t c).0 g) at no_text),
            λ g. cc (text_eqb_refl t, ap (named t) g, e),
          )
    | inr f ↦ rw (e, f) (w t c)
  ]
]

register_currency-IsMutual :
    (m : Mapping) (value : Currency) (symbol : Text)
    → IsMutual m
    → IsMutual (register_currency m value symbol).0 × Extends m (register_currency m value symbol).0
unfolding register_currency
register_currency-IsMutual m value symbol w =
    elim (Bool-cases (is_some (lookup value m.val_to_str))) [
      | inl e ↦ rw e (w, λ t c h. h)
      | inr e ↦ rw e (elim (Bool-cases (is_some (find_name symbol m.str_to_val))) [
        | inl f ↦ rw f (w, λ t c h. h)
        | inr f ↦
            rw f
              (elim (Bool-cases
                (check_registered_currencies (emplace_name symbol value m.str_to_val))) [
                  | inl g ↦ rw g (
                    λ t c.
                        rw
                          (
                            lookup-emplace_name t symbol value m.str_to_val f,
                            lookup-insert c value symbol m.val_to_str,
                          )
                          (enter-IsMutual m value symbol w e f t c),
                    λ t c h.
                        rw (lookup-emplace_name t symbol value m.str_to_val f)
                          (kept t symbol value c m.str_to_val f h),
                  )
                  | inr g ↦
                      rw
                        (
                          g,
                          erase-insert value symbol m.val_to_str e,
                          erase_name-emplace_name symbol value m.str_to_val f,
                        )
                        (w, λ t c h. h)
                ])
      ])
    ]

Keeps : Mapping → Mapping → Type 0
Keeps m m' = IsMutual m → IsMutual m' × Extends m m'

Keeps-trans : (a b c : Mapping) → Keeps a b → Keeps b c → Keeps a c
unfolding Keeps
Keeps-trans a b c f g w =
    let (wb, xb) = f w in let (wc, xc) = g wb in (wc, λ t v h. xc t v (xb t v h))

load_named-Keeps :
    (st : Mapping × List ConfigError) (t : Text) (id : ℤ) → Keeps st.0 (load_named st t id).0
unfolding load_named Keeps
load_named-Keeps (m, errors) [] id w = (w, λ t c h. h)
load_named-Keeps (m, errors) (c ∷ t) id w =
    elim (Bool-cases (leb_ℤ id (pos 0) || leb_ℤ (pos invalid_currency) id)) [
      | inl e ↦ rw e (w, λ s d h. h)
      | inr e ↦ rw e (register_currency-IsMutual m (magnitude id) (c ∷ t) w)
    ]

-- A step that is taken under a condition
Keeps-if :
    (b : Bool) (st st' : Mapping × List ConfigError)
    → Keeps st.0 st'.0
    → Keeps st.0 (if b then st' else st).0
unfolding Keeps
Keeps-if true st st' k w = k w
Keeps-if false st st' k w = (w, λ t c h. h)

load_values-Keeps :
    (st : Mapping × List ConfigError) (l : List ValueNode) → Keeps st.0 (load_values st l).0
unfolding load_values Keeps
load_values-Keeps st [] w = (w, λ t c h. h)
load_values-Keeps st (n ∷ rest) w =
    let next = if n.is_element && is_currency n.node_name then load_named st n.name n.id else st in
    Keeps-trans st.0 next.0 (load_values next rest).0
      (Keeps-if (n.is_element && is_currency n.node_name) st (load_named st n.name n.id)
        (load_named-Keeps st n.name n.id))
      (load_values-Keeps next rest) w

load_sections-Keeps :
    (st : Mapping × List ConfigError) (l : List SectionNode) → Keeps st.0 (load_sections st l).0
unfolding load_sections Keeps
load_sections-Keeps st [] w = (w, λ t c h. h)
load_sections-Keeps st (s ∷ rest) w =
    let next = if is_currencies s.node_name then load_values st s.values else st in
    Keeps-trans st.0 next.0 (load_sections next rest).0
      (Keeps-if (is_currencies s.node_name) st (load_values st s.values)
        (load_values-Keeps st s.values))
      (load_sections-Keeps next rest) w

-- Whatever the document, loading its currencies keeps the maps between currencies and names the
-- inverse of each other, and keeps every name with its currency.
pub initialize_currencies_from_xml-IsMutual :
    (m : Mapping) (doc : ConfigDoc)
    → IsMutual m
    → IsMutual (initialize_currencies_from_xml m doc).0
      × Extends m (initialize_currencies_from_xml m doc).0
unfolding initialize_currencies_from_xml Keeps
initialize_currencies_from_xml-IsMutual m null_config w = (w, λ t c h. h)
initialize_currencies_from_xml-IsMutual m no_config_node w = (w, λ t c h. h)
initialize_currencies_from_xml-IsMutual m (config_node sections) w =
    load_sections-Keeps (m, []) sections w
