-- ===== src/Symbols/Texts.antt =====
-- Facts about texts and the map from names.
use spot_grid_bot.Base.{
  ℕ, zero, suc, ◌≡◌, refl, ap, inl, inr, Bool, true, false, ◌||◌, Option, none, some, [], ◌∷◌, ◌++◌,
  arith, ◌==◌, Bool-cases, All, is_some, take, ==_refl,
}
use spot_grid_bot.Base.Dict.{Dict, lookup, insert, erase}
use spot_grid_bot.Symbols.{
  Text, text_eqb, split_at, drop, NameMap, find_name, emplace_name, erase_name, text_lt,
}

pub text_eqb→eq : (s t : Text) → text_eqb s t ≡ true → s ≡ t
unfolding text_eqb
text_eqb→eq [] [] e = refl
text_eqb→eq [] (d ∷ t) e = cc
text_eqb→eq (c ∷ s) [] e = cc
text_eqb→eq (c ∷ s) (d ∷ t) e = ground (arith, text_eqb→eq s t)

pub text_eqb_refl : (t : Text) → text_eqb t t ≡ true
unfolding text_eqb
text_eqb_refl [] = refl
text_eqb_refl (c ∷ t) = ground (arith, text_eqb_refl t)

-- A text has a character.
abbrev pub has_char : ℕ → Text → Bool
has_char x t = is_some (split_at x t)

pub has_char-append : (x : ℕ) (s t : Text) → has_char x (s ++ t) ≡ (has_char x s || has_char x t)
unfolding split_at
has_char-append x [] t = refl
has_char-append x (c ∷ s) t = elim (Bool-cases (c == x)) [
  | inl e ↦ rw e refl
  | inr e ↦
      rw e (found_later (split_at x (s ++ t)) (split_at x s) (has_char x t) (has_char-append x s t))
]
  where
    found_later :
        (o p : Option (Text × Text)) (b : Bool)
        → is_some o ≡ (is_some p || b)
        → is_some {A = Text × Text}
            (elim o [ none ↦ none | some (before, behind) ↦ some (c ∷ before, behind) ])
          ≡ (is_some {A = Text × Text}
                (elim p [ none ↦ none | some (before, behind) ↦ some (c ∷ before, behind) ])
              || b)
    found_later o p b e = ground arith

pub split_at-append :
    (x : ℕ) (s t : Text) → has_char x s ≡ false → split_at x (s ++ x ∷ t) ≡ some (s, t)
unfolding split_at
split_at-append x [] t h = rw (==_refl x) refl
split_at-append x (c ∷ s) t h = elim (Bool-cases (c == x)) [
  | inl e ↦ cc (rw e at h)
  | inr e ↦ rw (e, split_at-append x s t (shorter (split_at x s) (rw e at h))) refl
]
  where
    shorter :
        (o : Option (Text × Text))
        → is_some {A = Text × Text}
            (elim o [ none ↦ none | some (before, behind) ↦ some (c ∷ before, behind) ])
          ≡ false
        → is_some o ≡ false
    shorter o e = ground arith

pub take-append-drop : (n : ℕ) (t : Text) → take n t ++ drop n t ≡ t
take-append-drop zero t = refl
take-append-drop (suc n) [] = refl
take-append-drop (suc n) (c ∷ t) = ap (◌∷◌ c) (take-append-drop n t)

-- No name has the character.
abbrev pub NamesLack : ℕ → NameMap → Type 0
NamesLack x names = All (λ e. has_char x e.0 ≡ false) names

pub find_name-has_char :
    (x : ℕ) (t : Text) (names : NameMap)
    → NamesLack x names
    → has_char x t ≡ true
    → find_name t names ≡ none
unfolding find_name
find_name-has_char x t [] l h = refl
find_name-has_char x t ((s, c) ∷ names) l h = elim (Bool-cases (text_eqb s t)) [
  | inl e ↦ cc (l.0, h, ap (has_char x) (text_eqb→eq s t e))
  | inr e ↦ rw e (find_name-has_char x t names l.1 h)
]

-- A name that is found lacks the character, too.
pub find_name-lacks :
    (x : ℕ) (t : Text) (names : NameMap)
    → NamesLack x names
    → is_some (find_name t names) ≡ true
    → has_char x t ≡ false
find_name-lacks x t names l h = elim (Bool-cases (has_char x t)) [
  | inl e ↦ cc (rw (find_name-has_char x t names l e) at h)
  | inr e ↦ e
]

-- Erasing what was entered restores the maps.
pub erase_name-emplace_name :
    (t : Text) (c : ℕ) (names : NameMap)
    → is_some (find_name t names) ≡ false
    → erase_name t (emplace_name t c names) ≡ names
unfolding find_name emplace_name erase_name
erase_name-emplace_name t c [] h = rw (text_eqb_refl t) refl
erase_name-emplace_name t c ((s, d) ∷ names) h = elim (Bool-cases (text_eqb s t)) [
  | inl e ↦ cc (rw e at h)
  | inr e ↦ elim (Bool-cases (text_lt t s)) [
    | inl b ↦ rw (b, text_eqb_refl t) refl
    | inr b ↦ rw (b, e) (ap (◌∷◌ (s, d)) (erase_name-emplace_name t c names (rw e at h)))
  ]
]

erase_absent {ℓ} : {V : Type ℓ} (k : ℕ) (d : Dict V) → is_some (lookup k d) ≡ false → erase k d ≡ d
unfolding lookup erase
erase_absent k [] h = refl
erase_absent k ((j, v) ∷ d) h = elim (Bool-cases (j == k)) [
  | inl e ↦ cc (rw e at h)
  | inr e ↦ rw e (ap (◌∷◌ (j, v)) (erase_absent k d (rw e at h)))
]

pub erase-insert {ℓ} :
    {V : Type ℓ} (k : ℕ) (v : V) (d : Dict V)
    → is_some (lookup k d) ≡ false
    → erase k (insert k v d) ≡ d
unfolding lookup insert erase
erase-insert k v [] h = rw (==_refl k) refl
erase-insert k v ((j, w) ∷ d) h = elim (Bool-cases (j == k)) [
  | inl e ↦ cc (rw e at h)
  | inr e ↦ rw (e, e) (ap (◌∷◌ (j, w)) (erase-insert k v d (rw e at h)))
]
