-- ===== src/Reports/Statuses.antt =====
-- The statuses of orders in the reports of the REST connections and of the socket.
use Prim.Native.String.{String}
use spot_grid_bot.Base.{ℕ, ◌≡◌, ◌≢◌, refl, Bool, true, false, ◌||◌, arith, if◌then◌else◌}
use spot_grid_bot.Orders.{same_text}
use spot_grid_bot.UserChannel.{translate_order_status}
use spot_grid_bot.Reports.{rest_order_status}
use spot_grid_bot.Reports.Names.{ord_status_to_string}

-- What holds of every result of a chain of tests holds of the chain.
chain {ℓ} :
    {A : Type 0} (P : A → Type ℓ) {a b c d e f : A}
    → P a
    → P b
    → P c
    → P d
    → P e
    → P f
    → (p q r s t : Bool)
    → P (if p then a else if q then b else if r then c else if s then d else if t then e else f)
chain P a b c d e f true q r s t = a
chain P a b c d e f false true r s t = b
chain P a b c d e f false false true s t = c
chain P a b c d e f false false false true t = d
chain P a b c d e f false false false false true = e
chain P a b c d e f false false false false false = f

longer_chain {ℓ} :
    {A : Type 0} (P : A → Type ℓ) {a b c d e f g : A}
    → P a
    → P b
    → P c
    → P d
    → P e
    → P f
    → P g
    → (o p q r s t : Bool)
    → P (
        if o
        then a
        else if p
        then b
        else if q
        then c
        else if r
        then d
        else if s
        then e
        else if t
        then f
        else g)
longer_chain P a b c d e f g true p q r s t = a
longer_chain P a b c d e f g false p q r s t = chain P b c d e f g p q r s t

module _ (in_parentheses : ℕ → String) where
  abbrev ReadBack : ℕ × ℕ → Type 0
  ReadBack p =
      (rest_order_status (ord_status_to_string in_parentheses p.0) ≡ p)
      × (translate_order_status (ord_status_to_string in_parentheses p.0) ≡ p)

  rest_order_status-ReadBack : (s : String) → ReadBack (rest_order_status s)
  unfolding rest_order_status translate_order_status ord_status_to_string
  rest_order_status-ReadBack s =
      chain ReadBack (refl, refl) (refl, refl) (refl, refl) (refl, refl) (refl, refl) (refl, refl)
        (same_text s "NEW") (same_text s "PARTIALLY_FILLED") (same_text s "FILLED")
        (same_text s "CANCELED") (same_text s "EXPIRED")

  socket_status-ReadBack : (s : String) → ReadBack (translate_order_status s)
  unfolding rest_order_status translate_order_status ord_status_to_string
  socket_status-ReadBack s =
      longer_chain ReadBack (refl, refl) (refl, refl) (refl, refl) (refl, refl) (refl, refl)
        (refl, refl) (refl, refl) (same_text s "OPEN" || same_text s "PENDING" || same_text s "NEW")
        (same_text s "FILLED" || same_text s "DONE" || same_text s "FILLED")
        (same_text s "CANCELLED" || same_text s "CANCELED")
        (same_text s "REJECTED" || same_text s "FAILED" || same_text s "REJECTED")
        (same_text s "PARTIALLY_FILLED" || same_text s "PARTIALLY_FILLED")
        (same_text s "EXPIRED" || same_text s "EXPIRED")

-- Whatever text a status comes from, over REST or over the socket, the name that OrdStatusToString
-- gives it is read back by both translations as the same status and the same purpose of the report.
pub ord_status_to_string-read_back :
    (in_parentheses : ℕ → String) (s : String)
    → let name = ord_status_to_string in_parentheses in
      (rest_order_status (name (rest_order_status s).0) ≡ rest_order_status s)
      × (translate_order_status (name (rest_order_status s).0) ≡ rest_order_status s)
      × (rest_order_status (name (translate_order_status s).0) ≡ translate_order_status s)
      × (translate_order_status (name (translate_order_status s).0) ≡ translate_order_status s)
ord_status_to_string-read_back in_parentheses s =
    let (a, b) = rest_order_status-ReadBack in_parentheses s in
    let (c, d) = socket_status-ReadBack in_parentheses s in (a, b, c, d)

-- The six names of include/Definitions.h
unfoldable pub is_status_name : String → Bool
is_status_name s =
    same_text s "NEW"
    || (same_text s "PARTIALLY_FILLED"
        || (same_text s "FILLED"
            || (same_text s "CANCELED" || (same_text s "REJECTED" || same_text s "EXPIRED"))))

socket_never_rejects :
    (o p n f d c x r l y e : Bool)
    → (n || (y || (f || (x || (r || e))))) ≡ false
    → l ≡ false
    → let report : ℕ × ℕ =
        if o || p || n
        then (b'0', b'0')
        else if f || d || f
        then (b'2', b'2')
        else if c || x
        then (b'4', b'4')
        else if r || l || r
        then (b'8', b'8')
        else if y || y
        then (b'1', b'1')
        else if e || e
        then (b'C', b'C')
        else (b'0', b'0') in
      ◌≢◌ {A = ℕ} report.0 b'8'
socket_never_rejects o p n f d c x r l y e h k = ground arith

socket_never_rejects_at :
    (s : String)
    → is_status_name s ≡ false
    → same_text s "FAILED" ≡ false
    → ◌≢◌ {A = ℕ} (translate_order_status s).0 b'8'
unfolding translate_order_status is_status_name
socket_never_rejects_at s =
    socket_never_rejects (same_text s "OPEN") (same_text s "PENDING") (same_text s "NEW")
      (same_text s "FILLED") (same_text s "DONE") (same_text s "CANCELLED") (same_text s "CANCELED")
      (same_text s "REJECTED") (same_text s "FAILED") (same_text s "PARTIALLY_FILLED")
      (same_text s "EXPIRED")

rest_else_rejected :
    (n y f x r e : Bool)
    → (n || (y || (f || (x || (r || e))))) ≡ false
    → ◌≡◌ {A = ℕ × ℕ}
        (if n
          then (b'0', b'0')
          else if y
          then (b'1', b'1')
          else if f
          then (b'2', b'2')
          else if x
          then (b'4', b'4')
          else if e
          then (b'C', b'C')
          else (b'8', b'8'))
        (b'8', b'8')
rest_else_rejected n y f x r e h = ground arith

-- The REST translation and the socket's agree on the six names of Definitions.h. On any other text
-- but "FAILED" the former answers rejected, and the latter never does.
pub order_statuses_differ :
    (s : String)
    → is_status_name s ≡ false
    → same_text s "FAILED" ≡ false
    → (rest_order_status s ≡ (b'8', b'8'))
      × ◌≢◌ {A = ℕ} (translate_order_status s).0 b'8'
      × (rest_order_status "NEW" ≡ translate_order_status "NEW")
      × (rest_order_status "PARTIALLY_FILLED" ≡ translate_order_status "PARTIALLY_FILLED")
      × (rest_order_status "FILLED" ≡ translate_order_status "FILLED")
      × (rest_order_status "CANCELED" ≡ translate_order_status "CANCELED")
      × (rest_order_status "REJECTED" ≡ translate_order_status "REJECTED")
      × (rest_order_status "EXPIRED" ≡ translate_order_status "EXPIRED")
unfolding rest_order_status translate_order_status is_status_name
order_statuses_differ s h k = (
  rest_else_rejected (same_text s "NEW") (same_text s "PARTIALLY_FILLED") (same_text s "FILLED")
      (same_text s "CANCELED") (same_text s "REJECTED") (same_text s "EXPIRED") h,
  socket_never_rejects_at s h k,
  refl,
  refl,
  refl,
  refl,
  refl,
  refl,
)
