-- ===== src/Quote/Fields.antt =====
-- The fields of a quote by number and by name: `Quote::GetInt`, `GetField` and `GetBaseType` of
-- lib/orderbook/src/Quote.cpp.
use Prim.Native.String.{String, compare}
use Prim.Native.Nat.{Ordering}
use spot_grid_bot.Base.{
  ◌≡◌, refl, Bool, true, false, not, Option, none, some, if◌then◌else◌, is_some,
}
use native.Mathlib.Omega.{arith}
use spot_grid_bot.Base.Int.{ℤ}
use spot_grid_bot.Quote.{Quote}

-- `Quote::Field`
pub data Field : Type 0 where
  no_field : Field
  fld_level : Field
  fld_level_volume : Field
  fld_aggregate_volume : Field
  fld_quote_id : Field
  fld_comp_id : Field
  fld_session : Field
  fld_pb : Field
  fld_seq_num : Field
  fld_price : Field
  fld_volume : Field
  fld_min_quantity : Field
  fld_key : Field
  fld_ref_key : Field
  fld_sending_time : Field
  fld_receipt_time : Field
  fld_quote_type : Field
  fld_position_no : Field
  fld_adpt_receive_time : Field

-- `Quote::FieldBaseType`
pub data FieldBaseType : Type 0 where
  no_type : FieldBaseType
  int64_type : FieldBaseType
  string_type : FieldBaseType

-- `GetInt`; none is the exception.
unfoldable pub get_int : Quote → Field → Option ℤ
get_int q fld_seq_num = some q.seqnum
get_int q fld_price = some q.price
get_int q fld_volume = some q.volume
get_int q fld_min_quantity = some q.min_qty
get_int q fld_key = some q.key
get_int q fld_ref_key = some q.ref_key
get_int q fld_sending_time = some q.sending_time
get_int q fld_receipt_time = some q.receipt_time
get_int q fld_quote_type = some q.quote_type
get_int q fld_position_no = some q.position_no
get_int q _ = none

-- `GetBaseType`
unfoldable pub get_base_type : Field → FieldBaseType
get_base_type fld_level = int64_type
get_base_type fld_level_volume = int64_type
get_base_type fld_aggregate_volume = int64_type
get_base_type fld_quote_id = string_type
get_base_type fld_comp_id = string_type
get_base_type fld_session = string_type
get_base_type fld_pb = string_type
get_base_type fld_seq_num = int64_type
get_base_type fld_price = int64_type
get_base_type fld_volume = int64_type
get_base_type fld_min_quantity = int64_type
get_base_type fld_key = int64_type
get_base_type fld_ref_key = int64_type
get_base_type fld_sending_time = int64_type
get_base_type fld_receipt_time = int64_type
get_base_type fld_quote_type = int64_type
get_base_type _ = no_type

abbrev pub same_name : String → String → Bool
same_name s t = elim (compare s t) [ Ordering.eq ↦ true | _ ↦ false ]

-- `GetField`, of the name in capitals
unfoldable pub get_field : String → Field
get_field name =
    if same_name name "LEVEL"
    then fld_level
    else if same_name name "LEVELVOLUME"
    then fld_level_volume
    else if same_name name "AGGREGATEVOLUME"
    then fld_aggregate_volume
    else if same_name name "QUOTEID"
    then fld_quote_id
    else if same_name name "COMPID"
    then fld_comp_id
    else if same_name name "SESSION"
    then fld_session
    else if same_name name "PB"
    then fld_pb
    else if same_name name "SEQNUM"
    then fld_seq_num
    else if same_name name "PRICE"
    then fld_price
    else if same_name name "VOLUME"
    then fld_volume
    else if same_name name "MINQUANTITY"
    then fld_min_quantity
    else if same_name name "KEY"
    then fld_key
    else if same_name name "REFKEY"
    then fld_ref_key
    else if same_name name "SENDINGTIME"
    then fld_sending_time
    else if same_name name "RECEIPTTIME"
    then fld_receipt_time
    else if same_name name "QUOTETYPE"
    then fld_quote_type
    else if same_name name "POSITIONNO"
    then fld_position_no
    else no_field

-- The names that `GetField` knows
abbrev pub name_of : Field → Option String
name_of fld_level = some "LEVEL"
name_of fld_level_volume = some "LEVELVOLUME"
name_of fld_aggregate_volume = some "AGGREGATEVOLUME"
name_of fld_quote_id = some "QUOTEID"
name_of fld_comp_id = some "COMPID"
name_of fld_session = some "SESSION"
name_of fld_pb = some "PB"
name_of fld_seq_num = some "SEQNUM"
name_of fld_price = some "PRICE"
name_of fld_volume = some "VOLUME"
name_of fld_min_quantity = some "MINQUANTITY"
name_of fld_key = some "KEY"
name_of fld_ref_key = some "REFKEY"
name_of fld_sending_time = some "SENDINGTIME"
name_of fld_receipt_time = some "RECEIPTTIME"
name_of fld_quote_type = some "QUOTETYPE"
name_of fld_position_no = some "POSITIONNO"
name_of _ = none

abbrev pub named : Option String → Field
named none = no_field
named (some name) = get_field name

-- Each field with a name is found by it.
pub get_field-name_of : (f : Field) → is_some (name_of f) ≡ true → named (name_of f) ≡ f
unfolding get_field
get_field-name_of no_field e = refl
get_field-name_of fld_level e = refl
get_field-name_of fld_level_volume e = refl
get_field-name_of fld_aggregate_volume e = refl
get_field-name_of fld_quote_id e = refl
get_field-name_of fld_comp_id e = refl
get_field-name_of fld_session e = refl
get_field-name_of fld_pb e = refl
get_field-name_of fld_seq_num e = refl
get_field-name_of fld_price e = refl
get_field-name_of fld_volume e = refl
get_field-name_of fld_min_quantity e = refl
get_field-name_of fld_key e = refl
get_field-name_of fld_ref_key e = refl
get_field-name_of fld_sending_time e = refl
get_field-name_of fld_receipt_time e = refl
get_field-name_of fld_quote_type e = refl
get_field-name_of fld_position_no e = refl
get_field-name_of fld_adpt_receive_time e = ground arith

-- The fields for which the level's position or volume would have to be known
abbrev pub is_of_level : Field → Bool
is_of_level fld_level = true
is_of_level fld_level_volume = true
is_of_level fld_aggregate_volume = true
is_of_level _ = false

-- A field whose base type is a 64-bit integer has an integer value, unless it is the level, the
-- level volume or the aggregate volume: for these `GetInt` throws.
pub get_int-get_base_type :
    (q : Quote) (f : Field)
    → get_base_type f ≡ int64_type
    → is_some (get_int q f) ≡ not (is_of_level f)
unfolding get_int get_base_type
get_int-get_base_type q no_field e = ground arith
get_int-get_base_type q fld_level e = refl
get_int-get_base_type q fld_level_volume e = refl
get_int-get_base_type q fld_aggregate_volume e = refl
get_int-get_base_type q fld_quote_id e = ground arith
get_int-get_base_type q fld_comp_id e = ground arith
get_int-get_base_type q fld_session e = ground arith
get_int-get_base_type q fld_pb e = ground arith
get_int-get_base_type q fld_seq_num e = refl
get_int-get_base_type q fld_price e = refl
get_int-get_base_type q fld_volume e = refl
get_int-get_base_type q fld_min_quantity e = refl
get_int-get_base_type q fld_key e = refl
get_int-get_base_type q fld_ref_key e = refl
get_int-get_base_type q fld_sending_time e = refl
get_int-get_base_type q fld_receipt_time e = refl
get_int-get_base_type q fld_quote_type e = refl
get_int-get_base_type q fld_position_no e = ground arith
get_int-get_base_type q fld_adpt_receive_time e = ground arith
