-- ===== src/Reports/Names.antt =====
-- `OrdStatusToString` and `ExecTypeToString` of lib/utils/src/Utils.cpp: the names of the FIX
-- characters for an order's status and a report's purpose. The text of another character is that
-- character in parentheses.
use Prim.Native.String.{String}
use spot_grid_bot.Base.{ℕ, ◌==◌, if◌then◌else◌}

module _ (in_parentheses : ℕ → String) where
  unfoldable pub ord_status_to_string : ℕ → String
  ord_status_to_string c =
      if c == 0
      then "NOT_SENT"
      else if c == 1
      then "SENT"
      else if c == 2
      then "TIMED_OUT"
      else if c == b'0'
      then "NEW"
      else if c == b'1'
      then "PARTIALLY_FILLED"
      else if c == b'2'
      then "FILLED"
      else if c == b'3'
      then "DONE_FOR_DAY"
      else if c == b'4'
      then "CANCELED"
      else if c == b'5'
      then "REPLACED"
      else if c == b'6'
      then "PENDING_CANCEL"
      else if c == b'7'
      then "STOPPED"
      else if c == b'8'
      then "REJECTED"
      else if c == b'9'
      then "SUSPENDED"
      else if c == b'A'
      then "PENDING_NEW"
      else if c == b'B'
      then "CALCULATED"
      else if c == b'C'
      then "EXPIRED"
      else if c == b'D'
      then "ACCEPTED_FOR_BIDDING"
      else if c == b'E'
      then "PENDING_REPLACE"
      else in_parentheses c

  unfoldable pub exec_type_to_string : ℕ → String
  unfolding ord_status_to_string
  exec_type_to_string c =
      if c == 0
      then "NONE"
      else if c == 1
      then "CANCEL_REJECT"
      else if c == 2
      then "TIMED_OUT"
      else if c == b'1'
      then "PARTIAL_FILL"
      else if c == b'2'
      then "FILL"
      else if c == b'5'
      then "REPLACE"
      else if c == b'F'
      then "TRADE"
      else if c == b'H'
      then "TRADE_CANCEL"
      else if c == b'G'
      then "TRADE_CORRECT"
      else if c == b'I'
      then "ORDER_STATUS"
      else ord_status_to_string c
