-- ===== src/Errors.antt =====
-- fins/error.go: the errors that the client's operations return, and the texts of their `Error`
-- methods.
use Prim.Native.Nat.{ℕ}
use Prim.Native.String.{String, ◌++◌}

pub data Error : Type 0 where
  -- ResponseTimeoutError, with its duration
  response_timeout : ℕ → Error
  -- IncompatibleMemoryAreaError, with the area
  incompatible_memory_area : ℕ → Error
  -- BCDBadDigitError, with the nibble's name and its value
  bcd_bad_digit : String → ℕ → Error
  -- BCDOverflowError
  bcd_overflow : Error
  -- the error that `checkResponse` makes of an end code
  end_code_reported : ℕ → Error
  -- an error of the net package, by a number
  conn_error : ℕ → Error

-- What the texts take from the packages fmt and net: the verbs `%d`, `%X` and `%x`, and the text of a
-- connection's error.
module _ (decimal upper_hex lower_hex net_text : ℕ → String) where
  unfoldable pub error_text : Error → String
  error_text (response_timeout duration) =
      "Response timeout of " ++ (decimal duration ++ " has been reached")
  error_text (incompatible_memory_area area) =
      "The memory area is incompatible with the data type to be read: 0x" ++ upper_hex area
  error_text (bcd_bad_digit v val) = "Bad digit in BCD decoding: " ++ (v ++ (" = " ++ decimal val))
  error_text bcd_overflow = "Overflow occurred in BCD decoding"
  error_text (end_code_reported end_code) =
      "error reported by destination, end code 0x" ++ lower_hex end_code
  error_text (conn_error e) = net_text e
