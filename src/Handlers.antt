-- ===== src/Handlers.antt =====
-- The event handlers (go-indexer/event-transform-handler): the fields that each takes out of an
-- event's data, the transformer that it calls, and the operations that it asks for.
pub mod Extract
pub mod Position
pub mod Controller
pub mod Quoted
pub mod Amounts
pub mod Transfers
mod Tests
use vault_indexer.Prelude.{
  Text, ℕ, ℤ, Bool, Option, none, some, List, [], ◌∷◌, Result, ok, err, text, eq_text, print_ℕ,
  if◌then◌else◌,
}
use vault_indexer.Float.{float64}

-- A value of an event's JSON data; a number is the integer that was written, which is not negative.
pub data JsonValue : Type 0 where
  string : Text → JsonValue
  number : ℕ → JsonValue
  other : JsonValue

abbrev pub EventData : Type 0
EventData = List (Text × JsonValue)

-- `data[key]`
unfoldable pub lookup : Text → EventData → Option JsonValue
lookup key [] = none
lookup key ((k, v) ∷ d) = if eq_text k key then some v else lookup key d

string_of : Option JsonValue → Text → Result Text
string_of (some (string s)) message = ok s
string_of (some (number n)) message = err message
string_of (some other) message = err message
string_of none message = err message

-- `data[key].(string)`, or the error.
unfoldable pub get_string : Text → Text → EventData → Result Text
unfolding string_of
get_string key message d = string_of (lookup key d) message

number_of : Option JsonValue → Text → Result Text
number_of (some (number n)) message = ok (print_ℕ (float64 n))
number_of (some (string s)) message = err message
number_of (some other) message = err message
number_of none message = err message

-- `fmt.Sprintf("%.0f", data[key].(float64))`, or the error.
unfoldable pub get_number : Text → Text → EventData → Result Text
unfolding number_of
get_number key message d = number_of (lookup key d) message
