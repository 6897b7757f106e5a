-- ===== src/Handlers/Controller.antt =====
-- TransformHandler (controller.go): an event's raw data is parsed, and its name chooses the handler.
use vault_indexer.Prelude.{
  ◌++◌, wrap, Text, ℕ, ◌==◌, Option, none, some, [], ◌∷◌, Result, ok, err, ◌>>=◌, text, eq_text,
  if◌then◌else◌,
}
use vault_indexer.Database.Events.{PublicEventsSelect, RawData, string, bytes, other}
use vault_indexer.Database.Operations.{DatabaseOperations}
use vault_indexer.Positions.Fetch.{Client}
use vault_indexer.Handlers.{EventData}
use vault_indexer.Handlers.Position.{
  Headers, no_operations, handle_deposit, handle_transfer, handle_withdraw, handle_rate_update,
}

-- The standard library's decoders: `strconv.Unquote` (`none` if it fails), base64, and the JSON object.
pub record Codec : Type 0 where
  pub unquote : Text → Option Text
  pub decode_base64 : Text → Result Text
  pub unmarshal : Text → Result EventData

trim_left : Text → Text
trim_left [] = []
trim_left (c ∷ s) = if c == b'"' then trim_left s else c ∷ s

push_back : ℕ → Text → Text
push_back c [] = if c == b'"' then [] else c ∷ []
push_back c (d ∷ s) = c ∷ d ∷ s

trim_right : Text → Text
unfolding push_back
trim_right [] = []
trim_right (c ∷ s) = push_back c (trim_right s)

-- `strings.Trim(s, "\"")`
unfoldable pub trim_quotes : Text → Text
unfolding trim_left trim_right
trim_quotes s = trim_right (trim_left s)

unfoldable pub base64_string : RawData → Result Text
base64_string (string s) = ok s
base64_string (bytes s) = ok s
base64_string (other kind) = err (text "unsupported raw data type: " ++ kind)

unfoldable pub or_original : Option Text → Text → Text
or_original none s = s
or_original (some u) s = u

unfoldable pub parse_event_data : Codec → RawData → Result EventData
unfolding base64_string or_original
parse_event_data codec raw = do
  s ← base64_string raw
  let trimmed = trim_quotes s
  decoded ←
      wrap (text "failed to decode base64: ")
        (codec.decode_base64 (or_original (codec.unquote trimmed) trimmed))
  wrap (text "failed to parse JSON: ") (codec.unmarshal decoded)

-- `%w` or `%v` of what Unquote returns, which is ErrSyntax if anything.
abbrev unquoted : Option Text → Result Text
unquoted none = err (text "failed to unquote raw data: invalid syntax")
unquoted (some u) = ok u

abbrev quoted_bytes : RawData → Result Text
quoted_bytes (string s) = err (text "raw data is not of type []uint8")
quoted_bytes (bytes s) = ok s
quoted_bytes (other kind) = err (text "raw data is not of type []uint8")

-- ParseQuotedBased64Json of go-indexer/dbutil/parse.go, which is called by nothing.
unfoldable pub parse_quoted_based64_json : Codec → PublicEventsSelect → Result EventData
parse_quoted_based64_json codec event = do
  s ← quoted_bytes event.raw_data
  u ← unquoted (codec.unquote s)
  decoded ← wrap (text "failed to decode base64: ") (codec.decode_base64 u)
  wrap (text "failed to unmarshal raw data: ") (codec.unmarshal decoded)

-- The switch on the event's name.
unfoldable pub dispatch :
    Client → Headers → PublicEventsSelect → EventData → Result DatabaseOperations
dispatch db chain event d =
    if eq_text event.event_name (text "Deposit")
    then handle_deposit db event d
    else if eq_text event.event_name (text "Transfer")
    then handle_transfer db event d
    else if eq_text event.event_name (text "WithdrawRequested")
    then handle_withdraw db event d
    else if eq_text event.event_name (text "RateUpdated")
    then handle_rate_update chain event d
    else ok no_operations

unfoldable pub handle : Codec → Client → Headers → PublicEventsSelect → Result DatabaseOperations
unfolding dispatch
handle codec db chain event = do
  d ← parse_event_data codec event.raw_data
  dispatch db chain event d
