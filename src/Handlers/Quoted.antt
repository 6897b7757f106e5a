-- ===== src/Handlers/Quoted.antt =====
-- ParseQuotedBased64Json of go-indexer/dbutil/parse.go and the ParseEventData that replaced it.
use vault_indexer.Prelude.{Text, ◌≡◌, none, some, Result, ok, err, wrap, ◌>>=◌, text, arith, ◌↔◌}
use vault_indexer.Database.Events.{PublicEventsSelect, bytes}
use vault_indexer.Handlers.{EventData}
use vault_indexer.Handlers.Controller.{
  Codec, trim_quotes, base64_string, or_original, parse_event_data, parse_quoted_based64_json,
}

-- On a quoted string whose content needs no unquoting, both parse the same data, if any.
parse_quoted_based64_json-parse_event_data :
    (codec : Codec) (event : PublicEventsSelect) (s u : Text)
    → event.raw_data ≡ bytes s
    → codec.unquote s ≡ some u
    → trim_quotes s ≡ u
    → codec.unquote u ≡ none
    → (d : EventData)
    → (parse_quoted_based64_json codec event ≡ ok d)
      ↔ (parse_event_data codec event.raw_data ≡ ok d)
unfolding parse_quoted_based64_json parse_event_data base64_string or_original
parse_quoted_based64_json-parse_event_data codec event s u raw q t n d =
    rw (raw, q, t, n) (of_decoded (codec.decode_base64 u))
  where
    of_data :
        (r : Result EventData)
        → (wrap (text "failed to unmarshal raw data: ") r ≡ ok d)
          ↔ (wrap (text "failed to parse JSON: ") r ≡ ok d)
    of_data (ok x) = ((λ h. h), (λ h. h))
    of_data (err e) = ((λ h. absurd (ground arith)), (λ h. absurd (ground arith)))

    of_decoded :
        (r : Result Text)
        → ((wrap (text "failed to decode base64: ") r >>= λ decoded.
              wrap (text "failed to unmarshal raw data: ") (codec.unmarshal decoded))
            ≡ ok d)
          ↔ ((wrap (text "failed to decode base64: ") r >>= λ decoded.
                wrap (text "failed to parse JSON: ") (codec.unmarshal decoded))
              ≡ ok d)
    of_decoded (ok x) = of_data (codec.unmarshal x)
    of_decoded (err e) = ((λ h. absurd (ground arith)), (λ h. absurd (ground arith)))
