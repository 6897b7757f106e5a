-- ===== src/Finality/Tests.antt =====
-- A turn on an event that is still in the chain, and on chains with different heads.
use vault_indexer.Prelude.{eq_text, set_string-print_ℤ}
use vault_indexer.Query.Events.{EventReplies, event_integer}
use vault_indexer.Finality.{next_query}
use vault_indexer.Finality.Next.{Outcome, get_next_event_to_validate_correct}
use vault_indexer.Prelude.{true, ◌≡◌, refl, pos, none, [], ◌∷◌, ok, inl, arith, text}
use vault_indexer.Database.Events.{PublicEventsSelect, RawData}
use vault_indexer.Query.{body}
use vault_indexer.Reorg.{found, check_canonical_block}
use vault_indexer.Finality.{
  Calls, Verdict, validated, validate_tag, get_last_validated_block_number,
  get_next_event_to_validate, update_last_validated_block_number,
}
use vault_indexer.Finality.Loop.{checks, run}
use vault_indexer.Finality.Ascending.{Ascending, finalized_blocks, safe_blocks, run-Ascending}
use vault_indexer.Finality.Monotone.{Established, validate_tag_correct}

abbrev event : PublicEventsSelect
event = record {
  block_hash = text "0xh";
  block_number = pos 7;
  contract_address = text "0xva";
  created_at = none;
  event_name = text "Transfer";
  id = text "e1";
  is_processed = none;
  last_updated_at = none;
  log_index = pos 0;
  raw_data = RawData.string [];
  transaction_hash = text "0xt";
}

abbrev calls : Calls
calls = record {
  header_by_tag = λ tag. ok (pos 5);
  sources = record { header_by_hash = λ hash. found (pos 7); execute = λ q. body (event ∷ []) };
  block_finality =
      λ q. body (record { block_tag = text "safe"; last_validated_block_number = pos 3 } ∷ []);
  upsert = λ row. none;
}

abbrev written_row : Verdict
written_row = validated (record { last_validated_block_number = pos 7; block_tag = text "safe" })

last_three : get_last_validated_block_number calls (text "safe") ≡ ok (pos 3)
unfolding get_last_validated_block_number
last_three = refl

turned : validate_tag calls (text "safe") ≡ ok written_row
unfolding validate_tag get_last_validated_block_number get_next_event_to_validate
    update_last_validated_block_number check_canonical_block
turned = refl

validate_tag_correct_example : Established calls (event ∷ []) (text "safe") (pos 3) written_row
validate_tag_correct_example =
    validate_tag_correct calls (event ∷ []) (text "safe") (pos 3) last_three
      (inl refl, omega arith, ((λ h. omega arith), tt)) written_row turned

last_finalized : get_last_validated_block_number calls (text "finalized") ≡ ok (pos 3)
unfolding get_last_validated_block_number
last_finalized = refl

run-Ascending_example :
    Ascending (pos 3) (finalized_blocks (run (checks calls calls true ∷ [])).0)
    × Ascending (pos 3) (safe_blocks (run (checks calls calls true ∷ [])).0)
run-Ascending_example =
    run-Ascending (checks calls calls true ∷ []) (pos 3) (pos 3)
      ((last_finalized, (event ∷ [], (inl refl, omega arith, ((λ h. omega arith), tt)))), tt)
      ((last_three, (event ∷ [], (inl refl, omega arith, ((λ h. omega arith), tt)))), tt)

-- The database's answer after block 3.
answer_three : EventReplies (next_query (pos 3)) (event ∷ []) (body (event ∷ []))
unfolding event_integer eq_text text
answer_three = (
  event ∷ [],
  record {
    selected =
        ((inl refl, ((pos 7, pos 3, refl, set_string-print_ℤ (pos 3), omega arith), tt)), tt);
    ordered = (tt, tt);
    within = tt;
    complete = ((λ s. inl (inl refl)), tt);
  },
  (((λ h. refl), (λ h. refl), (λ h. refl)), tt),
)

get_next_event_to_validate_correct_example :
    Outcome (event ∷ []) (pos 3) (body (event ∷ [])) (get_next_event_to_validate calls (pos 3))
get_next_event_to_validate_correct_example =
    get_next_event_to_validate_correct (pos 3) calls (event ∷ []) answer_three
