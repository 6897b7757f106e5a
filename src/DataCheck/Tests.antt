-- ===== src/DataCheck/Tests.antt =====
-- Two databases whose withdraw requests differ in the owner.
use vault_indexer.Prelude.{
  Text, pos, ◌≡◌, ◌↔◌, refl, none, false, [], ◌∷◌, ok, err, text, eq_text, if◌then◌else◌,
}
use vault_indexer.DataCheck.{
  withdraw_requests_table, compare_withdraw_requests, compare_loop, compare_events,
  compare_rate_updates, compare_positions,
}
use vault_indexer.DataCheck.Script.{
  Driver, Database, exit_code, data_check, get_unique_contract_addresses, fetch, fetch_string,
  scan_rows_fn, scan_loop, check_tables, check_contracts, check_pair,
}
use vault_indexer.DataCheck.Environment.{System, Network, script}
use vault_indexer.DataCheck.Run.{Succeeds, script_correct}

-- A row is the owner of a withdraw request, or a contract.
abbrev driver : Driver
driver = record {
  Raw = Text;
  scan_event = λ r. err (text "no event");
  scan_rate_update = λ r. err (text "no rate update");
  scan_withdraw_request = λ r. ok (text "10", pos 7, r, text "0xr", pos 1);
  scan_position = λ r. err (text "no position");
  scan_text = λ r. ok r;
}

abbrev owned_by : Text → Database driver
owned_by owner = record {
  query = λ q contract n.
      ok (if eq_text q (fetch_string withdraw_requests_table) then owner ∷ [] else [], none);
  query_contracts = λ q n. ok (text "0xva" ∷ [], none);
}

abbrev local : Database driver
local = owned_by (text "0xa")

abbrev remote : Database driver
remote = owned_by (text "0xb")

succeeds : exit_code (data_check driver local remote (ok 12)) ≡ 0
unfolding data_check get_unique_contract_addresses scan_loop check_tables check_contracts check_pair
    fetch scan_rows_fn eq_text text compare_loop compare_events compare_rate_updates
    compare_withdraw_requests compare_positions
succeeds = refl

abbrev system : System
system = record {
  getwd = ok (text "/scripts");
  exists = λ p. false;
  load_env = λ p. err (text "no file");
  getenv = λ name. text "set";
  join = λ a b. b;
}

abbrev network : Network driver
network = record { dial = λ url. ok (ok 12); open_database = λ c. ok local }

script_correct_example :
    (exit_code (script driver system network) ≡ 0) ↔ Succeeds driver system network
script_correct_example = script_correct driver system network
