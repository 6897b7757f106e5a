-- ===== src/DataCheck/Run.antt =====
-- When the data check script succeeds, from its environment on.
use vault_indexer.Prelude.{Text, ℕ, ◌≡◌, ◌↔◌, refl, sym, subst, List, Result, ok, err, ◌>>=◌, arith}
use vault_indexer.DataCheck.Script.{
  Driver, Database, exit_code, get_unique_contract_addresses, data_check,
}
use vault_indexer.DataCheck.Success.{AllPass, data_check_correct}
use vault_indexer.DataCheck.Environment.{
  System, Network, load_env_config, set_up_connections, checked, script,
}

module _ (driver : Driver) (system : System) (network : Network driver) where
  abbrev Connections : Type 0
  Connections = Result ℕ × Database driver × Database driver

  abbrev connected : Result Connections
  connected = load_env_config system >>= set_up_connections driver network

  -- The connections, the current block and the contracts are there, and every table of every contract agrees.
  abbrev pub Succeeds : Type 0
  Succeeds =
      (local : Database driver) × (remote : Database driver) × (current_block : ℕ) × (connected
        ≡ ok (ok current_block, local, remote))
      × (contracts : List Text) × (get_unique_contract_addresses driver remote current_block
          ≡ ok contracts)
      × AllPass driver local remote current_block contracts

  forward : (r : Result Connections) → connected ≡ r → exit_code (checked driver r) ≡ 0 → Succeeds
  unfolding data_check
  forward (err e) q h = absurd (omega arith)
  forward (ok (err e, local, remote)) q h = absurd (omega arith)
  forward (ok (ok n, local, remote)) q h =
      let (contracts, g, a) = (data_check_correct driver local remote n).0 h in
      (local, remote, n, q, contracts, g, a)

  -- The data check script exits with 0 exactly if its environment is complete, the connections open, and the
  -- current block and the contracts are read, and for each contract and each table the rows of both databases
  -- are read and agree in the compared columns.
  pub script_correct : (exit_code (script driver system network) ≡ 0) ↔ Succeeds
  unfolding script
  script_correct = (
    λ h. forward connected refl h,
    λ s.
        let (local, remote, n, q, contracts, g, a) = s in
        subst (λ r. exit_code (checked driver r) ≡ 0) (sym q)
          ((data_check_correct driver local remote n).1 (contracts, g, a)),
  )
