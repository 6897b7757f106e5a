-- ===== src/DataCheck/Success.antt =====
-- When the data check succeeds.
use vault_indexer.Prelude.{
  Text, ℕ, ◌≡◌, ◌↔◌, refl, ap, Option, none, some, List, [], ◌∷◌, All, Result, ok, err, ◌>>=◌,
  ok-injective, arith,
}
use vault_indexer.DataCheck.{
  Table, events_table, rate_updates_table, withdraw_requests_table, positions_table, Rows,
  Difference, compare_fn,
}
use vault_indexer.DataCheck.Compare.{Agree, compare_fn_correct}
use vault_indexer.DataCheck.Script.{
  Driver, Database, exit_code, fetch, get_unique_contract_addresses, add_difference, check_pair,
  check_contracts, check_tables, data_check, reported,
}

module _ (driver : Driver) (local remote : Database driver) (current_block : ℕ) where
  -- Both databases are read, and their rows agree.
  abbrev Passes : Table → Text → Type 0
  Passes table contract =
      (l r : Rows) × (fetch driver remote table contract current_block ≡ ok r)
      × (fetch driver local table contract current_block ≡ ok l)
      × Agree table l r

  abbrev Differences : Type 0
  Differences = Result (List (Table × Text × Difference))

  -- A pair on the answers that it gets.
  pair_of :
      (table : Table) (contract : Text) (remote_rows local_rows : Result Rows) (rest : Differences)
      → (remote_rows >>= λ r. local_rows >>= λ l. rest >>= λ ds. ok (
          add_difference driver local remote current_block table contract
            (compare_fn table l r)
            ds))
        ≡ ok []
      → ((l r : Rows) × (remote_rows ≡ ok r) × (local_rows ≡ ok l) × Agree table l r)
        × (rest ≡ ok [])
  pair_of table contract (err e) ls rest h = absurd (ground arith)
  pair_of table contract (ok r) (err e) rest h = absurd (ground arith)
  pair_of table contract (ok r) (ok l) (err e) h = absurd (ground arith)
  pair_of table contract (ok r) (ok l) (ok ds) h =
      let (none_, empty) = no_difference (compare_fn table l r) ds (ok-injective _ _ h) in
      ((l, r, refl, refl, (compare_fn_correct table l r).0 none_), ap ok empty)
    where
      no_difference :
          (d : Option Difference) (es : List (Table × Text × Difference))
          → add_difference driver local remote current_block table contract d es ≡ []
          → (d ≡ none) × (es ≡ [])
      no_difference none es k = (refl, k)
      no_difference (some d) es k = absurd (ground arith)

  pair_correct :
      (table : Table) (contract : Text) (rest : Differences)
      → (check_pair driver local remote current_block table contract rest ≡ ok [])
        ↔ (Passes table contract × (rest ≡ ok []))
  unfolding check_pair
  pair_correct table contract rest = (
    pair_of table contract (fetch driver remote table contract current_block)
        (fetch driver local table contract current_block) rest,
    λ h.
        let ((l, r, hr, hl, a), e) = h in
        let n = (compare_fn_correct table l r).1 a in rw (hr, hl, e, n) refl,
  )

  contracts_correct :
      (table : Table) (contracts : List Text) (rest : Differences)
      → (check_contracts driver local remote current_block table contracts rest ≡ ok [])
        ↔ (All (Passes table) contracts × (rest ≡ ok []))
  unfolding check_contracts
  contracts_correct table [] rest = (λ h. (tt, h), λ h. h.1)
  contracts_correct table (c ∷ cs) rest =
      let pair =
        pair_correct table c (check_contracts driver local remote current_block table cs rest) in
      let others = contracts_correct table cs rest in
      (
        λ h. let (p, q) = pair.0 h in let (a, e) = others.0 q in ((p, a), e),
        λ h. pair.1 (h.0.0, others.1 (h.0.1, h.1)),
      )

  abbrev pub AllPass : List Text → Type 0
  AllPass contracts =
      All (Passes events_table) contracts
      × All (Passes rate_updates_table) contracts
      × All (Passes withdraw_requests_table) contracts
      × All (Passes positions_table) contracts

  tables_correct :
      (contracts : List Text)
      → (check_tables driver local remote current_block contracts ≡ ok []) ↔ AllPass contracts
  unfolding check_tables
  tables_correct contracts =
      let first = contracts_correct events_table contracts _ in
      let second = contracts_correct rate_updates_table contracts _ in
      let third = contracts_correct withdraw_requests_table contracts _ in
      let fourth = contracts_correct positions_table contracts (ok []) in
      (
        λ h.
            let (a, h) = first.0 h in
            let (b, h) = second.0 h in
            let (c, h) = third.0 h in let (d, h) = fourth.0 h in (a, b, c, d),
        λ h. first.1 (h.0, second.1 (h.1, third.1 (h.2, fourth.1 (h.3, refl)))),
      )

  -- The data check at a block exits with 0 exactly if the contracts are read, and for each of them and each table
  -- the rows of both databases are read and agree in the compared columns.
  pub data_check_correct : (exit_code (data_check driver local remote (ok current_block)) ≡ 0) ↔ (
      (contracts : List Text) × (get_unique_contract_addresses driver remote current_block
        ≡ ok contracts)
      × AllPass contracts)
  unfolding data_check
  data_check_correct = (
    λ h. forward (get_unique_contract_addresses driver remote current_block) refl h,
    λ h. let (cs, g, a) = h in let t = (tables_correct cs).1 a in rw (g, t) refl,
  )
    where
      of_report : (r : Differences) → exit_code (reported driver r) ≡ 0 → r ≡ ok []
      of_report (ok []) h = refl
      of_report (ok (d ∷ ds)) h = absurd (omega arith)
      of_report (err e) h = absurd (omega arith)

      forward :
          (g : Result (List Text))
          → get_unique_contract_addresses driver remote current_block ≡ g
          → exit_code (reported driver (g >>= check_tables driver local remote current_block)) ≡ 0
          → (contracts : List Text) × (get_unique_contract_addresses driver remote current_block
              ≡ ok contracts)
            × AllPass contracts
      forward (err e) q h = absurd (omega arith)
      forward (ok cs) q h = (
        cs,
        q,
        (tables_correct cs).0 (of_report (check_tables driver local remote current_block cs) h),
      )
