-- ===== src/Config/Lowercase.antt =====
-- The addresses of a configuration are in lower case, as the events table has them.
use vault_indexer.Prelude.{
  wrap, Text, ◌≡◌, subst, List, [], ◌∷◌, All, map, Result, ok, err, ◌>>=◌, to_lower, to_lower_idem,
  text, arith, ok-injective,
}
use vault_indexer.Config.{
  Config, ContractConfig, Host, lower_address, completed, load, load_env_file, environment_name,
  succeeds,
}

abbrev LowerAddress : ContractConfig → Type 0
LowerAddress c = to_lower c.address ≡ c.address

all_lower : (cs : List ContractConfig) → All LowerAddress (map lower_address cs)
all_lower [] = tt
all_lower (c ∷ cs) = (to_lower_idem c.address, all_lower cs)

of_chain :
    (env : Result (Text → Text)) (file : Result (Unit {0})) (read : Result Config) (c : Config)
    → (env >>= λ getenv. file >>= λ done. read >>= λ config. ok (completed getenv config)) ≡ ok c
    → All LowerAddress c.contracts
of_chain (ok getenv) (ok done) (ok config) c h =
    subst (λ d. All LowerAddress d.contracts) (ok-injective (completed getenv config) c h)
      (all_lower config.contracts)
of_chain (ok getenv) (ok done) (err e) c h = absurd (ground arith)
of_chain (ok getenv) (err e) read c h = absurd (ground arith)
of_chain (err e) file read c h = absurd (ground arith)

-- Every contract of a configuration that is loaded has its address in lower case.
load-LowerAddress : (host : Host) (c : Config) → load host ≡ ok c → All LowerAddress c.contracts
unfolding load
load-LowerAddress host c h =
    of_chain (load_env_file host (environment_name (host.getenv (text "ENV"))))
      (succeeds (text "failed to read config file: ") host.read_in_config)
      (wrap (text "failed to unmarshal config: ") host.unmarshal) c h
