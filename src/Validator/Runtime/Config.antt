-- ===== src/Validator/Runtime/Config.antt =====
-- packages/validator/src/runtime.ts: `validateSetConfig`.
use Prim.Native.String.{◌++◌ as concat}
use logstore_archive.Base.{
  ℕ, ◌==◌, String, str_eq, ◌≡◌, refl, sym, ap, ◌∙◌, ◌↔◌, Bool, true, Option, none, some, List, [],
  ◌∷◌, any, All, if◌then◌else◌, arith, Bool-cases, Option-cases, inl, inr,
}
use logstore_archive.Base.Result.{Result, ok, err, ◌>>=◌, >>=-eq-ok, err-ne-ok, ok_inj}

pub data ConfigFailure : Type 0 where
  no_sources different_chains unknown_chain : ConfigFailure

pub record Config : Type 0 where
  pub sources : List String
  pub heartbeat_stream_id : String
  pub recovery_stream_id : String
  pub system_stream_id : String

abbrev or_unknown : Option String → Result ConfigFailure String
or_unknown none = err unknown_chain
or_unknown (some a) = ok a

-- `s.includes(t)`, the chain that a source's provider names, and the node manager's address that
-- the contracts package lists for a chain
module _ (includes : String → String → Bool) (chain_of : String → ℕ)
    (node_manager_of : ℕ → Option String) where
  abbrev pub replace_sources : List String → List String
  replace_sources sources =
      if any (λ s. includes s "polygon-rpc.com") sources
      then "https://polygon-mainnet.g.alchemy.com/v2/TZ57-u9wrzpTTndvgMNQqPq790OaEdpp" ∷ []
      else sources

  -- the loop, with `chainId`
  abbrev pub same_chain : Option ℕ → List String → Result ConfigFailure (Option ℕ)
  same_chain chain [] = ok chain
  same_chain none (s ∷ sources) = same_chain (some (chain_of s)) sources
  same_chain (some c) (s ∷ sources) =
      let rest = same_chain (some c) sources in
      if c == chain_of s then rest else err different_chains

  abbrev contracts_of : Option ℕ → Result ConfigFailure String
  contracts_of none = err unknown_chain
  contracts_of (some c) = or_unknown (node_manager_of c)

  abbrev pub stream_of : String → String → String → String
  stream_of node_manager own alpha =
      if str_eq node_manager "0x85ac4C8E780eae81Dd538053D596E382495f7Db9"
      then concat node_manager own
      else alpha

  abbrev pub config_of : List String → String → Config
  config_of sources node_manager = record {
    sources = sources;
    heartbeat_stream_id =
        stream_of node_manager "/heartbeat"
          "0xa156eda7dcd689ac725ce9595d4505bf28256454/alpha-heartbeat";
    recovery_stream_id =
        stream_of node_manager "/recovery"
          "0xa156eda7dcd689ac725ce9595d4505bf28256454/alpha-recovery";
    system_stream_id =
        stream_of node_manager "/system" "0xa156eda7dcd689ac725ce9595d4505bf28256454/alpha-system";
  }

  -- of the `sources` of the pool's configuration
  unfoldable pub validate_set_config : List String → Result ConfigFailure Config
  validate_set_config [] = err no_sources
  validate_set_config (s ∷ rest) =
      let sources = replace_sources (s ∷ rest) in
      same_chain none sources >>= contracts_of >>= λ node_manager.
      ok (config_of sources node_manager)

  same_chain-All :
      (c : ℕ) (sources : List String) (o : Option ℕ)
      → same_chain (some c) sources ≡ ok o
      → (o ≡ some c) × All (λ t. chain_of t ≡ c) sources
  same_chain-All c [] o h = (cc, tt)
  same_chain-All c (s ∷ sources) o h = elim (Bool-cases (c == chain_of s)) [
    | inl same ↦
        let (e, more) = same_chain-All c sources o (rw same at h) in (e, (ground arith, more))
    | inr other ↦ let k = rw other at h in absurd (err-ne-ok k)
  ]

  same_chain_of_All :
      (c : ℕ) (sources : List String)
      → All (λ t. chain_of t ≡ c) sources
      → same_chain (some c) sources ≡ ok (some c)
  same_chain_of_All c [] h = refl
  same_chain_of_All c (s ∷ sources) (here, more) =
      let same : (c == chain_of s) ≡ true = ground arith in
      rw same (same_chain_of_All c sources more)

  known_lem : (c : ℕ) (a : String) → contracts_of (some c) ≡ ok a → node_manager_of c ≡ some a
  known_lem c a h = elim (Option-cases (node_manager_of c)) [
    | inl gone ↦ let k = rw gone at h in absurd (err-ne-ok k)
    | inr (b, here) ↦ let k = rw here at h in here ∙ ap some (ok_inj k)
  ]

  -- from the sources to the configuration
  abbrev configure : List String → Result ConfigFailure Config
  configure sources = same_chain none sources >>= contracts_of >>= λ node_manager.
      ok (config_of sources node_manager)

  abbrev IsConfigured : List String → Config → Type 0
  IsConfigured sources c =
      (chain : ℕ) × (node_manager : String) × All (λ t. chain_of t ≡ chain) sources
      × (node_manager_of chain ≡ some node_manager)
      × (c ≡ config_of sources node_manager)

  configure_iff :
      (t : String) (ts : List String) (c : Config)
      → (configure (t ∷ ts) ≡ ok c) ↔ IsConfigured (t ∷ ts) c
  configure_iff t ts c = (
    λ h.
        let (a, found, made) =
          >>=-eq-ok (same_chain none (t ∷ ts) >>= contracts_of)
            (λ node_manager. ok (config_of (t ∷ ts) node_manager)) h in
        let (o, same, known) = >>=-eq-ok (same_chain none (t ∷ ts)) contracts_of found in
        let (one, all) = same_chain-All (chain_of t) ts o same in
        (chain_of t, a, (refl, all), known_lem (chain_of t) a (rw one at known), sym (ok_inj made)),
    λ (chain, a, (here, all), known, made).
        let same = same_chain_of_All chain ts all in rw (here, same, known, made) refl,
  )

  -- A configuration with a source is accepted exactly where the sources that it then has (its own, or
  -- the fixed one if it names polygon-rpc.com) are all of one chain, and the contracts' addresses
  -- of that chain are known.
  validate_set_config_iff :
      (s : String) (rest : List String) (c : Config)
      → (validate_set_config (s ∷ rest) ≡ ok c) ↔ (
          (chain : ℕ) × (node_manager : String) × All
            (λ t. chain_of t ≡ chain)
            (replace_sources (s ∷ rest))
          × (node_manager_of chain ≡ some node_manager)
          × (c ≡ config_of (replace_sources (s ∷ rest)) node_manager))
  unfolding validate_set_config
  validate_set_config_iff s rest c =
      elim (Bool-cases (any (λ s. includes s "polygon-rpc.com") (s ∷ rest))) [
        | inl replaced ↦ rw replaced (
            configure_iff
              "https://polygon-mainnet.g.alchemy.com/v2/TZ57-u9wrzpTTndvgMNQqPq790OaEdpp" [] c)
        | inr own ↦ rw own (configure_iff s rest c)
      ]
