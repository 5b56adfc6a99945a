-- ===== src/Node/Texts.antt =====
-- node/src/command.rs: how the two command lines of the collator present themselves
-- (`impl SubstrateCli for Cli` and `for RelayChainCli`). The version and the author come from the
-- build, and the name of the executable from the system, so they are parameters.
use Prim.Native.String.{String, ◌++◌ as ◌<>◌}
use xcm_robobank_prototype.Prelude.{ℕ, ◌≡◌, refl}
use xcm_robobank_prototype.Runtime.Weights.{RuntimeVersion, version}

-- What `trait SubstrateCli` answers, beside `load_spec` and the version of the runtime.
pub record Texts : Type 0 where
  pub impl_name : String
  pub impl_version : String
  pub description : String
  pub author : String
  pub support_url : String
  pub copyright_start_year : ℕ

-- `Cli::native_runtime_version`, for every chain.
abbrev pub native_runtime_version : {ChainSpec : Type 0} → ChainSpec → RuntimeVersion
native_runtime_version spec = version

module _ (substrate_cli_impl_version cargo_pkg_authors : String) where
  unfoldable pub cli_texts : String → Texts
  cli_texts executable_name = record {
    impl_name = "Parachain Collator Template";
    impl_version = substrate_cli_impl_version;
    description =
        "Parachain Collator Template\n\nThe command-line arguments provided first will be passed to the parachain node, while the arguments provided after -- will be passed to the relaychain node.\n\n"
        <> (executable_name <> " [parachain-args] -- [relaychain-args]");
    author = cargo_pkg_authors;
    support_url =
        "https://github.com/substrate-developer-hub/substrate-parachain-template/issues/new";
    copyright_start_year = 2017;
  }

  unfoldable pub relay_chain_texts : Texts
  relay_chain_texts = record {
    impl_name = "Parachain Collator Template";
    impl_version = substrate_cli_impl_version;
    description =
        "Parachain Collator Template\n\nThe command-line arguments provided first will be passed to the parachain node, while the arguments provided after -- will be passed to the relaychain node.\n\nrococo-collator [parachain-args] -- [relaychain-args]";
    author = cargo_pkg_authors;
    support_url =
        "https://github.com/substrate-developer-hub/substrate-parachain-template/issues/new";
    copyright_start_year = 2017;
  }

  -- The two command lines present themselves alike if the executable is called `rococo-collator`.
  cli_texts_lem : cli_texts "rococo-collator" ≡ relay_chain_texts
  unfolding cli_texts relay_chain_texts
  cli_texts_lem = refl
