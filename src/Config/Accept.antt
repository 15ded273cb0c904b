-- ===== src/Config/Accept.antt =====
-- Which files `load` of src/config.rs accepts.
use nobase_agent.Prelude.{
  String, ◌≡◌, false, ◌&&◌, none, some, ◌↔◌, inl, inr, ok, arith, Option-cases,
}
use nobase_agent.Storage.{Files, read}
use nobase_agent.Config.{AgentConfig, Toml, load, is_empty}

-- The file is there, it parses to `c`, and `c` has a gateway, and a key or a token.
abbrev pub Accepted : Toml → String → Files → AgentConfig → Type 0
Accepted toml path files c =
    (content : String) × (read path files ≡ some content)
    × (toml.from_str content ≡ ok c)
    × (is_empty c.connection.gateway_url ≡ false)
    × ((is_empty c.connection.api_key && is_empty c.connection.registration_token) ≡ false)

-- A readable configuration file is accepted exactly when it is there, parses, names a gateway, and
-- holds a key or a registration token; the result is what it parses to.
pub load_iff :
    (toml : Toml) (path : String) (files : Files) (c : AgentConfig)
    → (load toml none path files ≡ ok c) ↔ Accepted toml path files c
unfolding load
load_iff toml path files c = (
  λ h. elim (Option-cases (read path files)) [
    | inl p ↦ absurd (ground arith)
    | inr (content, p) ↦ (content, p, ground arith, ground arith, ground arith)
  ],
  λ (content, found, parsed, gateway, key). ground arith,
)
