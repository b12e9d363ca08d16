-- ===== src/Config.antt =====
-- js-libp2p/src/config.ts: `validateConfig`, on options that other packages have merged with the defaults. Of the options, the
-- parts that it reads are fields.
pub mod Validating
use Prim.Native.String.{◌++◌ as text_append}
use state_channels.Common.{
  ℕ, Bool, true, false, Option, none, some, List, [], ◌∷◌, String, ite, str_dec, if◌then◌else◌,
}
use state_channels.Errors.{
  Code, Result, ok, err, ◌>>◌, throw_if, err_transports_required, conn_encryption_required,
  err_protector_required,
}

-- A connection protector that is left out, is given as `null`, or is there.
pub data Protector (P : Type 0) : Type 0 where
  undefined_protector null_protector : Protector P
  protector : P → Protector P

-- `T` stands for transports, `E` for encrypters and `P` for protectors.
pub record Libp2pInit (T E P : Type 0) : Type 0 where
  pub transports : Option (List T)
  pub connection_encryption : Option (List E)
  pub connection_protector : Protector P
  pub agent_version : String

-- Where the code runs: in Node or Electron's main process, of a version; in a browser, a worker or the like, with a user
-- agent; or elsewhere.
pub data Platform : Type 0 where
  node_platform : String → Platform
  browser_platform : String → Platform
  other_platform : Platform

-- `xs == null || xs.length < 1`
abbrev pub is_missing {ℓ} : {A : Type ℓ} → Option (List A) → Bool
is_missing none = true
is_missing (some []) = true
is_missing (some (x ∷ xs)) = false

abbrev pub is_null : {P : Type 0} → Protector P → Bool
is_null undefined_protector = false
is_null null_protector = true
is_null (protector p) = false

abbrev pub with_user_agent : String → Platform → String
with_user_agent version (node_platform v) = text_append version (text_append " UserAgent=" v)
with_user_agent version (browser_platform a) = text_append version (text_append " UserAgent=" a)
with_user_agent version other_platform = version

module _ {T E P : Type 0} where
  -- `version` is `AGENT_VERSION`, and `forced` whether the environment has LIBP2P_FORCE_PNET.
  unfoldable pub add_user_agent : String → Platform → Libp2pInit T E P → Libp2pInit T E P
  add_user_agent version platform o =
      ite (str_dec o.agent_version version)
        (record o { agent_version = with_user_agent o.agent_version platform }) o

  unfoldable pub validate_config :
      String → Platform → Bool → Libp2pInit T E P → Result (Libp2pInit T E P)
  validate_config version platform forced o = do
    throw_if (is_missing o.transports) err_transports_required
    throw_if (is_missing o.connection_encryption) conn_encryption_required
    throw_if (if is_null o.connection_protector then forced else false) err_protector_required
    ok (add_user_agent version platform o)
