-- ===== src/Access.antt =====
-- src/auth.rs `require_bearer`, and the checks of src/config.rs `Config::load`.
pub mod Bearer
use zun_rust_server.Prelude.{ℕ, Bool, true, false, not, Option, none, some, if◌then◌else◌, ltb}
use zun_rust_server.Prelude.Text.{Text, text, text_eq, strip_prefix, len, starts_with}
use zun_rust_server.Error.{Result, ok, err, unauthorized}
use zun_rust_server.Paths.{join}

-- `ct_eq` of the bytes of two texts.
unfoldable pub token_eq : Text → Text → Bool
token_eq a b = text_eq a b

-- What a request gets: `next` is the handler behind the middleware, on the state of the server.
abbrev pub check_token : {S A : Type 0} → Text → Option Text → (S → Result A × S) → S → Result A × S
check_token token none next s = (err unauthorized, s)
check_token token (some presented) next s = elim (token_eq presented token) [
  | false ↦ (err unauthorized, s)
  | true ↦ next s
]

abbrev pub presented_token : Option Text → Option Text
presented_token none = none
presented_token (some header) = strip_prefix header (text "Bearer ")

-- `header` is the text of the `Authorization` header.
unfoldable pub require_bearer :
    {S A : Type 0} → Text → Option Text → (S → Result A × S) → S → Result A × S
unfolding token_eq strip_prefix
require_bearer token header next s = check_token token (presented_token header) next s

pub data LogFormat : Type 0 where
  auto pretty json : LogFormat

pub record Config : Type 0 where
  pub token : Text
  pub bind : Text
  pub comfy_url : Text
  pub data_dir : Text
  pub log_format : LogFormat
  pub purge_after_days : ℕ
  pub backup_keep_days : ℕ
  pub warmup_on_start : Bool
  pub comfy_data_dir : Option Text

abbrev pub default_bind : Text
default_bind = text "127.0.0.1:8080"

abbrev pub default_comfy_url : Text
default_comfy_url = text "http://127.0.0.1:8188"

abbrev pub default_data_dir : Text
default_data_dir = text "./data"

abbrev pub default_retention_days : ℕ
default_retention_days = 30

-- What the TOML reader gives: a field that may be left out is an option.
pub record ConfigFile : Type 0 where
  pub token : Text
  pub bind : Option Text
  pub comfy_url : Option Text
  pub data_dir : Option Text
  pub log_format : Option LogFormat
  pub purge_after_days : Option ℕ
  pub backup_keep_days : Option ℕ
  pub warmup_on_start : Option Bool
  pub comfy_data_dir : Option Text

abbrev pub or_default {ℓ} : {A : Type ℓ} → Option A → A → A
or_default none d = d
or_default (some a) d = a

abbrev pub with_defaults : ConfigFile → Config
with_defaults f = record {
  token = f.token;
  bind = or_default f.bind default_bind;
  comfy_url = or_default f.comfy_url default_comfy_url;
  data_dir = or_default f.data_dir default_data_dir;
  log_format = or_default f.log_format auto;
  purge_after_days = or_default f.purge_after_days default_retention_days;
  backup_keep_days = or_default f.backup_keep_days default_retention_days;
  warmup_on_start = or_default f.warmup_on_start false;
  comfy_data_dir = f.comfy_data_dir;
}

pub data LoadError : Type 0 where
  missing_config unreadable_config invalid_config placeholder_token short_token : LoadError

pub data Loaded : Type 0 where
  loaded : Config → Loaded
  refused : LoadError → Loaded

-- The file: not there, not readable, not a configuration, or one.
pub data Source : Type 0 where
  absent broken invalid : Source
  parsed : ConfigFile → Source

-- A relative path is taken from the file's directory.
abbrev pub from_base : Text → Text → Text
from_base base dir = if starts_with dir (text "/") then dir else join base dir

abbrev pub from_base_if_any : Text → Option Text → Option Text
from_base_if_any base none = none
from_base_if_any base (some dir) = some (from_base base dir)

unfoldable pub resolve_dirs : Text → Config → Config
resolve_dirs base c = record c {
  data_dir = from_base base c.data_dir;
  comfy_data_dir = from_base_if_any base c.comfy_data_dir;
}

abbrev pub check_config : Text → Config → Loaded
check_config base c =
    if text_eq c.token (text "REPLACE_ME_RUN_JUST_SETUP")
    then refused placeholder_token
    else if ltb (len c.token) 32
    then refused short_token
    else loaded (resolve_dirs base c)

-- `base` is the parent of the file's path.
unfoldable pub load : Text → Source → Loaded
unfolding resolve_dirs
load base absent = refused missing_config
load base broken = refused unreadable_config
load base invalid = refused invalid_config
load base (parsed f) = check_config base (with_defaults f)
