-- ===== src/Node/Config.antt =====
-- node/src/watchup.ts: the options of the client.
use watchup_v3_packages.Prelude.{ℕ, ◌^◌, Bool, true, false, List, [], Option, none, some}
use watchup_v3_packages.Utf8.{Str, units}
use watchup_v3_packages.Queue.State.{GivenOptions, or_default}
use watchup_v3_packages.Payload.{LogLevel, debug}

pub record LoggingOptions : Type 0 where
  pub enabled : Bool
  pub capture_console : Bool
  pub min_level : LogLevel

abbrev pub default_base_url : Str
default_base_url = units "https://api.watchup.site"

-- The options but for the handler of diagnostics, as the constructor resolves them. `sample_rate` is in units of 2 ^ -53.
pub record Config : Type 0 where
  pub base_url : Str
  pub redact_keys : Option (List Str)
  pub debug_mode : Bool
  pub handle_signals : Bool
  pub capture_unhandled : Bool
  pub environment : Str
  pub release : Str
  pub service : Option Str
  pub flush_interval : ℕ
  pub max_batch_size : ℕ
  pub max_queue_size : ℕ
  pub sample_rate : ℕ
  pub shutdown_timeout : ℕ
  pub flag_refresh_interval : ℕ
  pub logging : LoggingOptions

-- The same as the caller gives them; `none` is `undefined`.
pub record GivenLogging : Type 0 where
  pub enabled : Option Bool
  pub capture_console : Option Bool
  pub min_level : Option LogLevel

pub record WatchupOptions : Type 0 where
  pub api_key : Str
  pub base_url : Option Str
  pub redact_keys : Option (List Str)
  pub debug_mode : Option Bool
  pub handle_signals : Option Bool
  pub capture_unhandled : Option Bool
  pub environment : Option Str
  pub release : Option Str
  pub service : Option Str
  pub flush_interval : Option ℕ
  pub max_batch_size : Option ℕ
  pub max_queue_size : Option ℕ
  pub sample_rate : Option ℕ
  pub shutdown_timeout : Option ℕ
  pub flag_refresh_interval : Option ℕ
  pub logging : GivenLogging

-- DEFAULTS, under the options that are defined; `node_env` is `process.env.NODE_ENV`.
unfoldable pub resolve_config : Option Str → WatchupOptions → Config
resolve_config node_env options = record {
  base_url = or_default options.base_url default_base_url;
  redact_keys = options.redact_keys;
  debug_mode = or_default options.debug_mode false;
  handle_signals = or_default options.handle_signals true;
  capture_unhandled = or_default options.capture_unhandled false;
  environment = or_default options.environment (or_default node_env (units "production"));
  release = or_default options.release [];
  service = options.service;
  flush_interval = or_default options.flush_interval 5000;
  max_batch_size = or_default options.max_batch_size 100;
  max_queue_size = or_default options.max_queue_size 1000;
  sample_rate = or_default options.sample_rate (2 ^ 53);
  shutdown_timeout = or_default options.shutdown_timeout 5000;
  flag_refresh_interval = or_default options.flag_refresh_interval 30_000;
  logging = record {
    enabled = or_default options.logging.enabled false;
    capture_console = or_default options.logging.capture_console false;
    min_level = or_default options.logging.min_level debug;
  };
}

abbrev pub queue_options : Config → GivenOptions
queue_options config = record {
  max_bytes = none;
  max_items = some config.max_batch_size;
  max_queue_items = some config.max_queue_size;
  max_attempts = none;
  base_backoff_ms = none;
  max_backoff_ms = none;
  error_flush_threshold = none;
  auto_flush = none;
}
