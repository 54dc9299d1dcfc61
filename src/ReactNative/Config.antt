-- ===== src/ReactNative/Config.antt =====
-- react-native/src/client.ts: the options of the client.
use watchup_v3_packages.Prelude.{ℕ, Bool, true, false, List, [], Option, none, some}
use watchup_v3_packages.Utf8.{Str, units}
use watchup_v3_packages.Queue.State.{GivenOptions, or_default}
use watchup_v3_packages.Payload.{LogLevel, debug}
use watchup_v3_packages.Node.Config.{default_base_url}

pub record NativeLogging : Type 0 where
  pub enabled : Bool
  pub capture_console : Bool
  pub include_device_context : Bool
  pub min_level : LogLevel

pub record AutoCapture : Type 0 where
  pub errors : Bool
  pub unhandled_rejections : Bool

-- The options but for the handler of diagnostics and the storage, as the constructor resolves them.
pub record NativeConfig : Type 0 where
  pub base_url : Str
  pub redact_keys : Option (List Str)
  pub debug_mode : Bool
  pub environment : Str
  pub release : Str
  pub service : Option Str
  pub flush_interval : ℕ
  pub max_batch_size : ℕ
  pub max_queue_size : ℕ
  pub auto_capture : AutoCapture
  pub logging : NativeLogging

pub record GivenNativeLogging : Type 0 where
  pub enabled : Option Bool
  pub capture_console : Option Bool
  pub include_device_context : Option Bool
  pub min_level : Option LogLevel

pub record GivenAutoCapture : Type 0 where
  pub errors : Option Bool
  pub unhandled_rejections : Option Bool

-- The same as the app gives them; `has_storage` is false for `null`.
pub record NativeOptions : Type 0 where
  pub api_key : Str
  pub base_url : Option Str
  pub redact_keys : Option (List Str)
  pub debug_mode : Option Bool
  pub environment : Option Str
  pub release : Option Str
  pub service : Option Str
  pub flush_interval : Option ℕ
  pub max_batch_size : Option ℕ
  pub max_queue_size : Option ℕ
  pub auto_capture : GivenAutoCapture
  pub logging : GivenNativeLogging
  pub has_storage : Bool

-- DEFAULTS, under the options that are defined.
unfoldable pub resolve_native : NativeOptions → NativeConfig
resolve_native options = record {
  base_url = or_default options.base_url default_base_url;
  redact_keys = options.redact_keys;
  debug_mode = or_default options.debug_mode false;
  environment = or_default options.environment (units "production");
  release = or_default options.release [];
  service = options.service;
  flush_interval = or_default options.flush_interval 5000;
  max_batch_size = or_default options.max_batch_size 100;
  max_queue_size = or_default options.max_queue_size 1000;
  auto_capture = record {
    errors = or_default options.auto_capture.errors true;
    unhandled_rejections = or_default options.auto_capture.unhandled_rejections true;
  };
  logging = record {
    enabled = or_default options.logging.enabled false;
    capture_console = or_default options.logging.capture_console false;
    include_device_context = or_default options.logging.include_device_context true;
    min_level = or_default options.logging.min_level debug;
  };
}

abbrev pub native_queue_options : NativeConfig → GivenOptions
native_queue_options config = record {
  max_bytes = none;
  max_items = some config.max_batch_size;
  max_queue_items = some config.max_queue_size;
  max_attempts = none;
  base_backoff_ms = none;
  max_backoff_ms = none;
  error_flush_threshold = none;
  auto_flush = none;
}
