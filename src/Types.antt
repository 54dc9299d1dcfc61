-- ===== src/Types.antt =====
-- core/src/types.ts and core/src/constants.ts: the records that the components share.
pub mod Kinds
use watchup_v3_packages.Prelude.{ℕ, Bool, Option}
use watchup_v3_packages.Utf8.{Str}

pub data Kind : Type 0 where
  errors traces events : Kind

-- `Record<Kind, A>`
pub record PerKind (A : Type 0) : Type 0 where
  pub errors : A
  pub traces : A
  pub events : A

module _ {A : Type 0} where
  abbrev pub get : Kind → PerKind A → A
  get Kind.errors r = r.errors
  get Kind.traces r = r.traces
  get Kind.events r = r.events

  abbrev pub put : Kind → A → PerKind A → PerKind A
  put Kind.errors a r = record r { errors = a }
  put Kind.traces a r = record r { traces = a }
  put Kind.events a r = record r { events = a }

  abbrev pub all_kinds : A → PerKind A
  all_kinds a = record { errors = a; traces = a; events = a }

pub record SdkInfo : Type 0 where
  pub name : Str
  pub version : Str

pub record EnvelopeBase : Type 0 where
  pub sdk : SdkInfo
  pub environment : Option Str
  pub release : Option Str
  pub project_id : Option Str

pub record PreparedItem : Type 0 where
  pub kind : Kind
  pub json : Str
  pub bytes : ℕ

pub record Chunk : Type 0 where
  pub idempotency_key : Str
  pub body : Str
  pub bytes : ℕ
  pub counts : PerKind ℕ
  pub attempts : ℕ
  pub next_attempt_at : ℕ

pub record SendResult : Type 0 where
  pub ok : Bool
  pub status : Option ℕ
  pub code : Option Str
  pub retry_after_ms : Option ℕ
  pub error : Option Str

pub record FlushResult : Type 0 where
  pub accepted : ℕ
  pub delivered_items : ℕ
  pub retrying : ℕ
  pub dropped : ℕ
