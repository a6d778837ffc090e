-- ===== src/Logging.antt =====
-- src/logging.rs: `Logger` is what the process has of logging: the cells `INIT` and `IDENT`, what
-- `openlog` was last told, and the subscriber of tracing, which is ours or another's.
pub mod Messages
use sssd_oidc.Prelude.{
  ℕ, ◌+◌, ◌<◌, Bool, true, false, ◌&&◌, List, [], ◌∷◌, ◌++◌, Option, none, some, ltb, leb, ◌==◌,
  if◌then◌else◌, any, map,
}
use sssd_oidc.Text.{Str, ascii, str_eq}

pub data Level : Type 0 where
  error warn info debug trace : Level

pub data LevelFilter : Type 0 where
  up_to : Level → LevelFilter
  off : LevelFilter

-- LOG_AUTHPRIV and LOG_DAEMON
abbrev pub facility_authpriv : ℕ
facility_authpriv = 80

abbrev pub facility_daemon : ℕ
facility_daemon = 24

-- `str::to_lowercase`, which gives one of the names of levels exactly for its ASCII variants.
abbrev pub to_lowercase : Str → Str
to_lowercase = map (λ c. if leb 65 c && leb c 90 then c + 32 else c)

-- Of the value of `SSSD_OIDC_LOG`.
unfoldable pub parse_level : Option Str → LevelFilter
parse_level var =
    let name = to_lowercase (elim var [ some value ↦ value | none ↦ [] ]) in
    if str_eq name (ascii "error")
    then up_to error
    else if str_eq name (ascii "warn")
    then up_to warn
    else if str_eq name (ascii "info")
    then up_to info
    else if str_eq name (ascii "debug")
    then up_to debug
    else if str_eq name (ascii "trace")
    then up_to trace
    else if str_eq name (ascii "off")
    then off
    else up_to warn

pub data Subscriber : Type 0 where
  syslog_layer : LevelFilter → Subscriber
  foreign : Subscriber

pub record Logger : Type 0 where
  pub initialised : Bool
  pub ident : Option Str
  pub opened : Option (Str × ℕ)
  pub subscriber : Option Subscriber

-- `CString::new`
unfoldable pub c_string_of : Str → Option Str
c_string_of s = if any (λ c. c == 0) s then none else some s

-- `IDENT.get_or_init`
unfoldable pub ident_of : (ident : Str) → Logger → Str
unfolding c_string_of
ident_of ident logger = elim logger.ident [
  | some kept ↦ kept
  | none ↦ elim (c_string_of ident) [ some s ↦ s | none ↦ ascii "sssd_oidc" ]
]

-- `try_init` leaves a subscriber that is there already.
unfoldable pub init : (var : Option Str) (ident : Str) (facility : ℕ) → Logger → Logger
unfolding ident_of parse_level
init var ident facility logger =
    if logger.initialised
    then logger
    else let ident_c = ident_of ident logger in
      record {
        initialised = true;
        ident = some ident_c;
        opened = some (ident_c, facility);
        subscriber = elim logger.subscriber [
          | some present ↦ some present
          | none ↦ some (syslog_layer (parse_level var))
        ];
      }

-- An event: its fields as `record` hands them over, each with its value as it is shown, by `Debug` or,
-- for a string, as it is.
pub record Event : Type 0 where
  pub level : Level
  pub module_path : Option Str
  pub fields : List (Str × Str)

pub record MessageVisitor : Type 0 where
  pub message : Option Str
  pub fields : Str

unfoldable pub is_empty : Str → Bool
is_empty [] = true
is_empty (c ∷ s) = false

abbrev pub is_message : Str × Str → Bool
is_message field = str_eq field.0 (ascii "message")

-- "name=value"
abbrev pub pair : Str × Str → Str
pair field = field.0 ++ ascii "=" ++ field.1

-- `record_debug` and `record_str`
unfoldable pub record_field : Str × Str → MessageVisitor → MessageVisitor
unfolding is_empty
record_field field visitor =
    if is_message field
    then record visitor { message = some field.1 }
    else let sep = if is_empty visitor.fields then [] else ascii " " in
      record visitor { fields = visitor.fields ++ (sep ++ pair field) }

-- `event.record(&mut visitor)`
unfoldable pub record_fields : List (Str × Str) → MessageVisitor → MessageVisitor
unfolding record_field
record_fields [] visitor = visitor
record_fields (field ∷ fields) visitor = record_fields fields (record_field field visitor)

-- LOG_ERR, LOG_WARNING, LOG_INFO and LOG_DEBUG
unfoldable pub priority : Level → ℕ
priority error = 3
priority warn = 4
priority info = 6
priority debug = 7
priority trace = 7

unfoldable pub format_message : (module_name : Str) → MessageVisitor → Str
unfolding is_empty
format_message module_name visitor =
    let start = ascii "[" ++ module_name ++ ascii "] " in
    elim visitor.message [
      | some m ↦
          if is_empty visitor.fields then start ++ m else start ++ m ++ ascii " " ++ visitor.fields
      | none ↦ if is_empty visitor.fields then start ++ ascii "(event)" else start ++ visitor.fields
    ]

-- The priority and the text that are sent to syslog, if the text is a C string.
unfoldable pub on_event : Event → Option (ℕ × Str)
unfolding record_fields priority format_message c_string_of
on_event event =
    let visitor = record_fields event.fields (record { message = none; fields = [] }) in
    let module_name : Str = elim event.module_path [ some m ↦ m | none ↦ ascii "sssd_oidc" ] in
    elim (c_string_of (format_message module_name visitor)) [
      | some c_msg ↦ some (priority event.level, c_msg)
      | none ↦ none
    ]
