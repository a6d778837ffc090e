-- ===== src/Tests/LoggingTest.antt =====
-- Runs of src/logging.rs.
use sssd_oidc.Prelude.{◌≡◌, refl, true, false, [], ◌∷◌, ◌++◌, none, some, any}
use sssd_oidc.Text.{ascii, str_eq}
use sssd_oidc.Logging.{
  warn, debug, up_to, syslog_layer, Event, Logger, c_string_of, is_empty, record_field,
  record_fields, priority, format_message, on_event, parse_level, init, ident_of, facility_daemon,
  facility_authpriv,
}
use sssd_oidc.Logging.Messages.{join, or_event, with_message, last_message, pairs, on_event-join}

abbrev failed : Event
failed = record {
  level = warn;
  module_path = some (ascii "m");
  fields =
      (ascii "error", ascii "e")
      ∷ (ascii "message", ascii "failed")
      ∷ (ascii "uid", ascii "7")
      ∷ [];
}

failed_sent : on_event failed ≡ some (4, ascii "[m] failed error=e uid=7")
unfolding on_event record_fields record_field is_empty format_message priority c_string_of any
    str_eq
failed_sent = refl

on_event-join_example :
    on_event failed
    ≡ (elim (c_string_of (
        ascii "["
        ++ ascii "m"
        ++ ascii "] "
        ++ join
            (or_event (with_message (last_message none failed.fields) (pairs failed.fields))))) [
              | some text ↦ some (priority warn, text)
              | none ↦ none
            ])
on_event-join_example = on_event-join failed (ascii "m") refl

abbrev fresh : Logger
fresh = record { initialised = false; ident = none; opened = none; subscriber = none }

abbrev debugging : Logger
debugging = record {
  initialised = true;
  ident = some (ascii "sssd_oidc");
  opened = some (ascii "sssd_oidc", 24);
  subscriber = some (syslog_layer (up_to debug));
}

-- The second call has no effect.
init_twice :
    init none
      (ascii "pam_oidc")
      facility_authpriv
      (init (some (ascii "Debug")) (ascii "sssd_oidc") facility_daemon fresh)
    ≡ debugging
unfolding init ident_of c_string_of parse_level any str_eq
init_twice = refl
