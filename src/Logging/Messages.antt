-- ===== src/Logging/Messages.antt =====
-- The text of a message that src/logging.rs sends to syslog.
use sssd_oidc.Prelude.{
  ◌≡◌, refl, sym, ap, ◌∙◌, false, not, List, [], ◌∷◌, ◌++◌, Option, none, some, if◌then◌else◌, map,
  keep, All, All-append, append_assoc, append-nil, Bool-cases, inl, inr,
}
use sssd_oidc.Text.{Str, ascii}
use sssd_oidc.Logging.{
  Event, c_string_of, is_empty, is_message, pair, record_field, record_fields, priority,
  format_message, on_event,
}

-- Words with a space between.
pub join : List Str → Str
join [] = []
join (word ∷ []) = word
join (word ∷ next ∷ words) = word ++ (ascii " " ++ join (next ∷ words))

-- The value of the last field that is named "message", or else the one from before.
pub last_message : Option Str → List (Str × Str) → Option Str
last_message before [] = before
last_message before (field ∷ fields) =
    last_message (if is_message field then some field.1 else before) fields

-- The other fields, in their order.
pub pairs : List (Str × Str) → List Str
pairs fields = map pair (keep (λ field. not (is_message field)) fields)

-- The message comes first.
pub with_message : Option Str → List Str → List Str
with_message (some m) others = m ∷ others
with_message none others = others

pub or_event : List Str → List Str
or_event [] = ascii "(event)" ∷ []
or_event (word ∷ rest) = word ∷ rest

IsFull : Str → Type 0
IsFull word = is_empty word ≡ false

pair-IsFull : (field : Str × Str) → IsFull (pair field)
unfolding IsFull is_empty
pair-IsFull ([], value) = refl
pair-IsFull (c ∷ name, value) = refl

is_empty-append : (s t : Str) → is_empty s ≡ false → is_empty (s ++ t) ≡ false
unfolding is_empty
is_empty-append [] t h = cc
is_empty-append (c ∷ s) t h = refl

join-IsFull : (w : Str) (ws : List Str) → IsFull w → is_empty (join (w ∷ ws)) ≡ false
unfolding join IsFull
join-IsFull w [] full = full
join-IsFull w (next ∷ ws) full = is_empty-append w (ascii " " ++ join (next ∷ ws)) full

map-pair-IsFull : (fields : List (Str × Str)) → All IsFull (map pair fields)
map-pair-IsFull [] = tt
map-pair-IsFull (field ∷ fields) = (pair-IsFull field, map-pair-IsFull fields)

pairs-IsFull : (fields : List (Str × Str)) → All IsFull (pairs fields)
unfolding pairs
pairs-IsFull fields = map-pair-IsFull (keep (λ field. not (is_message field)) fields)

-- Joining one more word.
join-snoc :
    (ws : List Str) (word : Str)
    → All IsFull ws
    → join (ws ++ word ∷ []) ≡ join ws ++ ((if is_empty (join ws) then [] else ascii " ") ++ word)
unfolding join is_empty IsFull
join-snoc [] word full = refl
join-snoc (w ∷ []) word (full, _) = rw full refl
join-snoc (w ∷ next ∷ ws) word (full, rest) =
    rw
      (
        is_empty-append w (ascii " " ++ join (next ∷ ws)) full,
        join-snoc (next ∷ ws) word rest,
        join-IsFull next ws (rest.0),
      )
      (sym (append_assoc w (ascii " " ++ join (next ∷ ws)) (ascii " " ++ word)))

-- The visitor has collected these words.
record-join :
    (fields : List (Str × Str)) (ws : List Str) (before : Option Str)
    → All IsFull ws
    → record_fields fields (record { message = before; fields = join ws })
      ≡ record { message = last_message before fields; fields = join (ws ++ pairs fields) }
unfolding record_fields record_field last_message pairs keep
record-join [] ws before full = rw (append-nil ws) refl
record-join (field ∷ fields) ws before full = elim (Bool-cases (is_message field)) [
  | inl message ↦ rw message (record-join fields ws (some field.1) full)
  | inr other ↦
      let more = All-append IsFull ws (pair field ∷ []) full (pair-IsFull field, tt) in
      rw (other, ← join-snoc ws (pair field) full)
        (record-join fields (ws ++ pair field ∷ []) before more
          ∙ ap (λ words. record { message = last_message before fields; fields = join words })
              (append_assoc ws (pair field ∷ []) (pairs fields)))
]

format-join :
    (module_name : Str) (message : Option Str) (ws : List Str)
    → All IsFull ws
    → format_message module_name (record { message = message; fields = join ws })
      ≡ ascii "[" ++ module_name ++ ascii "] " ++ join (or_event (with_message message ws))
unfolding format_message or_event with_message join is_empty
format-join module_name none [] full = refl
format-join module_name (some m) [] full = refl
format-join module_name none (w ∷ ws) (full, _) = rw (join-IsFull w ws full) refl
format-join module_name (some m) (w ∷ ws) (full, _) =
    let start = ascii "[" ++ module_name ++ ascii "] " in
    rw (join-IsFull w ws full) (
      append_assoc (start ++ m) (ascii " ") (join (w ∷ ws))
      ∙ append_assoc start m (ascii " " ++ join (w ∷ ws)))

-- An event of a module is sent with the priority of its level, unless its text has a NUL byte. The
-- text is the module's name in brackets and then, with a space between, the value of the last field
-- that is named "message" and the other fields as "name=value" in their order; or "(event)" if there
-- are none.
pub on_event-join :
    (event : Event) (module_name : Str)
    → event.module_path ≡ some module_name
    → on_event event
      ≡ (elim (c_string_of (
          ascii "["
          ++ module_name
          ++ ascii "] "
          ++ join
              (or_event (with_message (last_message none event.fields) (pairs event.fields))))) [
                | some text ↦ some (priority event.level, text)
                | none ↦ none
              ])
unfolding on_event join
on_event-join event module_name named =
    let text : format_message module_name
          (record_fields event.fields (record { message = none; fields = [] }))
        ≡ ascii "["
          ++ module_name
          ++ ascii "] "
          ++ join (or_event (with_message (last_message none event.fields) (pairs event.fields))) =
      ap (format_message module_name) (record-join event.fields [] none tt)
      ∙ format-join module_name (last_message none event.fields) (pairs event.fields)
          (pairs-IsFull event.fields) in
    rw (on_event, named, text) refl
