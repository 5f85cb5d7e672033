-- ===== src/AlertManager.antt =====
-- internal/module/alertmanager/module.go: the webhook of the Prometheus AlertManager and its silences. The
-- texts of the alerts are left out; how encoding/json reads the body, and what the AlertManager answers to
-- a new silence, are arguments.
pub mod Deliveries
mod Tests
use Prim.Native.String.{◌++◌ as concat}
use telekube.Base.{
  ℕ, ◌+◌, ◌*◌, String, Bool, true, false, Option, none, some, List, [], ◌∷◌, ◌++◌, map, ◌==◌,
  string_keyed, nat_keyed, leb, ◌||◌, if◌then◌else◌, Error, errorf, Result, ok, err,
}
use telekube.Base.Numbers.{print_int}

pub record Alert : Type 0 where
  pub status : String
  pub labels : String → String
  pub fingerprint : String
  pub starts_at : ℕ
  pub ends_at : ℕ

-- A button with the handler that it calls and the data that it sends.
pub record Button : Type 0 where
  pub unique : String
  pub payload : String

pub record SilenceRequest : Type 0 where
  pub matchers : List (String × String)
  pub starts_at : ℕ
  pub ends_at : ℕ
  pub created_by : String

-- The status and the body of an answer.
pub record HttpAnswer : Type 0 where
  pub status_code : ℕ
  pub body : String

pub record Module : Type 0 where
  pub token : String
  pub chats : List ℕ
  pub has_silencer : Bool

unfoldable pub severity_order : String → ℕ
severity_order s = if s == "critical" then 0 else if s == "warning" then 1 else 2

abbrev pub order_of : Alert → ℕ
order_of a = severity_order (a.labels "severity")

-- sort.Slice, which leaves the order of equal alerts open: here it is the one of the payload.
unfoldable pub insert_by_severity : Alert → List Alert → List Alert
unfolding severity_order
insert_by_severity a [] = a ∷ []
insert_by_severity a (b ∷ rest) =
    if leb (order_of a) (order_of b) then a ∷ b ∷ rest else b ∷ insert_by_severity a rest

unfoldable pub sort_by_severity : List Alert → List Alert
unfolding insert_by_severity
sort_by_severity [] = []
sort_by_severity (a ∷ rest) = insert_by_severity a (sort_by_severity rest)

unfoldable pub alert_keyboard : Alert → List Button
alert_keyboard a =
    if a.status == "firing"
    then record { unique = "am_silence_1h"; payload = a.fingerprint }
      ∷ record { unique = "am_silence_4h"; payload = a.fingerprint }
      ∷ record { unique = "am_ack"; payload = a.fingerprint }
      ∷ []
    else []

-- A message to a chat, which may fail without an effect on the others.
pub record Delivery : Type 0 where
  pub chat_id : ℕ
  pub alert : Alert
  pub keyboard : List Button

abbrev pub to_chat : Alert → ℕ → Delivery
to_chat a chat = record { chat_id = chat; alert = a; keyboard = alert_keyboard a }

unfoldable pub send_all : List ℕ → List Alert → List Delivery
unfolding alert_keyboard
send_all chats [] = []
send_all chats (a ∷ rest) = map (to_chat a) chats ++ send_all chats rest

unfoldable pub process_payload : Module → List Alert → List Delivery
unfolding send_all sort_by_severity
process_payload m alerts = send_all m.chats (sort_by_severity alerts)

abbrev pub is_authorized : Module → String → Bool
is_authorized m authorization = m.token == "" || authorization == concat "Bearer " m.token

-- The status that is answered, and the messages.
unfoldable pub webhook_handler :
    (String → Result (List Alert)) → Module → String → String → ℕ × List Delivery
unfolding process_payload
webhook_handler unmarshal m authorization body =
    if is_authorized m authorization
    then elim (unmarshal body) [ err e ↦ (400, []) | ok alerts ↦ (200, process_payload m alerts) ]
    else (401, [])

abbrev pub silence_request : ℕ → List (String × String) → ℕ → String → SilenceRequest
silence_request now matchers duration created_by = record {
  matchers = matchers;
  starts_at = now;
  ends_at = now + duration;
  created_by = created_by;
}

unfoldable pub silence :
    (SilenceRequest → Result HttpAnswer) → (String → Result String) → SilenceRequest → Result String
silence post silence_id request = elim (post request) [
  | err e ↦ err e
  | ok answer ↦
      if answer.status_code == 200 || answer.status_code == 201
      then silence_id answer.body
      else err (errorf "alertmanager returned %d: %s" (answer.body ∷ []))
]

pub data Response : Type 0 where
  not_configured : Response
  silence_failed : Error → Response
  silenced : ℕ → String → Response
  acknowledged : Response

-- The request that is made, if any, and the response.
unfoldable pub do_silence :
    (SilenceRequest → Result HttpAnswer)
    → (String → Result String)
    → Module
    → ℕ
    → String
    → ℕ
    → String
    → ℕ
    → Option SilenceRequest × Response
unfolding silence
do_silence post silence_id m now username sender_id payload duration =
    if m.has_silencer
    then (let created_by =
          (if username == "" then concat "user_" (print_int sender_id) else username) in
        let request = silence_request now (("fingerprint", payload) ∷ []) duration created_by in
        (
          some request,
          elim (silence post silence_id request) [
            | err e ↦ silence_failed e
            | ok id ↦ silenced duration id
          ],
        ))
    else (none, not_configured)

abbrev pub hour : ℕ
hour = 3_600_000_000_000

unfoldable pub handle_silence_1h :
    (SilenceRequest → Result HttpAnswer)
    → (String → Result String)
    → Module
    → ℕ
    → String
    → ℕ
    → String
    → Option SilenceRequest × Response
unfolding do_silence
handle_silence_1h post silence_id m now username sender_id payload =
    do_silence post silence_id m now username sender_id payload hour

unfoldable pub handle_silence_4h :
    (SilenceRequest → Result HttpAnswer)
    → (String → Result String)
    → Module
    → ℕ
    → String
    → ℕ
    → String
    → Option SilenceRequest × Response
unfolding do_silence
handle_silence_4h post silence_id m now username sender_id payload =
    do_silence post silence_id m now username sender_id payload (4 * hour)

unfoldable pub handle_ack : Response
handle_ack = acknowledged
