-- ===== src/AlertManager/Tests.antt =====
-- Runs of the webhook, and the theorem at concrete inputs.
use telekube.Base.{
  map, ◌*◌, String, true, ◌≡◌, refl, some, List, [], ◌∷◌, ◌==◌, string_keyed, nat_keyed,
  if◌then◌else◌, count_if, not_found, Result, ok, err,
}
use telekube.AlertManager.{
  Alert, HttpAnswer, Module, SilenceRequest, severity_order, insert_by_severity, sort_by_severity,
  alert_keyboard, send_all, process_payload, webhook_handler, silence, do_silence,
  handle_silence_1h, hour, silence_request, silenced,
}
use telekube.AlertManager.Deliveries.{
  is_delivery, times_of, alerts_of, IsUrgentFirst, severity_of, webhook_handler-deliveries,
}

abbrev labelled : String → String → String
labelled severity key = if key == "severity" then severity else ""

abbrev alert : String → String → Alert
alert fp severity = record {
  status = "firing";
  labels = labelled severity;
  fingerprint = fp;
  starts_at = 5;
  ends_at = 0;
}

abbrev alerts : List Alert
alerts = alert "f1" "info" ∷ alert "f2" "warning" ∷ alert "f3" "critical" ∷ []

abbrev unmarshal : String → Result (List Alert)
unmarshal body = if body == "{" then err not_found else ok alerts

abbrev secured : Module
secured = record { token = "t"; chats = 100 ∷ 200 ∷ []; has_silencer = true }

-- Without the token nothing is sent.
is_refused : webhook_handler unmarshal secured "Bearer u" "[]" ≡ (401, [])
unfolding webhook_handler
is_refused = refl

is_unread : webhook_handler unmarshal secured "Bearer t" "{" ≡ (400, [])
unfolding webhook_handler
is_unread = refl

critical_first :
    map severity_of (webhook_handler unmarshal secured "Bearer t" "[]").1
    ≡ "critical" ∷ "critical" ∷ "warning" ∷ "warning" ∷ "info" ∷ "info" ∷ []
unfolding webhook_handler process_payload send_all sort_by_severity insert_by_severity
    severity_order alert_keyboard
critical_first = refl

-- The silence asks for a label that is the fingerprint, whatever the labels of the alert are.
abbrev created : SilenceRequest → Result HttpAnswer
created request = ok (record { status_code = 200; body = "id" })

silences_fingerprint :
    handle_silence_1h created (λ body. ok body) secured 9 "ann" 7 "f3"
    ≡ (some (silence_request 9 (("fingerprint", "f3") ∷ []) hour "ann"), silenced hour "id")
unfolding handle_silence_1h do_silence silence
silences_fingerprint = refl

webhook_handler-deliveries_example :
    ((webhook_handler unmarshal secured "Bearer t" "[]").0 ≡ 200)
    × (count_if (is_delivery 200 "f3") (webhook_handler unmarshal secured "Bearer t" "[]").1
        ≡ alerts_of "f3" alerts * times_of 200 (100 ∷ 200 ∷ []))
    × IsUrgentFirst (webhook_handler unmarshal secured "Bearer t" "[]").1
webhook_handler-deliveries_example =
    webhook_handler-deliveries unmarshal secured "Bearer t" "[]" alerts 200 "f3" refl refl
