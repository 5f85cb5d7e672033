-- ===== src/AlertManager/Deliveries.antt =====
-- Who gets which alerts from the webhook of internal/module/alertmanager/module.go, and in which order.
use telekube.Base.{
  ◌⊎◌, ℕ, suc, ◌+◌, ◌*◌, ◌≤◌, String, Bool, true, false, ◌≡◌, refl, ap, ◌∙◌, List, [], ◌∷◌, ◌++◌,
  map, ◌==◌, string_keyed, nat_keyed, leb, ◌&&◌, if◌then◌else◌, count_if, All, Bool-cases, inl, inr,
  Result, ok, arith,
}
use telekube.AlertManager.{
  severity_order, Alert, Delivery, Module, order_of, insert_by_severity, sort_by_severity, to_chat,
  send_all, process_payload, is_authorized, webhook_handler,
}

-- The deliveries of alerts with a fingerprint to a chat.
abbrev pub is_delivery : ℕ → String → Delivery → Bool
is_delivery chat fp d = d.chat_id == chat && d.alert.fingerprint == fp

abbrev pub times_of : ℕ → List ℕ → ℕ
times_of chat chats = count_if (λ c. c == chat) chats

abbrev pub alerts_of : String → List Alert → ℕ
alerts_of fp alerts = count_if (λ a. a.fingerprint == fp) alerts

abbrev pub IsOrdered : List ℕ → Type 0
IsOrdered [] = Unit {0}
IsOrdered (n ∷ rest) = All (λ m. n ≤ m) rest × IsOrdered rest

count-append :
    (chat : ℕ) (fp : String) (xs ys : List Delivery)
    → count_if (is_delivery chat fp) (xs ++ ys)
      ≡ count_if (is_delivery chat fp) xs + count_if (is_delivery chat fp) ys
count-append chat fp [] ys = omega arith
count-append chat fp (x ∷ xs) ys = ground (arith, count-append chat fp xs ys)

count-chats :
    (chat : ℕ) (fp : String) (a : Alert) (chats : List ℕ)
    → count_if (is_delivery chat fp) (map (to_chat a) chats)
      ≡ (if a.fingerprint == fp then times_of chat chats else 0)
count-chats chat fp a [] = ground arith
count-chats chat fp a (c ∷ rest) = ground (arith, count-chats chat fp a rest)

one_more : Bool → ℕ → ℕ
one_more b n = if b then suc n else n

one_more_swap : (b c : Bool) (n : ℕ) → one_more b (one_more c n) ≡ one_more c (one_more b n)
unfolding one_more
one_more_swap true true n = refl
one_more_swap true false n = refl
one_more_swap false true n = refl
one_more_swap false false n = refl

alerts_of-insert :
    (fp : String) (a : Alert) (alerts : List Alert)
    → alerts_of fp (insert_by_severity a alerts) ≡ alerts_of fp (a ∷ alerts)
unfolding insert_by_severity one_more
alerts_of-insert fp a [] = refl
alerts_of-insert fp a (b ∷ rest) = elim (Bool-cases (leb (order_of a) (order_of b))) [
  | inl first ↦ rw first refl
  | inr later ↦ rw later (
      ap (one_more (b.fingerprint == fp)) (alerts_of-insert fp a rest)
      ∙ one_more_swap (b.fingerprint == fp) (a.fingerprint == fp) (alerts_of fp rest))
]

alerts_of-sort :
    (fp : String) (alerts : List Alert)
    → alerts_of fp (sort_by_severity alerts) ≡ alerts_of fp alerts
unfolding sort_by_severity
alerts_of-sort fp [] = refl
alerts_of-sort fp (a ∷ rest) =
    alerts_of-insert fp a (sort_by_severity rest)
    ∙ ap (λ n. if a.fingerprint == fp then suc n else n) (alerts_of-sort fp rest)

more : (n k : ℕ) → k + n * k ≡ suc n * k
more n k = omega arith

count-send_all :
    (chat : ℕ) (fp : String) (chats : List ℕ) (alerts : List Alert)
    → count_if (is_delivery chat fp) (send_all chats alerts)
      ≡ alerts_of fp alerts * times_of chat chats
unfolding send_all
count-send_all chat fp chats [] = omega arith
count-send_all chat fp chats (a ∷ rest) =
    count-append chat fp (map (to_chat a) chats) (send_all chats rest)
    ∙ (elim (Bool-cases (a.fingerprint == fp)) [
      | inl same ↦
          rw (count-chats chat fp a chats, count-send_all chat fp chats rest, same)
            (more (alerts_of fp rest) (times_of chat chats))
      | inr other ↦
          rw (count-chats chat fp a chats, count-send_all chat fp chats rest, other) (omega arith)
    ])

-- The severity orders of alerts, and of what is delivered.
abbrev orders : List Alert → List ℕ
orders alerts = map order_of alerts

abbrev pub delivered : List Delivery → List ℕ
delivered ds = map (λ d. order_of d.alert) ds

below-insert :
    (n : ℕ) (a : Alert) (alerts : List Alert)
    → n ≤ order_of a
    → All (λ m. n ≤ m) (orders alerts)
    → All (λ m. n ≤ m) (orders (insert_by_severity a alerts))
unfolding insert_by_severity
below-insert n a [] le all = (le, tt)
below-insert n a (b ∷ rest) le all = elim (Bool-cases (leb (order_of a) (order_of b))) [
  | inl first ↦ rw first (le, all)
  | inr later ↦ rw later (all.0, below-insert n a rest le all.1)
]

below-le : (n k : ℕ) (l : List ℕ) → n ≤ k → All (λ m. k ≤ m) l → All (λ m. n ≤ m) l
below-le n k [] le all = tt
below-le n k (m ∷ l) le all = (omega (arith, all.0), below-le n k l le all.1)

insert-IsOrdered :
    (a : Alert) (alerts : List Alert)
    → IsOrdered (orders alerts)
    → IsOrdered (orders (insert_by_severity a alerts))
unfolding insert_by_severity
insert-IsOrdered a [] ordered = (tt, tt)
insert-IsOrdered a (b ∷ rest) ordered = elim (Bool-cases (leb (order_of a) (order_of b))) [
  | inl first ↦
      let le : order_of a ≤ order_of b = ground arith in
      rw first ((le, below-le (order_of a) (order_of b) (orders rest) le ordered.0), ordered)
  | inr later ↦
      rw later (
        below-insert (order_of b) a rest (ground arith) ordered.0,
        insert-IsOrdered a rest ordered.1,
      )
]

sort-IsOrdered : (alerts : List Alert) → IsOrdered (orders (sort_by_severity alerts))
unfolding sort_by_severity
sort-IsOrdered [] = tt
sort-IsOrdered (a ∷ rest) = insert-IsOrdered a (sort_by_severity rest) (sort-IsOrdered rest)

below-chats :
    (n : ℕ) (a : Alert) (chats : List ℕ) (ds : List Delivery)
    → n ≤ order_of a
    → All (λ m. n ≤ m) (delivered ds)
    → All (λ m. n ≤ m) (delivered (map (to_chat a) chats ++ ds))
below-chats n a [] ds le all = all
below-chats n a (c ∷ chats) ds le all = (le, below-chats n a chats ds le all)

chats-IsOrdered :
    (a : Alert) (chats : List ℕ) (ds : List Delivery)
    → All (λ m. order_of a ≤ m) (delivered ds)
    → IsOrdered (delivered ds)
    → IsOrdered (delivered (map (to_chat a) chats ++ ds))
chats-IsOrdered a [] ds all ordered = ordered
chats-IsOrdered a (c ∷ chats) ds all ordered =
    (below-chats (order_of a) a chats ds (omega arith) all, chats-IsOrdered a chats ds all ordered)

below-send_all :
    (n : ℕ) (chats : List ℕ) (alerts : List Alert)
    → All (λ m. n ≤ m) (orders alerts)
    → All (λ m. n ≤ m) (delivered (send_all chats alerts))
unfolding send_all
below-send_all n chats [] all = tt
below-send_all n chats (a ∷ rest) all =
    below-chats n a chats (send_all chats rest) all.0 (below-send_all n chats rest all.1)

send_all-IsOrdered :
    (chats : List ℕ) (alerts : List Alert)
    → IsOrdered (orders alerts)
    → IsOrdered (delivered (send_all chats alerts))
unfolding send_all
send_all-IsOrdered chats [] ordered = tt
send_all-IsOrdered chats (a ∷ rest) ordered =
    chats-IsOrdered a chats (send_all chats rest) (below-send_all (order_of a) chats rest ordered.0)
      (send_all-IsOrdered chats rest ordered.1)

-- An alert of the first severity may be sent before one of the second.
abbrev pub MayPrecede : String → String → Type 0
MayPrecede s t =
    (t ≡ "critical" → s ≡ "critical") × (t ≡ "warning" → (s ≡ "critical") ⊎ (s ≡ "warning"))

abbrev pub severity_of : Delivery → String
severity_of d = d.alert.labels "severity"

-- No delivery comes before a more severe one.
abbrev pub IsUrgentFirst : List Delivery → Type 0
IsUrgentFirst [] = Unit {0}
IsUrgentFirst (d ∷ ds) = All (λ e. MayPrecede (severity_of d) (severity_of e)) ds × IsUrgentFirst ds

severity_order-MayPrecede : (s t : String) → severity_order s ≤ severity_order t → MayPrecede s t
unfolding severity_order
severity_order-MayPrecede s t le = ground (
  arith,
  string_keyed.same_iff s "critical",
  string_keyed.same_iff s "warning",
  string_keyed.same_iff t "critical",
  string_keyed.same_iff t "warning",
)

below-MayPrecede :
    (d : Delivery) (ds : List Delivery)
    → All (λ m. order_of d.alert ≤ m) (delivered ds)
    → All (λ e. MayPrecede (severity_of d) (severity_of e)) ds
below-MayPrecede d [] all = tt
below-MayPrecede d (e ∷ ds) all =
    (severity_order-MayPrecede (severity_of d) (severity_of e) all.0, below-MayPrecede d ds all.1)

ordered-IsUrgentFirst : (ds : List Delivery) → IsOrdered (delivered ds) → IsUrgentFirst ds
ordered-IsUrgentFirst [] ordered = tt
ordered-IsUrgentFirst (d ∷ ds) ordered =
    (below-MayPrecede d ds ordered.0, ordered-IsUrgentFirst ds ordered.1)

-- An authorized request whose body can be read is answered with 200, and each chat gets each alert once for
-- every time that it stands in the body and the chat in the configuration: those that are critical first,
-- then the warnings.
pub webhook_handler-deliveries :
    (unmarshal : String → Result (List Alert)) (m : Module) (authorization body : String)
    (alerts : List Alert) (chat : ℕ) (fp : String)
    → is_authorized m authorization ≡ true
    → unmarshal body ≡ ok alerts
    → ((webhook_handler unmarshal m authorization body).0 ≡ 200)
      × (count_if (is_delivery chat fp) (webhook_handler unmarshal m authorization body).1
          ≡ alerts_of fp alerts * times_of chat m.chats)
      × IsUrgentFirst (webhook_handler unmarshal m authorization body).1
unfolding webhook_handler process_payload
webhook_handler-deliveries unmarshal m authorization body alerts chat fp authorized reads =
    rw (webhook_handler, authorized, reads)
      (
        refl,
        count-send_all chat fp m.chats (sort_by_severity alerts)
            ∙ ap (λ n. n * times_of chat m.chats) (alerts_of-sort fp alerts),
        ordered-IsUrgentFirst (send_all m.chats (sort_by_severity alerts))
            (send_all-IsOrdered m.chats (sort_by_severity alerts) (sort-IsOrdered alerts)),
      )
