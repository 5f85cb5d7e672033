-- ===== src/Watcher/Rules/Firing.antt =====
-- How often an evaluation of internal/module/watcher/custom_rules.go sends an alert.
use telekube.Base.{
  ℕ, ◌+◌, String, Bool, ◌≡◌, ◌∙◌, List, [], ◌∷◌, ◌++◌, ◌==◌, string_keyed, Bool-cases, inl, inr,
  if◌then◌else◌, Result, not, ◌&&◌, ◌||◌, any, count_if, arith, eq_iff,
}
use telekube.Watcher.AlertCache.{is_cooling}
use telekube.Watcher.Rules.{
  AlertRule, RuleClients, RuleAlert, Fired, custom_rule_cooldown, fire_unless_cooling, evaluate,
}
use telekube.Watcher.Rules.Violations.{Violation, all_violations, fire_all}
use telekube.Watcher.Rules.Evaluation.{evaluate-fire_all}

abbrev pub sent_for : String → Fired → ℕ
sent_for key s = count_if (λ a. a.0 == key) s.1

abbrev pub cools : ℕ → Fired → String → Bool
cools now s key = is_cooling custom_rule_cooldown s.0 now key

abbrev pub has_key : String → List Violation → Bool
has_key key vs = any (λ v. v.0 == key) vs

abbrev pub one : Bool → ℕ
one b = if b then 1 else 0

count_if-append :
    (key : String) (xs ys : List (String × RuleAlert))
    → count_if (λ a. a.0 == key) (xs ++ ys)
      ≡ count_if (λ a. a.0 == key) xs + count_if (λ a. a.0 == key) ys
count_if-append key [] ys = omega arith
count_if-append key (x ∷ xs) ys = ground (arith, count_if-append key xs ys)

module _ (allowed_chats admin_ids : List ℕ) (now : ℕ) where
  fired-count :
      (v : Violation) (s : Fired) (key : String)
      → sent_for key (fire_unless_cooling allowed_chats admin_ids now v.0 v.1 s)
        ≡ sent_for key s + one (v.0 == key && not (cools now s key))
  unfolding fire_unless_cooling
  fired-count v (cache, sent) key = elim (Bool-cases (cools now (cache, sent) v.0)) [
    | inl cool ↦ rw cool (ground (arith, eq_iff v.0 key))
    | inr warm ↦ rw (warm, count_if-append key sent (v ∷ [])) (ground (arith, eq_iff v.0 key))
  ]

  fired-cools :
      (v : Violation) (s : Fired) (key : String)
      → cools now (fire_unless_cooling allowed_chats admin_ids now v.0 v.1 s) key
        ≡ (cools now s key || v.0 == key)
  unfolding fire_unless_cooling is_cooling
  fired-cools v (cache, sent) key = ground (arith, eq_iff v.0 key)

  fire_all-count :
      (vs : List Violation) (s : Fired) (key : String)
      → (sent_for key (fire_all allowed_chats admin_ids now vs s)
          ≡ sent_for key s + one (has_key key vs && not (cools now s key)))
        × (cools now (fire_all allowed_chats admin_ids now vs s) key
            ≡ (cools now s key || has_key key vs))
  unfolding fire_all
  fire_all-count [] s key = (ground arith, ground arith)
  fire_all-count (v ∷ rest) s key =
      let later =
        fire_all-count rest (fire_unless_cooling allowed_chats admin_ids now v.0 v.1 s) key in
      let count = fired-count v s key in
      let cool = fired-cools v s key in
      (later.0 ∙ rw (count, cool) (ground arith), later.1 ∙ rw cool (ground arith))

  -- For each key, one evaluation of all rules sends one alert if some violation has the key and it was not
  -- cooling, and none otherwise. The keys that are cooling after it are those before, and those of the
  -- violations.
  pub evaluate-count :
      (client_set : String → Result RuleClients) (all : List String) (rules : List AlertRule)
      (s : Fired) (key : String)
      → (sent_for key (evaluate allowed_chats admin_ids now client_set all rules s)
          ≡ sent_for key s
            + one (
                has_key key (all_violations allowed_chats admin_ids now client_set all rules)
                && not (cools now s key)))
        × (cools now (evaluate allowed_chats admin_ids now client_set all rules s) key ≡ (
            cools now s key
            || has_key key (all_violations allowed_chats admin_ids now client_set all rules)))
  evaluate-count client_set all rules s key =
      rw (evaluate-fire_all allowed_chats admin_ids now client_set all rules s)
        (fire_all-count (all_violations allowed_chats admin_ids now client_set all rules) s key)
