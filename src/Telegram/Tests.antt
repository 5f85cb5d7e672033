-- ===== src/Telegram/Tests.antt =====
-- Listings and callback data, and the theorems at concrete inputs.
use telekube.Base.{
  map, any, true, ap, ◌∙◌, ◌⊎◌, ◌≤◌, All, ◌<◌, ◌-◌, ◌*◌, String, ◌≡◌, refl, sym, ◌≢◌, Bool-cases,
  inl, inr, List, [], ◌∷◌, length, arith, ◌==◌, string_keyed,
}
use telekube.Telegram.Paginator.{new_paginator, total_pages}
use telekube.Telegram.Pages.{pages_from, pages_from-total_pages}
use telekube.Telegram.Splitting.{
  len, push, split_lines, split_message, split_from, is_full, is_code_fence, has_quotes, is_space,
  add_line,
}
use telekube.Telegram.Lines.{join_lines, split_message-lines}
use telekube.Telegram.Sizes.{split_message-len}
use telekube.Telegram.CallbackStore.{
  store, resolve, store_all, send_all, sent_for, IsClearList, resolve-send_all,
}

abbrev pods : List String
pods = "api" ∷ "db" ∷ "web" ∷ "cache" ∷ "cron" ∷ []

three_pages : total_pages (new_paginator pods 2) ≡ 3
unfolding total_pages new_paginator
three_pages = refl

pages_from-total_pages_example :
    (pages_from (new_paginator pods 2) (total_pages (new_paginator pods 2)) 0 ≡ pods)
    × (0 < length pods
        → (total_pages (new_paginator pods 2) - 1) * (new_paginator pods 2).page_size < length pods)
pages_from-total_pages_example = pages_from-total_pages pods 2

abbrev digest : String → String
digest d = "0123456789ab"

abbrev payload : String
payload = "payment-service-5d9c7b6f4-x2x8l|payments|production-eu-west-1"

abbrev sent_data : List String
sent_data = payload ∷ "api|web|dev" ∷ []

is_key : send_all digest [] sent_data ≡ "cb_0123456789ab" ∷ "api|web|dev" ∷ []
unfolding send_all store
is_key = refl

distinct : sent_for digest "api|web|dev" ≢ sent_for digest payload
distinct e = ground (arith, (string_keyed.same_iff "api|web|dev" "cb_0123456789ab").1 e)

one_of : (d : String) → any (λ x. x == d) sent_data ≡ true → (d ≡ payload) ⊎ (d ≡ "api|web|dev")
one_of d h = elim (Bool-cases (payload == d)) [
  | inl here ↦ inl (sym ((string_keyed.same_iff payload d).0 here))
  | inr there ↦ inr (sym ((string_keyed.same_iff "api|web|dev" d).0 (ground arith)))
]

is_clear : IsClearList digest sent_data
is_clear d e stored stored' same = elim (one_of d stored) [
  | inl p ↦ elim (one_of e stored') [
    | inl q ↦ q ∙ sym p
    | inr q ↦ absurd (distinct (ap (sent_for digest) (sym q) ∙ same ∙ ap (sent_for digest) p))
  ]
  | inr p ↦ elim (one_of e stored') [
    | inl q ↦ absurd (distinct (ap (sent_for digest) (sym p) ∙ sym same ∙ ap (sent_for digest) q))
    | inr q ↦ q ∙ sym p
  ]
]

resolve-send_all_example :
    map (resolve digest (store_all digest [] sent_data)) (send_all digest [] sent_data) ≡ sent_data
resolve-send_all_example = resolve-send_all digest sent_data is_clear

abbrev report : String
report = "```\npod one\npod two\n```\nend"

-- The block is closed in the first part and opened again in the second, which is longer than the limit.
split_report :
    split_message report 15 ≡ "```\npod one\n```" ∷ "```\n\npod two\n```" ∷ "```\n\n```\nend" ∷ []
unfolding split_message len push split_lines split_from is_full is_code_fence has_quotes is_space
    add_line
split_report = refl

split_message-len_example : All (λ part. len part ≤ 19) (split_message report 15)
unfolding split_lines push len
split_message-len_example =
    split_message-len report 15
      (omega arith, (omega arith, (omega arith, (omega arith, (omega arith, tt)))))

abbrev pods_text : String
pods_text = "api\ndatabase\nweb"

splits : split_message pods_text 10 ≡ "api" ∷ "database" ∷ "web" ∷ []
unfolding split_message split_from split_lines push is_full add_line is_code_fence has_quotes
    is_space len
splits = refl

split_message-lines_example : join_lines (split_message pods_text 10) ≡ pods_text
unfolding split_lines push is_code_fence has_quotes is_space len
split_message-lines_example =
    split_message-lines pods_text 10 ((refl, refl), ((refl, refl), ((refl, refl), tt)))
