-- ===== src/Storage/Audit/Paging.antt =====
-- What a page of the audit repositories holds.
use mathlib.Core.List.{Permᴰ}
use telekube.Base.{
  ℕ, zero, suc, ◌-◌, ◌*◌, ◌≤◌, ◌<◌, min, String, Bool, true, false, not, ◌≡◌, refl, ap, ◌∙◌, Option,
  none, some, List, [], ◌∷◌, length, count_if, take, drop, select, any, any-Permᴰ, All, length-take,
  length-drop, Result, ok, err, arith, ◌==◌, nat_keyed, string_keyed, leb,
}
use telekube.Entity.Audit.{AuditEntry}
use telekube.Storage.Audit.{
  Table, AuditFilter, passes, holds_if, page_of, size_of, list_where, list, list_postgres,
  is_prefixed,
}

-- No entry is older than one behind it.
abbrev pub IsNewestFirst : List AuditEntry → Type 0
IsNewestFirst [] = Unit {0}
IsNewestFirst (e ∷ rest) = All (λ d. d.occurred_at ≤ e.occurred_at) rest × IsNewestFirst rest

-- What ORDER BY makes of the rows: the same ones, the newest first, those of one time in any order.
pub record IsOrdered (rows sorted : List AuditEntry) : Type 0 where
  pub newest_first : IsNewestFirst sorted
  pub same_rows : Permᴰ sorted rows

-- A condition on the value of a field that is there.
abbrev pub Only : {A : Type 0} → Option A → (A → Type 0) → Type 0
Only none P = Unit {0}
Only (some a) P = P a

abbrev pub Matches : AuditFilter → (String → Type 0) → AuditEntry → Type 0
Matches f IsAction e =
    Only f.user_id (λ id. e.user_id ≡ id)
    × Only f.cluster (λ c. e.cluster ≡ c)
    × Only f.namespace (λ ns. e.namespace ≡ ns)
    × Only f.status (λ s. e.status ≡ s)
    × Only f.from (λ t. t ≤ e.occurred_at)
    × Only f.to (λ t. e.occurred_at ≤ t)
    × IsAction e.action

-- A page of the given size: its number counts from 1, and 0 is the first one too.
abbrev pub HasSize : AuditFilter → ℕ → List AuditEntry × ℕ → Type 0
HasSize f size (rows, total) = length rows ≡ min size (total - (f.page - 1) * size)

All-take : (P : AuditEntry → Type 0) (n : ℕ) (l : List AuditEntry) → All P l → All P (take n l)
All-take P zero l all = tt
All-take P (suc n) [] all = tt
All-take P (suc n) (x ∷ l) all = (all.0, All-take P n l all.1)

All-drop : (P : AuditEntry → Type 0) (n : ℕ) (l : List AuditEntry) → All P l → All P (drop n l)
All-drop P zero l all = all
All-drop P (suc n) [] all = tt
All-drop P (suc n) (x ∷ l) all = All-drop P n l all.1

take-IsNewestFirst : (n : ℕ) (l : List AuditEntry) → IsNewestFirst l → IsNewestFirst (take n l)
take-IsNewestFirst zero l s = tt
take-IsNewestFirst (suc n) [] s = tt
take-IsNewestFirst (suc n) (x ∷ l) s = (All-take _ n l s.0, take-IsNewestFirst n l s.1)

drop-IsNewestFirst : (n : ℕ) (l : List AuditEntry) → IsNewestFirst l → IsNewestFirst (drop n l)
drop-IsNewestFirst zero l s = s
drop-IsNewestFirst (suc n) [] s = tt
drop-IsNewestFirst (suc n) (x ∷ l) s = drop-IsNewestFirst n l s.1

length-Permᴰ : {xs ys : List AuditEntry} → Permᴰ xs ys → length xs ≡ length ys
length-Permᴰ Permᴰ.nil = refl
length-Permᴰ (Permᴰ.cons e h) = ap suc (length-Permᴰ h)
length-Permᴰ (Permᴰ.swap {a = a} {b = b} {l = l} e f) = refl
length-Permᴰ (Permᴰ.trans h k) = length-Permᴰ h ∙ length-Permᴰ k

module _ (p : AuditEntry → Bool) where
  none_fails : (t : Table) → any (λ e. not (p e)) (select p t) ≡ false
  none_fails [] = refl
  none_fails (e ∷ t) = ground (arith, none_fails t)

  all_pass : (l : List AuditEntry) → any (λ e. not (p e)) l ≡ false → All (λ e. p e ≡ true) l
  all_pass [] h = tt
  all_pass (e ∷ l) h = (ground arith, all_pass l (ground arith))

only :
    {A : Type 0} (o : Option A) (test : A → Bool) (P : A → Type 0)
    → ((a : A) → test a ≡ true → P a)
    → holds_if o test ≡ true
    → Only o P
only none test P means h = tt
only (some a) test P means h = means a h

passes-Matches :
    (f : AuditFilter) (is_action : String → String → Bool) (e : AuditEntry)
    → passes f is_action e ≡ true
    → Matches f (λ action. Only f.action (λ a. is_action action a ≡ true)) e
unfolding passes
passes-Matches f is_action e h = (
  only f.user_id _ _ (λ id. (nat_keyed.same_iff e.user_id id).0) (ground arith),
  only f.cluster _ _ (λ c. (string_keyed.same_iff e.cluster c).0) (ground arith),
  only f.namespace _ _ (λ ns. (string_keyed.same_iff e.namespace ns).0) (ground arith),
  only f.status _ _ (λ s. (string_keyed.same_iff e.status s).0) (ground arith),
  only f.from (λ t. leb t e.occurred_at) _ (λ t k. ground arith) (ground arith),
  only f.to (λ t. leb e.occurred_at t) _ (λ t k. ground arith) (ground arith),
  only f.action _ _ (λ a k. k) (ground arith),
)

All-Matches :
    (f : AuditFilter) (is_action : String → String → Bool) (l : List AuditEntry)
    → All (λ e. passes f is_action e ≡ true) l
    → All (Matches f (λ action. Only f.action (λ a. is_action action a ≡ true))) l
All-Matches f is_action [] all = tt
All-Matches f is_action (e ∷ l) all =
    (passes-Matches f is_action e all.0, All-Matches f is_action l all.1)

page_less : (f : AuditFilter) → page_of f - 1 ≡ f.page - 1
page_less f = ground arith

-- The size of a page: 20 if none is given, and at most 100.
abbrev pub HasSizes : AuditFilter → List AuditEntry × ℕ → Type 0
HasSizes f page =
    (f.page_size ≡ 0 → HasSize f 20 page)
    × (1 ≤ f.page_size → f.page_size ≤ 100 → HasSize f f.page_size page)
    × (100 < f.page_size → HasSize f 100 page)

module _ (order_by : List AuditEntry → List AuditEntry) (is_action : String → String → Bool)
    (t : Table) (f : AuditFilter)
    (ordered : IsOrdered
      (select (passes f is_action) t)
      (order_by (select (passes f is_action) t))) where
  abbrev found : List AuditEntry
  found = select (passes f is_action) t

  abbrev offset : ℕ
  offset = (page_of f - 1) * size_of f

  abbrev page : List AuditEntry × ℕ
  page = (take (size_of f) (drop offset (order_by found)), length found)

  found-Matches :
      All (Matches f (λ action. Only f.action (λ a. is_action action a ≡ true))) (order_by found)
  found-Matches = All-Matches f is_action (order_by found) (
      all_pass (passes f is_action) (order_by found) (
        any-Permᴰ (λ e. not (passes f is_action e)) ordered.same_rows
        ∙ none_fails (passes f is_action) t))

  length-page : length page.0 ≡ min (size_of f) (length found - offset)
  length-page =
      length-take (size_of f) (drop offset (order_by found))
      ∙ ap (min (size_of f)) (
          length-drop offset (order_by found)
          ∙ ap (λ n. n - offset) (length-Permᴰ ordered.same_rows))

  page-HasSize : (size : ℕ) → size_of f ≡ size → HasSize f size page
  page-HasSize size e =
      length-page
      ∙ ap (λ n. min n (length found - (page_of f - 1) * n)) e
      ∙ ap (λ k. min size (length found - k * size)) (page_less f)

-- A page of an answer: its rows match, the newest first, and are as many as the size and the number of all
-- rows that match allow.
abbrev pub IsPage :
    AuditFilter → (String → String → Bool) → Table → Result (List AuditEntry × ℕ) → Type 0
IsPage f is_action t (err e) = ⊥
IsPage f is_action t (ok (rows, total)) =
    IsNewestFirst rows
    × All (Matches f (λ action. Only f.action (λ a. is_action action a ≡ true))) rows
    × (total ≡ count_if (passes f is_action) t)
    × HasSizes f (rows, total)

count-select : (p : AuditEntry → Bool) (t : Table) → length (select p t) ≡ count_if p t
count-select p [] = refl
count-select p (e ∷ t) = ground (arith, count-select p t)

list_where-IsPage :
    (order_by : List AuditEntry → List AuditEntry) (is_action : String → String → Bool) (t : Table)
    (f : AuditFilter)
    → IsOrdered (select (passes f is_action) t) (order_by (select (passes f is_action) t))
    → IsPage f is_action t (list_where order_by is_action t f)
unfolding list_where
list_where-IsPage order_by is_action t f ordered =
    let rows = order_by (select (passes f is_action) t) in
    let skipped = (page_of f - 1) * size_of f in
    let sizes = page-HasSize order_by is_action t f ordered in
    (
      take-IsNewestFirst (size_of f) (drop skipped rows)
          (drop-IsNewestFirst skipped rows ordered.newest_first),
      All-take _ (size_of f) (drop skipped rows)
          (All-drop _ skipped rows (found-Matches order_by is_action t f ordered)),
      count-select (passes f is_action) t,
      (
        (λ e. sizes 20 (ground arith)),
        (λ a b. sizes f.page_size (ground arith)),
        (λ b. sizes 100 (ground arith)),
      ),
    )

pub list-IsPage :
    (order_by : List AuditEntry → List AuditEntry) (like : String → String → Bool) (t : Table)
    (f : AuditFilter)
    → IsOrdered
        (select (passes f (λ action a. action == a)) t)
        (order_by (select (passes f (λ action a. action == a)) t))
    → IsOrdered
        (select (passes f (is_prefixed like)) t)
        (order_by (select (passes f (is_prefixed like)) t))
    → IsPage f (λ action a. action == a) t (list order_by t f)
      × IsPage f (is_prefixed like) t (list_postgres order_by like t f)
unfolding list list_postgres
list-IsPage order_by like t f ordered ordered_postgres = (
  list_where-IsPage order_by (λ action a. action == a) t f ordered,
  list_where-IsPage order_by (is_prefixed like) t f ordered_postgres,
)
