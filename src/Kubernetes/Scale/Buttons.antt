-- ===== src/Kubernetes/Scale/Buttons.antt =====
-- From the buttons of the details in internal/module/kubernetes/scale.go to the number of replicas that
-- the server is asked for.
use Prim.Native.String.{◌++◌ as concat}
use text.Mathlib.TextLemmas.{append_assoc}
use telekube.Base.{
  ℕ, ◌^◌, ◌<◌, ◌≤◌, String, true, false, ◌≡◌, ◌⊎◌, refl, ap, ◌∙◌, some, [], ◌∷◌, Bool-cases, ok,
  inl, inr, arith, ◌bar◌, unbarred, split_n, split_n-bar, ◌==◌, nat_keyed, string_keyed,
}
use telekube.Base.Numbers.{print_int}
use telekube.Base.Numbers.RoundTrip.{scan_int-print_int}
use telekube.Entity.User.{User}
use telekube.Kubernetes.Api.{
  Workload, ClientSet, Services, update_deployment_scale, update_stateful_set_scale, button, screen,
}
use telekube.Kubernetes.Scale.{
  scale_max_default, scan_int32, get_workload, confirm_dialog, scale_set, handle_scale_set,
  update_scale, run_scale, scale_input, after_scale_check, confirm_scale, handle_scale_confirm,
}

-- The data of a button for `n` replicas.
abbrev pub scale_payload : String → String → String → String → ℕ → String
scale_payload kind name namespace cluster n =
    (kind bar (name bar (namespace bar cluster))) bar print_int n

bar_assoc : (s t u : String) → (s bar t) bar u ≡ s bar (t bar u)
bar_assoc s t u =
    append_assoc s (concat "|" t) (concat "|" u) ∙ ap (concat s) (append_assoc "|" t (concat "|" u))

pub split_payload :
    (kind name namespace cluster : String) (n : ℕ)
    → unbarred kind ≡ true
    → unbarred name ≡ true
    → unbarred namespace ≡ true
    → unbarred cluster ≡ true
    → split_n 5 (scale_payload kind name namespace cluster n)
      ≡ kind ∷ name ∷ namespace ∷ cluster ∷ print_int n ∷ []
split_payload kind name namespace cluster n a b c d =
    ap (split_n 5) (bar_assoc kind (name bar (namespace bar cluster)) (print_int n))
    ∙ split_n-bar 3 kind _ a
    ∙ ap (λ s. kind ∷ split_n 4 s) (bar_assoc name (namespace bar cluster) (print_int n))
    ∙ ap (kind ∷◌) (split_n-bar 2 name _ b)
    ∙ ap (λ s. kind ∷ name ∷ split_n 3 s) (bar_assoc namespace cluster (print_int n))
    ∙ ap (λ l. kind ∷ name ∷ l) (split_n-bar 1 namespace _ c)
    ∙ ap (λ l. kind ∷ name ∷ namespace ∷ l) (split_n-bar 0 cluster _ d)
    ∙ unfold split_n in refl

scan_int32-print_int : (n : ℕ) → n < 2 ^ 31 → scan_int32 (print_int n) ≡ some n
unfolding scan_int32
scan_int32-print_int n h = ground (arith, scan_int-print_int n)

module _ {W : Type 0} (services : Services W) (now : ℕ) (fresh : String) where
  small_dialog :
      (payload kind name namespace cluster : String) (n : ℕ) (clients : ClientSet)
      (there : Workload)
      → n ≤ scale_max_default
      → services.client_set cluster ≡ ok clients
      → get_workload clients kind namespace name ≡ some (ok there)
      → scale_set services now fresh payload kind name namespace cluster (print_int n)
        ≡ screen name (
            button "k8s_scale_confirm" payload
            ∷ button "k8s_scale_cancel" (kind bar (name bar (namespace bar cluster)))
            ∷ [])
  unfolding scale_set confirm_dialog
  small_dialog payload kind name namespace cluster n clients there small connects found =
      rw (scan_int32-print_int n (omega arith), scale_set) (ground (arith, connects, found))

  known_kind :
      (clients : ClientSet) (kind namespace name : String) (there : Workload)
      → get_workload clients kind namespace name ≡ some (ok there)
      → (kind ≡ "deploy") ⊎ (kind ≡ "sts")
  unfolding get_workload
  known_kind clients kind namespace name there found = elim (Bool-cases (kind == "deploy")) [
    | inl deploy ↦ inl ((string_keyed.same_iff kind "deploy").0 deploy)
    | inr other ↦ inr (ground (arith, string_keyed.same_iff kind "sts"))
  ]

  confirmed :
      (w w' : W) (user : User) (payload kind name namespace cluster : String) (n : ℕ)
      (clients : ClientSet)
      → n ≤ scale_max_default
      → services.client_set cluster ≡ ok clients
      → services.check_and_submit w
          (scale_input services now fresh user name namespace cluster payload)
        ≡ ok (false, w')
      → (confirm_scale services now fresh w user payload kind name namespace cluster
          (print_int n)).requests
        ≡ (update_scale services now fresh clients cluster kind namespace name n).0
  unfolding confirm_scale after_scale_check run_scale
  confirmed w w' user payload kind name namespace cluster n clients small connects free =
      rw
        (
          scan_int32-print_int n (omega arith),
          confirm_scale,
          free,
          after_scale_check,
          run_scale,
          connects,
        )
        refl

  update_scale_deploy :
      (clients : ClientSet) (cluster kind namespace name : String) (n : ℕ)
      → kind ≡ "deploy"
      → (update_scale services now fresh clients cluster kind namespace name n).0
        ≡ update_deployment_scale cluster namespace name n ∷ []
  unfolding update_scale
  update_scale_deploy clients cluster kind namespace name n e = rw e refl

  update_scale_sts :
      (clients : ClientSet) (cluster kind namespace name : String) (n : ℕ)
      → kind ≡ "sts"
      → (update_scale services now fresh clients cluster kind namespace name n).0
        ≡ update_stateful_set_scale cluster namespace name n ∷ []
  unfolding update_scale
  update_scale_sts clients cluster kind namespace name n e = rw e refl

  -- A press of the button for `n` replicas of a deployment or a stateful set that is there, for at most 50
  -- replicas, opens a dialog whose first button carries the same data; confirmed, where the approval check
  -- asks for none, it asks the server for exactly `n` replicas of that workload. No bar is in the names.
  pub handle_scale_confirm-handle_scale_set :
      (w w' : W) (user : User) (kind name namespace cluster : String) (n : ℕ) (clients : ClientSet)
      (there : Workload)
      → unbarred kind ≡ true
      → unbarred name ≡ true
      → unbarred namespace ≡ true
      → unbarred cluster ≡ true
      → n ≤ scale_max_default
      → services.client_set cluster ≡ ok clients
      → get_workload clients kind namespace name ≡ some (ok there)
      → services.check_and_submit w (
          scale_input services now fresh user name namespace cluster
            (scale_payload kind name namespace cluster n))
        ≡ ok (false, w')
      → (handle_scale_set services now fresh
            (some user)
            (scale_payload kind name namespace cluster n)
          ≡ screen name (
              button "k8s_scale_confirm" (scale_payload kind name namespace cluster n)
              ∷ button "k8s_scale_cancel" (kind bar (name bar (namespace bar cluster)))
              ∷ []))
        × ((kind ≡ "deploy")
              × ((handle_scale_confirm services now fresh w
                    (some user)
                    (scale_payload kind name namespace cluster n)).requests
                  ≡ update_deployment_scale cluster namespace name n ∷ [])
            ⊎ (kind ≡ "sts")
              × ((handle_scale_confirm services now fresh w
                    (some user)
                    (scale_payload kind name namespace cluster n)).requests
                  ≡ update_stateful_set_scale cluster namespace name n ∷ []))
  unfolding handle_scale_set handle_scale_confirm
  handle_scale_confirm-handle_scale_set w w' user kind name namespace cluster n clients there a b c
        d small connects found free =
      let payload = scale_payload kind name namespace cluster n in
      let parts = split_payload kind name namespace cluster n a b c d in
      let sent =
        confirmed w w' user payload kind name namespace cluster n clients small connects free in
      (
        rw (handle_scale_set, parts)
            (small_dialog payload kind name namespace cluster n clients there small connects found),
        elim (known_kind clients kind namespace name there found) [
          | inl deploy ↦ inl (
            deploy,
            rw (handle_scale_confirm, parts)
                (sent ∙ update_scale_deploy clients cluster kind namespace name n deploy),
          )
          | inr sts ↦ inr (
            sts,
            rw (handle_scale_confirm, parts)
                (sent ∙ update_scale_sts clients cluster kind namespace name n sts),
          )
        ],
      )
