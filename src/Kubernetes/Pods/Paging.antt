-- ===== src/Kubernetes/Pods/Paging.antt =====
-- When a page of the list of pods in internal/module/kubernetes/pods.go is out of range.
use telekube.Base.{
  ℕ, ◌-◌, ◌*◌, ◌^◌, ◌<◌, ◌≤◌, String, true, ◌≡◌, ◌≢◌, ◌↔◌, refl, sym, ap, ◌∙◌, List, [], ◌∷◌, map,
  length, ltb, leb, ◌||◌, ok, inl, inr, arith, if◌then◌else◌, ◌==◌, string_keyed, nat_keyed,
  unbarred, split_three, Bool-cases,
}
use telekube.Base.Numbers.{print_int}
use telekube.Base.Numbers.RoundTrip.{scan_int-print_int}
use telekube.Telegram.Paginator.{new_paginator, total_pages}
use telekube.Kubernetes.Api.{Pod, ClientSet, Services, slice_panic}
use telekube.Kubernetes.Pods.{
  page_size, start_of, end_of, page_payload, pod_page, send_pod_list, read_page, handle_pods_page,
}

pod_page_panics :
    (p : Pod) (ps : List Pod) (cluster namespace : String) (k : ℕ)
    → 1 ≤ k
    → k ≤ 2 ^ 59
    → (pod_page (p ∷ ps) cluster namespace k ≡ slice_panic) ↔ (length (p ∷ ps) < (k - 1) * 8)
unfolding pod_page
pod_page_panics p ps cluster namespace k one small =
    elim (Bool-cases
      (leb (2 ^ 63) (start_of k) || ltb (end_of (start_of k) (length (p ∷ ps))) (start_of k))) [
        | inl out ↦ rw out (λ e. ground arith, λ lt. refl)
        | inr within ↦ rw within (λ e. cc, λ lt. absurd (ground arith))
      ]

total_pages-le :
    (names : List String) (k : ℕ)
    → 1 ≤ k
    → k ≤ total_pages (new_paginator names 8)
    → (k - 1) * 8 ≤ length names
unfolding total_pages new_paginator
total_pages-le names k one last = ground arith

length-map : (ps : List Pod) → length (map (λ pod. pod.name) ps) ≡ length ps
length-map [] = refl
length-map (p ∷ ps) = omega (arith, length-map ps)

module _ {W : Type 0} (services : Services W) (now : ℕ) (fresh : String) where
  read_page-print_int :
      (k : ℕ) → 1 ≤ k → k ≤ 2 ^ 59 → read_page services now fresh (print_int k) ≡ k
  unfolding read_page
  read_page-print_int k one small = ground (arith, scan_int-print_int k)

  handle_pods_page_sends :
      (namespace cluster : String) (k : ℕ)
      → unbarred namespace ≡ true
      → unbarred cluster ≡ true
      → 1 ≤ k
      → k ≤ 2 ^ 59
      → handle_pods_page services now fresh (page_payload namespace cluster k)
        ≡ send_pod_list services now fresh cluster namespace k
  unfolding handle_pods_page
  handle_pods_page_sends namespace cluster k a b one small =
      rw (handle_pods_page, split_three namespace cluster (print_int k) a b)
        (ap (send_pod_list services now fresh cluster namespace) (read_page-print_int k one small))

  send_pod_list_shows :
      (namespace cluster : String) (k : ℕ) (clients : ClientSet) (pods : List Pod)
      → services.client_set cluster ≡ ok clients
      → clients.list_pods (if namespace == "_all" then "" else namespace) ≡ ok pods
      → send_pod_list services now fresh cluster namespace k ≡ pod_page pods cluster namespace k
  unfolding send_pod_list
  send_pod_list_shows namespace cluster k clients pods connects lists =
      rw (send_pod_list, connects, lists) refl

  -- The data of a page's button, for a namespace and a cluster without bars, makes the handler panic exactly
  -- if the pods that there are by then do not reach up to the page before. No page up to the last of them does.
  pub handle_pods_page_panics :
      (namespace cluster : String) (k : ℕ) (clients : ClientSet) (p : Pod) (ps : List Pod)
      → unbarred namespace ≡ true
      → unbarred cluster ≡ true
      → 1 ≤ k
      → k ≤ 2 ^ 59
      → services.client_set cluster ≡ ok clients
      → clients.list_pods (if namespace == "_all" then "" else namespace) ≡ ok (p ∷ ps)
      → ((handle_pods_page services now fresh (page_payload namespace cluster k) ≡ slice_panic)
          ↔ (length (p ∷ ps) < (k - 1) * 8))
        × (k ≤ total_pages (new_paginator (map (λ pod. pod.name) (p ∷ ps)) page_size)
            → handle_pods_page services now fresh (page_payload namespace cluster k) ≢ slice_panic)
  handle_pods_page_panics namespace cluster k clients p ps a b one small connects lists =
      let shown : handle_pods_page services now fresh (page_payload namespace cluster k)
          ≡ pod_page (p ∷ ps) cluster namespace k =
        handle_pods_page_sends namespace cluster k a b one small
        ∙ send_pod_list_shows namespace cluster k clients (p ∷ ps) connects lists in
      let exactly = pod_page_panics p ps cluster namespace k one small in
      (
        (λ e. exactly.0 (sym shown ∙ e), λ lt. shown ∙ exactly.1 lt),
        λ last e.
            let lt = exactly.0 (sym shown ∙ e) in
            absurd (
              omega (
                arith,
                total_pages-le (map (λ pod. pod.name) (p ∷ ps)) k one last,
                length-map (p ∷ ps),
              )),
      )
