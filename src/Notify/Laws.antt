-- ===== src/Notify/Laws.antt =====
-- What the preferences of internal/module/notify let through.
use telekube.Base.{
  ℕ, ◌≤◌, ◌≡◌, ◌≢◌, refl, sym, ◌∙◌, String, Bool, ◌&&◌, true, false, not, Option, some, List, [],
  ◌∷◌, ◌==◌, string_keyed, nat_keyed, if◌then◌else◌, any, select, any-append, arith, ok,
  Result-cases, inl, inr, Bool-cases,
}
use telekube.Entity.Preference.{NotificationPreference}
use telekube.Notify.Preferences.{get_pref, put_pref, get_pref-put_pref, upsert}
use telekube.Notify.Handlers.{
  toggle, pref_of, default_pref, handle_mute_cluster_toggle, save, Prefs,
}
use telekube.Notify.Filter.{severity_level, is_quiet, should_notify, to_lower, codes_are}

severity_level-le : (s : String) → severity_level s ≤ 3
unfolding severity_level
severity_level-le s = ground arith

severity_level_critical : severity_level "critical" ≡ 3
unfolding severity_level to_lower codes_are
severity_level_critical = refl

is_quiet_critical :
    (clock : String → Option String) (pref : NotificationPreference)
    → is_quiet clock pref "critical" ≡ false
unfolding is_quiet
is_quiet_critical clock pref = ground arith

-- A critical alert passes, whatever the filter and the quiet hours, exactly if its cluster is not
-- muted.
should_notify_critical :
    (clock : String → Option String) (pref : NotificationPreference) (cluster : String)
    → should_notify clock (some pref) "critical" cluster
      ≡ not (any (λ m. m == cluster) pref.muted_clusters)
unfolding should_notify
should_notify_critical clock pref cluster = ground (
  arith,
  severity_level-le pref.min_severity,
  severity_level_critical,
  is_quiet_critical clock pref,
)

is_quiet_mono :
    (clock : String → Option String) (pref : NotificationPreference) (s t : String)
    → s ≢ "critical"
    → is_quiet clock pref s ≡ false
    → is_quiet clock pref t ≡ false
unfolding is_quiet
is_quiet_mono clock pref s t n h = ground (arith, string_keyed.same_iff s "critical")

-- An alert passes if a less severe one of the same cluster does that is not exempt from the quiet
-- hours.
should_notify_mono :
    (clock : String → Option String) (pref : NotificationPreference) (s t cluster : String)
    → s ≢ "critical"
    → severity_level s ≤ severity_level t
    → should_notify clock (some pref) s cluster ≡ true
    → should_notify clock (some pref) t cluster ≡ true
unfolding should_notify
should_notify_mono clock pref s t cluster n le h = ground (arith, is_quiet_mono clock pref s t n)

any-select :
    (muted : List String) (c d : String)
    → any (λ m. m == d) (select (λ m. not (m == c)) muted)
      ≡ (if c == d then false else any (λ m. m == d) muted)
any-select [] c d = ground arith
any-select (m ∷ rest) c d = ground (
  arith,
  any-select rest c d,
  string_keyed.same_iff m c,
  string_keyed.same_iff m d,
  string_keyed.same_iff c d,
)

any-toggle :
    (muted : List String) (c d : String)
    → any (λ m. m == d) (toggle muted c)
      ≡ (if c == d then not (any (λ m. m == c) muted) else any (λ m. m == d) muted)
unfolding toggle
any-toggle muted c d = ground (
  arith,
  any-select muted c d,
  any-append (λ m. m == d) (select (λ m. not (m == c)) muted) (c ∷ []),
  string_keyed.same_iff c d,
)

get_pref-user_id :
    (t : Prefs) (id : ℕ) (p : NotificationPreference) → get_pref t id ≡ ok p → p.user_id ≡ id
unfolding get_pref
get_pref-user_id [] id p e = ground arith
get_pref-user_id (q ∷ rest) id p e =
    ground (arith, get_pref-user_id rest id p, nat_keyed.same_iff q.user_id id)

pref_of-user_id : (t : Prefs) (id : ℕ) → (pref_of t id).user_id ≡ id
unfolding pref_of default_pref
pref_of-user_id t id = elim (Result-cases (get_pref t id)) [
  | inl (p, e) ↦ rw e (get_pref-user_id t id p e)
  | inr (x, e) ↦ rw e refl
]

pref_of-put_pref :
    (t : Prefs) (pref : NotificationPreference) (id : ℕ)
    → pref.user_id ≡ id
    → pref_of (put_pref t pref) id ≡ pref
unfolding pref_of
pref_of-put_pref t pref id e =
    ground (arith, get_pref-put_pref t pref id, nat_keyed.same_iff pref.user_id id)

get_pref_other :
    (t : Prefs) (pref : NotificationPreference) (id : ℕ)
    → pref.user_id ≢ id
    → get_pref (put_pref t pref) id ≡ get_pref t id
get_pref_other t pref id n =
    ground (arith, get_pref-put_pref t pref id, nat_keyed.same_iff pref.user_id id)

-- Toggling the mute of a cluster changes whether it is muted for the user, and nothing else: not
-- whether another cluster is muted, and not the preferences of another user.
handle_mute_cluster_toggle-muted :
    (t : Prefs) (id : ℕ) (cluster : String)
    → ((d : String)
        → any (λ m. m == d) (pref_of (handle_mute_cluster_toggle t id cluster).1 id).muted_clusters
          ≡ (if cluster == d
              then not (any (λ m. m == cluster) (pref_of t id).muted_clusters)
              else any (λ m. m == d) (pref_of t id).muted_clusters))
      × ((other : ℕ)
          → id ≢ other
          → get_pref (handle_mute_cluster_toggle t id cluster).1 other ≡ get_pref t other)
unfolding handle_mute_cluster_toggle save upsert pref_of
handle_mute_cluster_toggle-muted t id cluster =
    let pref = pref_of t id in
    let changed : NotificationPreference = record pref {
      muted_clusters = toggle pref.muted_clusters cluster;
    } in
    (
      λ d.
          rw (pref_of-put_pref t changed id (pref_of-user_id t id))
            (any-toggle pref.muted_clusters cluster d),
      λ other n. get_pref_other t changed other (λ e. n (sym (pref_of-user_id t id) ∙ e)),
    )

-- The decision for a user who mutes no cluster.
abbrev pub unless_muted : (String → Option String) → NotificationPreference → String → String → Bool
unless_muted clock pref severity cluster =
    should_notify clock (some (record pref { muted_clusters = [] })) severity cluster

should_notify-eq :
    (clock : String → Option String) (pref : NotificationPreference) (severity cluster : String)
    (muted : List String)
    → should_notify clock (some (record pref { muted_clusters = muted })) severity cluster
      ≡ (not (any (λ m. m == cluster) muted) && unless_muted clock pref severity cluster)
unfolding should_notify is_quiet
should_notify-eq clock pref severity cluster muted = ground arith

not-not_and : (a b : Bool) → (not (not a) && b) ≡ (a && b)
not-not_and a b = ground arith

-- After the button of a cluster, an alert of this cluster passes if the cluster was muted and the
-- filters on severity and time let the alert pass; alerts of other clusters are decided as before.
pub should_notify-handle_mute_cluster_toggle :
    (clock : String → Option String) (t : Prefs) (id : ℕ) (toggled severity cluster : String)
    → should_notify clock
        (some (pref_of (handle_mute_cluster_toggle t id toggled).1 id))
        severity
        cluster
      ≡ (if toggled == cluster
          then any (λ m. m == cluster) (pref_of t id).muted_clusters
            && unless_muted clock (pref_of t id) severity cluster
          else should_notify clock (some (pref_of t id)) severity cluster)
unfolding handle_mute_cluster_toggle save upsert pref_of
should_notify-handle_mute_cluster_toggle clock t id toggled severity cluster =
    let pref = pref_of t id in
    let muted = toggle pref.muted_clusters toggled in
    let saved : NotificationPreference = record pref { muted_clusters = muted } in
    rw
      (
        pref_of-put_pref t saved id (pref_of-user_id t id),
        should_notify-eq clock pref severity cluster muted,
        any-toggle pref.muted_clusters toggled cluster,
      )
      (elim (Bool-cases (toggled == cluster)) [
        | inl same ↦
            rw (same, (string_keyed.same_iff toggled cluster).0 same)
              (not-not_and (any (λ m. m == cluster) pref.muted_clusters)
                (unless_muted clock pref severity cluster))
        | inr other ↦
            rw other (sym (should_notify-eq clock pref severity cluster pref.muted_clusters))
      ])
