-- ===== src/Kubernetes/Rollout.antt =====
-- internal/module/kubernetes/scale.go: watchRollout. The clock's ticks come with what the server answers
-- at the time, and `times_out` is the end of the context.
use telekube.Base.{
  ℕ, String, Bool, Option, none, some, List, [], ◌∷◌, ◌||◌, ◌==◌, string_keyed, leb, if◌then◌else◌,
  Result, ok, err,
}
use telekube.Kubernetes.Api.{Workload}
use telekube.Kubernetes.Scale.{is_negative}

pub data Event : Type 0 where
  ticks : Result Workload → Event
  times_out : Event

pub data Message : Type 0 where
  progress : ℕ → Message
  complete : ℕ → Message

-- What is read of the answer: 0 for a kind that is not asked for, nothing after an error.
unfoldable pub ready_of : String → Result Workload → Option ℕ
ready_of kind answer =
    if kind == "deploy" || kind == "sts"
    then elim answer [ err e ↦ none | ok w ↦ some w.ready_replicas ]
    else some 0

-- `ready >= target`, of an int32 that the server gives and one of a button.
abbrev pub reaches : ℕ → ℕ → Bool
reaches target ready = is_negative target || leb target ready

unfoldable pub watch_rollout : String → ℕ → List Event → List Message
unfolding ready_of
watch_rollout kind target [] = []
watch_rollout kind target (times_out ∷ rest) = []
watch_rollout kind target (ticks answer ∷ rest) =
    let later = watch_rollout kind target rest in
    elim (ready_of kind answer) [
      | none ↦ []
      | some ready ↦ if reaches target ready then complete ready ∷ [] else progress ready ∷ later
    ]
