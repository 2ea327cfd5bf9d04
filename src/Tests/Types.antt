-- ===== src/Tests/Types.antt =====
-- The reply of sync.py to the request of Tests/Profile, a call before all groups are reported, and the
-- volumes of sync-debug-frontend.py.
use kubefrog_kvmserver.Prelude.{
  ℕ, String, ◌≡◌, refl, Option, none, some, [], ◌∷◌, ◌==◌, string_eq, if◌then◌else◌,
}
use kubefrog_kvmserver.Python.Errors.{err, key_error}
use kubefrog_kvmserver.Python.Json.{Json, null}
use kubefrog_kvmserver.Python.Json.Literal.{dict}
use kubefrog_kvmserver.Family
use kubefrog_kvmserver.Family.Status.{sync-first_off}
use kubefrog_kvmserver.Family.{current}
use kubefrog_kvmserver.Family.Types.{IsReply, sync-IsReply}
use kubefrog_kvmserver.Tests.Profile.{
  team, namespace, parent, observed, answered, team-parent_name, team-parent_label, team-answered,
}

sync-IsReply_example : IsReply current answered
sync-IsReply_example =
    sync-IsReply current team parent observed answered "team-a" [] team-parent_name team-answered

-- Only the Secret and the ConfigMaps are reported.
abbrev early : Json
early = dict (
    ("Secret.v1", dict (("first", null) ∷ []))
    ∷ ("ConfigMap.v1", dict (("first", null) ∷ ("second", null) ∷ []))
    ∷ [])

abbrev early_sizes : String → Option ℕ
early_sizes g = if g == "Secret.v1" then some 1 else if g == "ConfigMap.v1" then some 2 else none

sync-first_off_example :
    Family.sync current team parent early [] ≡ (err (key_error "Deployment.apps/v1"), [])
sync-first_off_example =
    sync-first_off current team parent early namespace [] early_sizes team-parent_name
      team-parent_label (refl, (refl, (refl, (refl, (refl, (refl, tt))))))
