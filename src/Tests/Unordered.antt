-- ===== src/Tests/Unordered.antt =====
-- A request whose observed groups and objects come in another order, or are other objects.
use kubefrog_kvmserver.Prelude.{◌≡◌, refl, [], ◌∷◌}
use mathlib.Core.Quot
use kubefrog_kvmserver.Python.Json.{Json, null, end}
use kubefrog_kvmserver.Python.Json.Literal.{dict}
use kubefrog_kvmserver.Python.Json.Unordered.{Same, same, objects, keep, swap, thence, ended}
use kubefrog_kvmserver.Family.{new, sync}
use kubefrog_kvmserver.Family.Reports.{Report, sync_report, sync_report-sizes}
use kubefrog_kvmserver.Tests.Profile.{team, parent}

abbrev listed : Json
listed = dict (
    ("Secret.v1", dict (("key", null) ∷ []))
    ∷ ("ConfigMap.v1", dict (("first", null) ∷ ("second", null) ∷ []))
    ∷ [])

abbrev listed_again : Json
listed_again = dict (
    ("ConfigMap.v1", dict (("second", null) ∷ ("first", null) ∷ []))
    ∷ ("Secret.v1", dict (("key", null) ∷ []))
    ∷ [])

listed-Same : Same listed listed_again
listed-Same = objects (
    thence (swap "Secret.v1" "ConfigMap.v1" _ _ end (λ e. cc)) (
      keep "ConfigMap.v1" (objects (swap "first" "second" null null end (λ e. cc)))
        (keep "Secret.v1" (same _) ended)))

-- Both are one report.
one_report : ◌≡◌ {A = Report} (Quot.mk listed) (Quot.mk listed_again)
one_report = Quot.sound listed-Same

-- As many objects in each group, of other names.
abbrev renamed : Report
renamed = Quot.mk (
    dict (
      ("ConfigMap.v1", dict (("third", null) ∷ ("fourth", null) ∷ []))
      ∷ ("Secret.v1", dict (("other", null) ∷ []))
      ∷ []))

sync_report-sizes_example : sync_report new team parent renamed ≡ sync new team parent listed
sync_report-sizes_example =
    sync_report-sizes new team parent listed renamed
      (refl, (refl, (refl, (refl, (refl, (refl, tt))))))
