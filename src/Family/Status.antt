-- ===== src/Family/Status.antt =====
-- When the controllers report a namespace as ready, and what they answer when it is not enabled.
use kubefrog_kvmserver.Prelude.{
  ℕ, String, ◌≡◌, refl, inl, inr, Bool, List, ◌∷◌, ◌++◌, all, ◌==◌, nat_eq, string_eq, Option, map,
  All, ap, ◌∙◌,
}
use kubefrog_kvmserver.Python.Errors.{ok}
use kubefrog_kvmserver.Python.Json.{Json, str}
use kubefrog_kvmserver.Controller.Settings.{Settings}
use kubefrog_kvmserver.Controller.Sync
use kubefrog_kvmserver.Controller.Sync.{
  Variant, Line, status, reply, launcher, configmap_count, desired_resources, parent_name,
  parent_label,
}
use kubefrog_kvmserver.Controller.Inventory.{HasSizes, count_group, groups}
use kubefrog_kvmserver.Controller.Desired.{launcher_cases, kept}
use kubefrog_kvmserver.Controller.Laws.{sync-reply, printed_lines}
use kubefrog_kvmserver.Controller.Readiness.{
  watched, Reported, first_off, decided, is_ready-first_off,
}
use kubefrog_kvmserver.Controller.Outcome.{ends_in, sync-ends_in}
use kubefrog_kvmserver.Family.{File, current, variant, sync}

abbrev fits : (String → ℕ) → ℕ → Bool
fits sizes n = all (λ (g, k). sizes g == k) (watched n)

-- The reported sizes are those of a list of objects.
abbrev pub same_sizes : (String → ℕ) → List Json → Bool
same_sizes sizes rs = all (λ g. sizes g == count_group g rs) groups

fits-kept :
    (f : File) (s : Settings) (namespace : Json) (sizes : String → ℕ)
    → fits sizes 1 ≡ same_sizes sizes (kept (variant f) s namespace)
fits-kept current s namespace sizes = refl
fits-kept _ s namespace sizes = refl

fits-launcher :
    (f : File) (s : Settings) (namespace : Json) (root : String) (sizes : String → ℕ)
    → fits sizes 2
      ≡ same_sizes sizes
          ((variant f).launcher_configmap namespace root ∷ kept (variant f) s namespace)
fits-launcher current s namespace root sizes = refl
fits-launcher _ s namespace root sizes = refl

-- What `is_ready` asks for is what the desired resources have of each group.
fits-same_sizes :
    (f : File) (s : Settings) (namespace : Json) (sizes : String → ℕ)
    → fits sizes (configmap_count s.kfp_default_pipeline_root)
      ≡ same_sizes sizes (desired_resources (variant f) s namespace)
fits-same_sizes f s namespace sizes =
    elim (launcher_cases (variant f) s.kfp_default_pipeline_root namespace) [
      | inl (e, t) ↦ rw (e, t) (fits-kept f s namespace sizes)
      | inr (r, e, t) ↦ rw (e, t) (fits-launcher f s namespace r sizes)
    ]

-- The `sync` of a file is the common one at the file's variant.
pub sync-variant : (f : File) → sync f ≡ Sync.sync (variant f)
unfolding sync
sync-variant current = refl
sync-variant _ = refl

-- In each of the four files, for a namespace with the label set, when metacontroller reports every
-- watched group, `sync` returns the desired resources, prints two lines, and reports "True"
-- exactly when the reported sizes are the numbers of desired resources of the groups.
pub sync-reports_ready :
    (f : File) (s : Settings) (parent observed namespace : Json) (log : List Line)
    (sizes : String → ℕ)
    → parent_name parent ≡ ok namespace
    → parent_label parent ≡ ok (str "true")
    → HasSizes observed sizes
    → let rs = desired_resources (variant f) s namespace in
      sync f s parent observed log ≡ (
        ok (reply (variant f) (status (same_sizes sizes rs)) rs),
        log ++ printed_lines (variant f) s parent namespace,
      )
sync-reports_ready f s parent observed namespace log sizes hn hl r =
    rw (sync-variant f, ← fits-same_sizes f s namespace sizes)
      (sync-reply (variant f) s parent observed namespace log sizes hn hl r)

-- How many objects of each group are among some objects.
abbrev pub sizes_of : List Json → List (String × ℕ)
sizes_of rs = map (λ g. (g, count_group g rs)) groups

watched-kept :
    (f : File) (s : Settings) (namespace : Json)
    → watched 1 ≡ sizes_of (kept (variant f) s namespace)
watched-kept current s namespace = refl
watched-kept _ s namespace = refl

watched-launcher :
    (f : File) (s : Settings) (namespace : Json) (root : String)
    → watched 2
      ≡ sizes_of ((variant f).launcher_configmap namespace root ∷ kept (variant f) s namespace)
watched-launcher current s namespace root = refl
watched-launcher _ s namespace root = refl

watched-sizes_of :
    (f : File) (s : Settings) (namespace : Json)
    → watched (configmap_count s.kfp_default_pipeline_root)
      ≡ sizes_of (desired_resources (variant f) s namespace)
watched-sizes_of f s namespace =
    elim (launcher_cases (variant f) s.kfp_default_pipeline_root namespace) [
      | inl (e, t) ↦ rw (e, t) (watched-kept f s namespace)
      | inr (r, e, t) ↦ rw (e, t) (watched-launcher f s namespace r)
    ]

-- In each of the four files, for a namespace with the label set, whichever of the watched groups are
-- reported: the first one that is not reported with the number of desired resources of this
-- group decides. If it is not reported at all, `sync` raises a `KeyError` with its name and has
-- printed nothing; if it is reported with another number, or if there is no such group, `sync`
-- returns the desired resources with the status "False" or "True", and has printed two lines.
pub sync-first_off :
    (f : File) (s : Settings) (parent observed namespace : Json) (log : List Line)
    (reported : String → Option ℕ)
    → parent_name parent ≡ ok namespace
    → parent_label parent ≡ ok (str "true")
    → All (Reported observed reported) groups
    → sync f s parent observed log
      ≡ ends_in (variant f) s parent namespace log (
          decided reported
            (first_off reported (sizes_of (desired_resources (variant f) s namespace))))
sync-first_off f s parent observed namespace log reported hn hl h = rw (sync-variant f) (
    sync-ends_in (variant f) s parent observed namespace log _ hn hl
      (is_ready-first_off observed reported (configmap_count s.kfp_default_pipeline_root) h)
    ∙ ap
        (λ ws.
          ends_in (variant f) s parent namespace log (decided reported (first_off reported ws)))
        (watched-sizes_of f s namespace))
