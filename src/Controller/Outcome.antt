-- ===== src/Controller/Outcome.antt =====
-- What a call of `sync` has returned, with the namespace that it read.
use kubefrog_kvmserver.Prelude.{◌≡◌, refl, ◌∙◌, ◌⊎◌, inl, inr, Bool, List, [], ◌++◌, Bool-cases}
use kubefrog_kvmserver.Python.Errors.{Result, ok, err}
use kubefrog_kvmserver.Python.Exec.{resume-ok}
use kubefrog_kvmserver.Python.Json.{Json, is_text, str}
use kubefrog_kvmserver.Python.Json.Literal.{dict}
use kubefrog_kvmserver.Controller.Settings.{Settings}
use kubefrog_kvmserver.Controller.Sync.{
  Variant, Line, sync, sync_enabled, is_ready, configmap_count, reply, status, desired_resources,
  parent_name, parent_label,
}
use kubefrog_kvmserver.Controller.Laws.{
  sync_enabled-returns, sync_enabled-ready, sync-labelled, printed_lines,
}

-- The empty reply, or the desired resources of a namespace.
abbrev pub Answers : Variant → Settings → Json → Json → Type 0
Answers v s namespace r =
    (r ≡ reply v (dict []) [])
    ⊎ ((ready : Bool) × (r ≡ reply v (status ready) (desired_resources v s namespace)))

pub sync-Answers :
    (v : Variant) (s : Settings) (parent observed r : Json) (log : List Line)
    → (sync v s parent observed log).0 ≡ ok r
    → (namespace : Json) × (parent_name parent ≡ ok namespace) × Answers v s namespace r
unfolding sync
sync-Answers v s parent observed r log h =
    let (namespace, hn, h1) = resume-ok (parent_name parent) _ log r h in
    let (label, hl, h2) = resume-ok (parent_label parent) _ log r h1 in
    (
      namespace,
      hn,
      elim (Bool-cases (is_text label "true")) [
        | inl e ↦ inr (sync_enabled-returns v s parent observed namespace r log (rw e at h2))
        | inr e ↦ inl (cc (rw e at h2))
      ],
    )

-- How a call ends for an enabled namespace, by what the test for readiness gives: with the reply, after
-- two printed lines, or with an exception, and nothing is printed.
abbrev pub ends_in :
    Variant → Settings → Json → Json → List Line → Result Bool → Result Json × List Line
ends_in v s parent namespace log (ok ready) = (
  ok (reply v (status ready) (desired_resources v s namespace)),
  log ++ printed_lines v s parent namespace,
)
ends_in v s parent namespace log (err e) = (err e, log)

sync_enabled-ends_in :
    (v : Variant) (s : Settings) (parent observed namespace : Json) (log : List Line)
    (r : Result Bool)
    → is_ready observed (configmap_count s.kfp_default_pipeline_root) ≡ r
    → sync_enabled v s parent observed namespace log ≡ ends_in v s parent namespace log r
unfolding sync_enabled
sync_enabled-ends_in v s parent observed namespace log (err e) h = rw h
sync_enabled-ends_in v s parent observed namespace log (ok ready) h =
    sync_enabled-ready v s parent observed namespace log ready h

pub sync-ends_in :
    (v : Variant) (s : Settings) (parent observed namespace : Json) (log : List Line)
    (r : Result Bool)
    → parent_name parent ≡ ok namespace
    → parent_label parent ≡ ok (str "true")
    → is_ready observed (configmap_count s.kfp_default_pipeline_root) ≡ r
    → sync v s parent observed log ≡ ends_in v s parent namespace log r
sync-ends_in v s parent observed namespace log r hn hl h =
    sync-labelled v s parent observed namespace (str "true") log hn hl refl
    ∙ sync_enabled-ends_in v s parent observed namespace log r h
