-- ===== src/Controller/Laws.antt =====
-- Lemmas about `sync` that hold for every variant.
use kubefrog_kvmserver.Prelude.{
  ℕ, String, ◌≡◌, ◌≢◌, refl, sym, arith, ap, ap₂, ◌∙◌, all, ◌⊎◌, inl, inr, Bool, true, false, List,
  [], ◌∷◌, ◌++◌, ◌==◌, nat_eq, string_eq, if◌then◌else◌, Bool-cases,
}
use mathlib.Core.List.{append_assoc}
use kubefrog_kvmserver.Python.Errors.{Error, Result, Result-cases, ok, err, ◌>>=◌}
use kubefrog_kvmserver.Python.Json.{Json, str, is_text, index, len}
use kubefrog_kvmserver.Python.Json.Literal.{dict, list}
use kubefrog_kvmserver.Controller.Settings.{Settings}
use kubefrog_kvmserver.Controller.Sync.{
  Variant, Line, is_ready, status, reply, configmap_count, public_resources, desired_resources,
  sync, sync_enabled, parent_name, parent_label,
}
use kubefrog_kvmserver.Controller.Inventory.{HasSizes}
use kubefrog_kvmserver.Controller.Readiness.{watched, is_ready-sizes, is_ready-false}

-- What the two `print`s write.
abbrev pub printed_lines : Variant → Settings → Json → Json → List Line
printed_lines v s parent namespace =
    record { heading = "Received request:\n"; value = parent }
    ∷ record {
      heading = "Desired resources except secrets:\n";
      value = list (public_resources v s namespace);
    }
    ∷ []

if_apply {ℓ κ} :
    {A : Type ℓ} {B : Type κ} (b : Bool) (f g : A → B) (a : A)
    → (if b then f else g) a ≡ (if b then f a else g a)
if_apply true f g a = refl
if_apply false f g a = refl

-- A request for a namespace with the label set runs `sync_enabled`; any other one that names its
-- metadata gets an empty reply.
pub sync-cases :
    (v : Variant) (s : Settings) (parent observed namespace label : Json) (log : List Line)
    → parent_name parent ≡ ok namespace
    → parent_label parent ≡ ok label
    → sync v s parent observed log ≡ (
        if is_text label "true"
        then sync_enabled v s parent observed namespace log
        else (ok (reply v (dict []) []), log))
unfolding sync
sync-cases v s parent observed namespace label log hn hl =
    rw (hn, hl) (if_apply (is_text label "true") _ _ log)

pub sync_enabled-ready :
    (v : Variant) (s : Settings) (parent observed namespace : Json) (log : List Line) (ready : Bool)
    → is_ready observed (configmap_count s.kfp_default_pipeline_root) ≡ ok ready
    → sync_enabled v s parent observed namespace log ≡ (
      ok (reply v (status ready) (desired_resources v s namespace)),
      log ++ printed_lines v s parent namespace,
    )
unfolding sync_enabled
sync_enabled-ready v s parent observed namespace log ready h = rw h (
    ap (λ lines. (ok (reply v (status ready) (desired_resources v s namespace)), lines))
      (append_assoc log _ _))

-- A request for an enabled namespace, when every watched group is reported: the reply and the
-- printed lines.
pub sync-reply :
    (v : Variant) (s : Settings) (parent observed namespace : Json) (log : List Line)
    (sizes : String → ℕ)
    → parent_name parent ≡ ok namespace
    → parent_label parent ≡ ok (str "true")
    → HasSizes observed sizes
    → sync v s parent observed log ≡ (
      ok (
          reply v
            (status (
              all (λ (g, k). sizes g == k) (watched (configmap_count s.kfp_default_pipeline_root))))
            (desired_resources v s namespace)),
      log ++ printed_lines v s parent namespace,
    )
sync-reply v s parent observed namespace log sizes hn hl r =
    sync-cases v s parent observed namespace (str "true") log hn hl
    ∙ sync_enabled-ready v s parent observed namespace log _ (is_ready-sizes observed sizes r _)

-- What `sync_enabled` has printed, from the readiness and the resources that it prints.
abbrev printed : Result Bool → Json → List Json → List Line → List Line
printed (ok ready) parent rs log =
    (log ++ record { heading = "Received request:\n"; value = parent } ∷ [])
    ++ record { heading = "Desired resources except secrets:\n"; value = list rs } ∷ []
printed (err e) parent rs log = log

sync_enabled-printed :
    (v : Variant) (s : Settings) (parent observed namespace : Json) (log : List Line)
    → (sync_enabled v s parent observed namespace log).1
      ≡ printed
          (is_ready observed (configmap_count s.kfp_default_pipeline_root))
          parent
          (public_resources v s namespace)
          log
unfolding sync_enabled
sync_enabled-printed v s parent observed namespace log = ground arith

sync_enabled_log :
    (v : Variant) (s s' : Settings) (parent observed namespace : Json) (log : List Line)
    → s.kfp_default_pipeline_root ≡ s'.kfp_default_pipeline_root
    → public_resources v s namespace ≡ public_resources v s' namespace
    → (sync_enabled v s parent observed namespace log).1
      ≡ (sync_enabled v s' parent observed namespace log).1
sync_enabled_log v s s' parent observed namespace log root same =
    sync_enabled-printed v s parent observed namespace log
    ∙ ap₂ (λ r rs. printed (is_ready observed (configmap_count r)) parent rs log) root same
    ∙ sym (sync_enabled-printed v s' parent observed namespace log)

-- Settings that agree on what is public print the same lines, whether the call returns or raises.
pub sync_log :
    (v : Variant) (s s' : Settings) (parent observed : Json) (log : List Line)
    → s.kfp_default_pipeline_root ≡ s'.kfp_default_pipeline_root
    → ((namespace : Json) → public_resources v s namespace ≡ public_resources v s' namespace)
    → (sync v s parent observed log).1 ≡ (sync v s' parent observed log).1
unfolding sync
sync_log v s s' parent observed log root same = elim (Result-cases (parent_name parent)) [
  | inl (namespace, h) ↦
      rw h (
        ground (arith, sync_enabled_log v s s' parent observed namespace log root (same namespace)))
  | inr (e, h) ↦ rw h
]

-- A call that raises has printed nothing.
pub sync-err :
    (v : Variant) (s : Settings) (parent observed : Json) (log : List Line) (e : Error)
    → (sync v s parent observed log).0 ≡ err e
    → (sync v s parent observed log).1 ≡ log
unfolding sync sync_enabled
sync-err v s parent observed log e h = ground arith

-- Without the label the reply is empty, and nothing is printed.
pub sync-disabled :
    (v : Variant) (s : Settings) (parent observed namespace label : Json) (log : List Line)
    → parent_name parent ≡ ok namespace
    → parent_label parent ≡ ok label
    → is_text label "true" ≡ false
    → sync v s parent observed log ≡ (ok (reply v (dict []) []), log)
sync-disabled v s parent observed namespace label log hn hl h =
    sync-cases v s parent observed namespace label log hn hl ∙ rw h

-- A number of secrets other than one decides the status before any other group is read.
pub sync-not_ready :
    (v : Variant) (s : Settings) (parent observed namespace : Json) (log : List Line) (k : ℕ)
    → parent_name parent ≡ ok namespace
    → parent_label parent ≡ ok (str "true")
    → (index observed "Secret.v1" >>= len) ≡ ok k
    → k ≢ 1
    → sync v s parent observed log ≡ (
      ok (reply v (status false) (desired_resources v s namespace)),
      log ++ printed_lines v s parent namespace,
    )
sync-not_ready v s parent observed namespace log k hn hl hk ne =
    sync-cases v s parent observed namespace (str "true") log hn hl
    ∙ sync_enabled-ready v s parent observed namespace log false (is_ready-false observed k _ hk ne)

pub sync_enabled-returns :
    (v : Variant) (s : Settings) (parent observed namespace r : Json) (log : List Line)
    → (sync_enabled v s parent observed namespace log).0 ≡ ok r
    → (ready : Bool) × (r ≡ reply v (status ready) (desired_resources v s namespace))
unfolding sync_enabled
sync_enabled-returns v s parent observed namespace r log h =
    elim (Result-cases (is_ready observed (configmap_count s.kfp_default_pipeline_root))) [
      | inl (b, hb) ↦
          (b, cc (h, ap (λ p. p.0) (sync_enabled-ready v s parent observed namespace log b hb)))
      | inr (e, he) ↦ cc (rw he at h)
    ]

sync-unnamed :
    (v : Variant) (s : Settings) (parent observed : Json) (log : List Line) (e : Error)
    → parent_name parent ≡ err e
    → sync v s parent observed log ≡ (err e, log)
unfolding sync
sync-unnamed v s parent observed log e h = rw h

pub sync-labelled :
    (v : Variant) (s : Settings) (parent observed namespace label : Json) (log : List Line)
    → parent_name parent ≡ ok namespace
    → parent_label parent ≡ ok label
    → is_text label "true" ≡ true
    → sync v s parent observed log ≡ sync_enabled v s parent observed namespace log
sync-labelled v s parent observed namespace label log hn hl h =
    sync-cases v s parent observed namespace label log hn hl ∙ rw h

-- What a call for an enabled namespace returned.
pub sync-enabled :
    (v : Variant) (s : Settings) (parent observed namespace r : Json) (log : List Line)
    → parent_name parent ≡ ok namespace
    → parent_label parent ≡ ok (str "true")
    → (sync v s parent observed log).0 ≡ ok r
    → (ready : Bool) × (r ≡ reply v (status ready) (desired_resources v s namespace))
sync-enabled v s parent observed namespace r log hn hl h =
    sync_enabled-returns v s parent observed namespace r log
      (rw (sync-labelled v s parent observed namespace (str "true") log hn hl refl) at h)

-- What `sync` returned, if it returned: the empty reply or the desired resources, by the label.
pub sync-returns :
    (v : Variant) (s : Settings) (parent observed label r : Json) (log : List Line)
    → parent_label parent ≡ ok label
    → (sync v s parent observed log).0 ≡ ok r
    → (is_text label "true" ≡ false) × (r ≡ reply v (dict []) [])
      ⊎ (is_text label "true" ≡ true)
        × ((ready : Bool) × (namespace : Json) × (r
              ≡ reply v (status ready) (desired_resources v s namespace)))
sync-returns v s parent observed label r log hl h = elim (Result-cases (parent_name parent)) [
  | inr (e, hn) ↦ cc (h, ap (λ p. p.0) (sync-unnamed v s parent observed log e hn))
  | inl (namespace, hn) ↦ elim (Bool-cases (is_text label "true")) [
    | inr no_label ↦ inl (
      no_label,
      cc (h, ap (λ p. p.0) (sync-disabled v s parent observed namespace label log hn hl no_label)),
    )
    | inl labelled ↦ inr (
      labelled,
      let (ready, e) =
            sync_enabled-returns v s parent observed namespace r log
              (rw (sync-labelled v s parent observed namespace label log hn hl labelled) at h) in
          (ready, namespace, e),
    )
  ]
]
