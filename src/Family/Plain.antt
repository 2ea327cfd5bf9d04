-- ===== src/Family/Plain.antt =====
-- The replies of the controllers, as values that JSON holds exactly.
use kubefrog_kvmserver.Prelude.{
  String, ◌≡◌, refl, inl, inr, Bool, true, false, List, [], ◌∷◌, string_eq,
}
use kubefrog_kvmserver.Python.Errors.{ok}
use kubefrog_kvmserver.Python.Json.{Json}
use kubefrog_kvmserver.Python.Json.Literal.{dict, items}
use kubefrog_kvmserver.Python.Loads.Plain.{is_plain, plain_items}
use kubefrog_kvmserver.Controller.Settings.{Settings}
use kubefrog_kvmserver.Controller.Manifest.{sidecar_annotations}
use kubefrog_kvmserver.Controller.Sync.{Line, reply, status, desired_resources}
use kubefrog_kvmserver.Controller.Desired.{kept, desired_cases}
use kubefrog_kvmserver.Controller.Plain.{parent_name-plain, status-plain}
use kubefrog_kvmserver.Controller.Outcome.{sync-Answers}
use kubefrog_kvmserver.Family.{File, current, variant, sync}
use kubefrog_kvmserver.Family.Status.{sync-variant}

sidecar_annotations-plain : (b : Bool) → is_plain (sidecar_annotations b) ≡ true
unfolding is_plain
sidecar_annotations-plain true = refl
sidecar_annotations-plain false = refl

abbrev PlainList : List Json → Type 0
PlainList rs = plain_items (items rs) ≡ true

kept-plain :
    (f : File) (s : Settings) (namespace : Json)
    → is_plain namespace ≡ true
    → PlainList (kept (variant f) s namespace)
unfolding is_plain
kept-plain current s namespace h = rw (h, sidecar_annotations-plain s.disable_istio_sidecar) refl
kept-plain _ s namespace h = rw (h, sidecar_annotations-plain s.disable_istio_sidecar) refl

launched_plain :
    (f : File) (s : Settings) (namespace : Json) (root : String)
    → is_plain namespace ≡ true
    → PlainList ((variant f).launcher_configmap namespace root ∷ kept (variant f) s namespace)
unfolding is_plain
launched_plain current s namespace root h =
    rw (h, sidecar_annotations-plain s.disable_istio_sidecar) refl
launched_plain _ s namespace root h = rw (h, sidecar_annotations-plain s.disable_istio_sidecar) refl

desired_resources-plain :
    (f : File) (s : Settings) (namespace : Json)
    → is_plain namespace ≡ true
    → PlainList (desired_resources (variant f) s namespace)
desired_resources-plain f s namespace p =
    desired_cases PlainList (variant f) s namespace (kept-plain f s namespace p)
      (λ root. launched_plain f s namespace root p)

reply-plain :
    (f : File) (st : Json) (rs : List Json)
    → is_plain st ≡ true
    → PlainList rs
    → is_plain (reply (variant f) st rs) ≡ true
unfolding is_plain
reply-plain current st rs p prs = rw (p, prs) refl
reply-plain _ st rs p prs = rw (p, prs) refl

-- What `sync` returns for a plain request is plain.
pub sync-plain :
    (f : File) (s : Settings) (parent observed r : Json) (log : List Line)
    → is_plain parent ≡ true
    → (sync f s parent observed log).0 ≡ ok r
    → is_plain r ≡ true
unfolding is_plain
sync-plain f s parent observed r log p h =
    let (namespace, hn, answers) =
      sync-Answers (variant f) s parent observed r log (rw (← sync-variant f) h) in
    elim answers [
      | inl e ↦ rw e (reply-plain f (dict []) [] refl refl)
      | inr (ready, e) ↦ rw e (
          reply-plain f (status ready) _ (status-plain ready)
            (desired_resources-plain f s namespace (parent_name-plain parent namespace p hn)))
    ]
