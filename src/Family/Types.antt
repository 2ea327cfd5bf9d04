-- ===== src/Family/Types.antt =====
-- The replies of the four controllers are of the types that metacontroller and Kubernetes give them.
use kubefrog_kvmserver.Prelude.{String, ◌≡◌, refl, inl, inr, Bool, true, false, List, [], ◌∷◌, all}
use kubefrog_kvmserver.Python.Errors.{ok}
use kubefrog_kvmserver.Python.Json.{Json, str}
use kubefrog_kvmserver.Python.Json.Literal.{dict, items, elements_of}
use kubefrog_kvmserver.Controller.Settings.{Settings}
use kubefrog_kvmserver.Controller.Manifest.{sidecar_annotations}
use kubefrog_kvmserver.Controller.Sync.{Line, reply, status, desired_resources, parent_name}
use kubefrog_kvmserver.Controller.Desired.{kept, desired_cases}
use kubefrog_kvmserver.Controller.Outcome.{sync-Answers}
use kubefrog_kvmserver.Kubernetes.{is_valid}
use kubefrog_kvmserver.Kubernetes.Schemas.{
  Schema, text, anything, map_of, list_of, object_of, required, none_left, validate,
}
use kubefrog_kvmserver.Family.{File, current, debug_frontend, variant, sync}
use kubefrog_kvmserver.Family.Status.{sync-variant}
use kubefrog_kvmserver.Family.Replies.{attachments_of, attachments_of-reply}

sidecar_annotations-validate :
    (disabled : Bool) → validate (map_of text) (sidecar_annotations disabled) ≡ true
unfolding validate
sidecar_annotations-validate true = refl
sidecar_annotations-validate false = refl

-- What is listed for a namespace with a text as its name.
kept-is_valid :
    (f : File) (s : Settings) (n : String) → all is_valid (kept (variant f) s (str n)) ≡ true
unfolding is_valid validate
kept-is_valid debug_frontend s n = rw (sidecar_annotations-validate s.disable_istio_sidecar) refl
kept-is_valid _ s n = rw (sidecar_annotations-validate s.disable_istio_sidecar) refl

launched-is_valid :
    (f : File) (s : Settings) (n root : String)
    → all is_valid ((variant f).launcher_configmap (str n) root ∷ kept (variant f) s (str n)) ≡ true
unfolding is_valid validate
launched-is_valid debug_frontend s n root =
    rw (sidecar_annotations-validate s.disable_istio_sidecar) refl
launched-is_valid current s n root = rw (sidecar_annotations-validate s.disable_istio_sidecar) refl
launched-is_valid _ s n root = rw (sidecar_annotations-validate s.disable_istio_sidecar) refl

desired_resources-is_valid :
    (f : File) (s : Settings) (n : String)
    → all is_valid (desired_resources (variant f) s (str n)) ≡ true
desired_resources-is_valid f s n =
    desired_cases (λ rs. all is_valid rs ≡ true) (variant f) s (str n) (kept-is_valid f s n)
      (launched-is_valid f s n)

-- The value that metacontroller takes as a reply.
abbrev pub reply_schema : File → Schema
reply_schema f = object_of (
    required "status" (map_of text) (required ((variant f).reply_key) (list_of anything) none_left))

-- A reply of that type, with an object of its type for every attachment.
abbrev pub IsReply : File → Json → Type 0
IsReply f r = (validate (reply_schema f) r ≡ true) × (all is_valid (attachments_of f r) ≡ true)

all-anything : (rs : List Json) → all (validate anything) (elements_of (items rs)) ≡ true
unfolding validate
all-anything [] = refl
all-anything (r ∷ rs) = all-anything rs

reply-validate :
    (f : File) (st : Json) (rs : List Json)
    → validate (map_of text) st ≡ true
    → validate (reply_schema f) (reply (variant f) st rs) ≡ true
unfolding validate
reply-validate current st rs h = rw (h, all-anything rs) refl
reply-validate _ st rs h = rw (h, all-anything rs) refl

reply-IsReply :
    (f : File) (st : Json) (rs : List Json)
    → validate (map_of text) st ≡ true
    → all is_valid rs ≡ true
    → IsReply f (reply (variant f) st rs)
reply-IsReply f st rs ht hr = (reply-validate f st rs ht, rw (attachments_of-reply f st rs) hr)

status-validate : (ready : Bool) → validate (map_of text) (status ready) ≡ true
unfolding validate
status-validate true = refl
status-validate false = refl

-- Whatever a call of `sync` returns for a namespace with a text as its name is of the type of a reply:
-- a status of texts and a list under the key of the file, and nothing else; and each listed object is
-- of the type that Kubernetes or Istio gives to its kind, with every required field and with no field
-- that the type does not have.
pub sync-IsReply :
    (f : File) (s : Settings) (parent observed r : Json) (n : String) (log : List Line)
    → parent_name parent ≡ ok (str n)
    → (sync f s parent observed log).0 ≡ ok r
    → IsReply f r
unfolding validate
sync-IsReply f s parent observed r n log hn h =
    let (read, hr, answers) =
      sync-Answers (variant f) s parent observed r log (rw (← sync-variant f) h) in
    let same : read ≡ str n = cc in
    elim answers [
      | inl e ↦ rw e (reply-IsReply f (dict []) [] refl refl)
      | inr (ready, e) ↦
          rw (e, same)
            (reply-IsReply f (status ready) (desired_resources (variant f) s (str n))
              (status-validate ready) (desired_resources-is_valid f s n))
    ]
