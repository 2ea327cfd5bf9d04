-- ===== src/Family/Replies.antt =====
-- What the four controllers answer and print, on every branch of `sync`.
use kubefrog_kvmserver.Prelude.{
  ℕ, String, ◌≡◌, ◌≢◌, ◌↔◌, refl, sym, ap, inl, inr, ◌∙◌, true, false, List, [], ◌++◌,
}
use kubefrog_kvmserver.Python.Errors.{Error, ok, err, ◌>>=◌}
use kubefrog_kvmserver.Python.Json.{Json, str, is_text, index, len}
use kubefrog_kvmserver.Python.Json.Literal.{dict, elements, elements-list}
use kubefrog_kvmserver.Controller.Settings.{Settings}
use kubefrog_kvmserver.Controller.Sync.{
  Line, status, reply, desired_resources, public_resources, parent_name, parent_label,
}
use kubefrog_kvmserver.Controller.Inventory.{child}
use kubefrog_kvmserver.Controller.Laws.{
  sync_log, sync-err, sync-not_ready, sync-returns, printed_lines,
}
use kubefrog_kvmserver.Controller.Desired.{kept, desired_cases}
use kubefrog_kvmserver.Family.{File, current, variant, sync}
use kubefrog_kvmserver.Family.Status.{sync-variant}

-- Settings with other MinIO credentials.
abbrev pub with_keys : Settings → String → String → Settings
with_keys s access secret = record s { minio_access_key = access; minio_secret_key = secret }

same_public :
    (f : File) (s : Settings) (access secret : String) (namespace : Json)
    → public_resources (variant f) (with_keys s access secret) namespace
      ≡ public_resources (variant f) s namespace
same_public current s access secret namespace = refl
same_public _ s access secret namespace = refl

-- What `sync` prints does not depend on the MinIO credentials: with any others in the settings, each
-- of the four files prints the same lines, whether the call returns or raises.
pub sync-prints_no_secret :
    (f : File) (s : Settings) (access secret : String) (parent observed : Json) (log : List Line)
    → (sync f (with_keys s access secret) parent observed log).1 ≡ (sync f s parent observed log).1
sync-prints_no_secret f s access secret parent observed log = rw (sync-variant f) (
    sync_log (variant f) (with_keys s access secret) s parent observed log refl
      (same_public f s access secret))

-- The attachments of a reply, under the key that the file uses.
abbrev pub attachments_of : File → Json → List Json
attachments_of f r = elements (child r (variant f).reply_key)

-- A reply has the resources it was made with.
pub attachments_of-reply :
    (f : File) (st : Json) (rs : List Json) → attachments_of f (reply (variant f) st rs) ≡ rs
attachments_of-reply current st rs = elements-list rs
attachments_of-reply _ st rs = elements-list rs

kept-ne-nil : (f : File) (s : Settings) (namespace : Json) → kept (variant f) s namespace ≢ []
kept-ne-nil current s namespace e = cc
kept-ne-nil _ s namespace e = cc

desired_resources-ne-nil :
    (f : File) (s : Settings) (namespace : Json) → desired_resources (variant f) s namespace ≢ []
desired_resources-ne-nil f s namespace =
    desired_cases (λ rs. rs ≢ []) (variant f) s namespace (kept-ne-nil f s namespace) (λ r e. cc)

-- When `sync` returns for a namespace whose label it could read, the reply lists resources exactly
-- if the label is "true".
pub sync-lists_iff_enabled :
    (f : File) (s : Settings) (parent observed label r : Json) (log : List Line)
    → parent_label parent ≡ ok label
    → (sync f s parent observed log).0 ≡ ok r
    → (attachments_of f r ≢ []) ↔ (is_text label "true" ≡ true)
sync-lists_iff_enabled f s parent observed label r log hl h =
    elim (sync-returns (variant f) s parent observed label r log hl (rw (← sync-variant f) h)) [
      | inl (off, e) ↦ (
        λ ne. absurd (ne (rw (e, attachments_of-reply f (dict []) []))),
        λ labelled _. cc (off, labelled),
      )
      | inr (labelled, (ready, namespace, e)) ↦ (
        λ _. labelled,
        λ _ none_listed. desired_resources-ne-nil f s namespace (
            sym (attachments_of-reply f (status ready) _)
            ∙ ap (attachments_of f) (sym e)
            ∙ none_listed),
      )
    ]

-- A call of `sync` that raises has printed nothing, in each of the four files.
sync-raises_silently :
    (f : File) (s : Settings) (parent observed : Json) (log : List Line) (e : Error)
    → (sync f s parent observed log).0 ≡ err e
    → (sync f s parent observed log).1 ≡ log
sync-raises_silently f s parent observed log e h =
    rw (sync-variant f) (sync-err (variant f) s parent observed log e (rw (← sync-variant f) h))

-- For an enabled namespace whose secrets are reported, in a number other than one, `sync` returns
-- the desired resources with the status "False", whatever is reported of the other groups, and also
-- if they are missing.
pub sync-without_secret :
    (f : File) (s : Settings) (parent observed namespace : Json) (log : List Line) (k : ℕ)
    → parent_name parent ≡ ok namespace
    → parent_label parent ≡ ok (str "true")
    → (index observed "Secret.v1" >>= len) ≡ ok k
    → k ≢ 1
    → sync f s parent observed log ≡ (
      ok (reply (variant f) (status false) (desired_resources (variant f) s namespace)),
      log ++ printed_lines (variant f) s parent namespace,
    )
sync-without_secret f s parent observed namespace log k hn hl hk ne =
    rw (sync-variant f) (sync-not_ready (variant f) s parent observed namespace log k hn hl hk ne)
