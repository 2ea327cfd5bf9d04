-- ===== src/SyncSeaweed/Cluster/Calls.antt =====
-- Where the credentials that are attached come from.
use mathlib.Core.List.{Mem, mem-cons_self, mem-append_right, append_assoc}
use kubefrog_kvmserver.Prelude.{
  String, ◌<>◌, ◌≡◌, refl, ap, sym, ◌∙◌, inl, inr, true, List, [], ◌∷◌, ◌++◌, All, All-append,
  if◌then◌else◌, Bool-cases,
}
use kubefrog_kvmserver.Python.Errors.{Result, ok, err}
use kubefrog_kvmserver.Python.Exec.{Exec, pure, lift, resume, ◌>>=◌}
use kubefrog_kvmserver.Python.Json.{Json, null, get, index, is_text, truth}
use kubefrog_kvmserver.Python.Json.Literal.{elements, elements-list}
use kubefrog_kvmserver.Python.Dumps.{format, dumps}
use kubefrog_kvmserver.Controller.Manifest.{minio_secret}
use kubefrog_kvmserver.Controller.Sync.{is_ready, status, parent_name, parent_label}
use kubefrog_kvmserver.Controller.Inventory.{child}
use kubefrog_kvmserver.SyncSeaweed.Sync.{
  Iam, World, configmaps, credential, policy_document, note, create_access_key, put_user_policy,
  create_credentials, use_existing, reply, sync, sync_enabled,
}
use kubefrog_kvmserver.SyncSeaweed.Laws.{FindsSecret, secret_path}
use kubefrog_kvmserver.SyncSeaweed.Cluster.{kept, recording, IsLegit, keys}

-- Later keys only add to the earlier ones.
abbrev Grows : List Json → List Json → Type 0
Grows before after = (new : List Json) × (after ≡ new ++ before)

Grows-trans : (a b c : List Json) → Grows a b → Grows b c → Grows a c
Grows-trans a b c (new, e) (newer, h) =
    (newer ++ new, h ∙ ap (λ l. newer ++ l) e ∙ sym (append_assoc newer new a))

IsLegit-Grows :
    (namespace : Json) (before after : List Json) (o : Json)
    → Grows before after
    → IsLegit namespace before o
    → IsLegit namespace after o
IsLegit-Grows namespace before after o g (inl h) = inl h
IsLegit-Grows namespace before after o (new, e) (inr (key, access, hidden, m, ca, cb, es)) =
    inr (key, access, hidden, rw e (mem-append_right new m), ca, cb, es)

abbrev pub Legit : Json → List Json → List Json → Type 0
Legit namespace ks rs = All (IsLegit namespace ks) rs

pub Legit-Grows :
    (namespace : Json) (before after : List Json) (rs : List Json)
    → Grows before after
    → Legit namespace before rs
    → Legit namespace after rs
Legit-Grows namespace before after [] g h = tt
Legit-Grows namespace before after (o ∷ rs) g (here, h) =
    (IsLegit-Grows namespace before after o g here, Legit-Grows namespace before after rs g h)

configmaps-Legit :
    (namespace : Json) (ns : String) (ks : List Json) → Legit namespace ks (configmaps namespace ns)
configmaps-Legit namespace ns ks = (inl refl, (inl refl, (inl refl, tt)))

kept-Grows : (r : Result Json) (ks : List Json) → Grows ks (kept r ks)
kept-Grows (ok key) ks = (key ∷ [], refl)
kept-Grows (err e) ks = ([], refl)

kept-Mem : (r : Result Json) (key : Json) (ks : List Json) → r ≡ ok key → Mem key (kept r ks)
kept-Mem (ok k) key ks h = let same : k ≡ key = cc in rw same mem-cons_self
kept-Mem (err e) key ks h = cc

module _ (I : Iam) (repr : Json → String) (namespace : Json) where
  abbrev Outcome : Type 0 → Type 0
  Outcome A = Result A × World (recording I) repr

  -- A step with the keys `ks` recorded: none is lost, and what it returns is legitimate.
  abbrev pub Sound : {A : Type 0} → (A → List Json) → List Json → Outcome A → Type 0
  Sound objects ks (ok a, after) =
      Grows ks (keys I repr after) × Legit namespace (keys I repr after) (objects a)
  Sound objects ks (err e, after) = Grows ks (keys I repr after)

  resume-Sound :
      {A B : Type 0} (objects : B → List Json) (ks : List Json) (w : World (recording I) repr)
      (r : Result A) (f : A → Exec (World (recording I) repr) B)
      → Grows ks (keys I repr w)
      → ((a : A) → r ≡ ok a → Sound objects ks (f a w))
      → Sound objects ks (resume r f w)
  resume-Sound objects ks w (ok a) f g h = h a refl
  resume-Sound objects ks w (err e) f g h = g

  -- The reply that is made of the desired resources.
  reply-Sound :
      (desired_status : Json) (ks : List Json) (o : Outcome (List Json))
      → Sound (λ rs. rs) ks o
      → Sound
          (λ r. elements (child r "attachments"))
          ks
          (resume o.0 (λ rs. pure (reply desired_status rs)) o.1)
  reply-Sound desired_status ks (ok rs, after) (g, h) = (g, rw (elements-list rs) h)
  reply-Sound desired_status ks (err e, after) g = g

  -- What is made of a recorded key.
  read-Sound :
      (key : Json) (ks : List Json) (w : World (recording I) repr)
      → Grows ks (keys I repr w)
      → Mem key (keys I repr w)
      → Sound
          (λ rs. rs)
          ks
          ((do
            access ← lift (credential key "AccessKeyId")
            hidden ← lift (credential key "SecretAccessKey")
            pure (
                minio_secret access hidden namespace
                ∷ configmaps namespace (format repr namespace)))
            w)
  read-Sound key ks w grows m =
      let objects = configmaps namespace (format repr namespace) in
      resume-Sound (λ rs. rs) ks w (credential key "AccessKeyId") _ grows
        λ access ha.
          resume-Sound (λ rs. rs) ks w (credential key "SecretAccessKey")
            (λ hidden. pure (minio_secret access hidden namespace ∷ objects)) grows
            λ hidden hb. (
              grows,
              (
                inr (key, access, hidden, m, ha, hb, refl),
                configmaps-Legit namespace (format repr namespace) (keys I repr w),
              ),
            )

  create_credentials-Sound :
      (w : World (recording I) repr)
      → Sound (λ rs. rs) (keys I repr w) (create_credentials (recording I) repr namespace w)
  unfolding create_credentials
  create_credentials-Sound w =
      let ks = keys I repr w in
      let ns = format repr namespace in
      let (r, w1) =
        create_access_key (recording I) repr namespace
          (record w { printed = w.printed ++ note "Creating new access key." ∷ [] }) in
      let (p, w2) =
        put_user_policy (recording I) repr namespace ("KubeflowProject" <> ns)
          (dumps (policy_document ns)) w1 in
      let grows : Grows ks (kept r ks) = kept-Grows r ks in
      resume-Sound (λ rs. rs) ks w1 r _ grows
        λ key hk.
          resume-Sound (λ rs. rs) ks w2 p _ grows
            λ _ _. read-Sound key ks w2 grows (kept-Mem r key ks hk)

  -- A secret that is looked up is legitimate.
  abbrev Shown : Json → List Json → Type 0
  Shown attachments ks =
      (secret : Json)
      → FindsSecret repr attachments namespace secret
      → truth secret ≡ true
      → IsLegit namespace ks secret

  branch-Sound :
      (secret : Json) (w : World (recording I) repr)
      → (truth secret ≡ true → IsLegit namespace (keys I repr w) secret)
      → Sound
          (λ rs. rs)
          (keys I repr w)
          ((if truth secret
              then use_existing (recording I) repr namespace secret
              else create_credentials (recording I) repr namespace)
            w)
  branch-Sound secret w shown = elim (Bool-cases (truth secret)) [
    | inl ht ↦ rw ht (
      ([], refl),
      All-append (IsLegit namespace (keys I repr w)) (configmaps namespace (format repr namespace))
          (secret ∷ []) (configmaps-Legit namespace (format repr namespace) (keys I repr w))
          (shown ht, tt),
    )
    | inr hf ↦ rw hf (create_credentials-Sound w)
  ]

  sync_enabled-Sound :
      (parent attachments : Json) (w : World (recording I) repr)
      → Shown attachments (keys I repr w)
      → Sound
          (λ r. elements (child r "attachments"))
          (keys I repr w)
          (sync_enabled (recording I) repr parent attachments namespace w)
  unfolding sync_enabled
  sync_enabled-Sound parent attachments w shown =
      let ks = keys I repr w in
      let same : Grows ks ks = ([], refl) in
      let objects : Json → List Json = λ r. elements (child r "attachments") in
      resume-Sound objects ks w (is_ready attachments 3) _ same λ ready _.
        resume-Sound objects ks _ (index attachments "Secret.v1") _ same λ secrets hs.
          resume-Sound objects ks _ (get secrets (secret_path repr namespace) null) _ same
            λ secret hg.
              reply-Sound (status ready) ks _ (branch-Sound secret _ (shown secret (rw hs hg)))

  pub sync-Sound :
      (parent attachments : Json) (w : World (recording I) repr)
      → parent_name parent ≡ ok namespace
      → Shown attachments (keys I repr w)
      → Sound
          (λ r. elements (child r "attachments"))
          (keys I repr w)
          (sync (recording I) repr parent attachments w)
  unfolding sync
  sync-Sound parent attachments w hn shown =
      let ks = keys I repr w in
      let same : Grows ks ks = ([], refl) in
      rw hn (
        resume-Sound (λ r. elements (child r "attachments")) ks w (parent_label parent) _ same
          λ label _. elim (Bool-cases (is_text label "true")) [
            | inl h ↦ rw h (sync_enabled-Sound parent attachments w shown)
            | inr h ↦ rw h (same, tt)
          ])
