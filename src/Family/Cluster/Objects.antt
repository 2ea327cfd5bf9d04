-- ===== src/Family/Cluster/Objects.antt =====
-- The desired objects by group and name, and what a reply asks for.
use mathlib.Core.List.{Mem, Nodup, Nodup-nil, Nodup-cons, eq-or-mem_of_mem-cons, not-mem-nil}
use mathlib.Core.Logic.Or
use mathlib.Core.HLevel.{⊥_prop}
use kubefrog_kvmserver.Prelude.{
  String, ◌≡◌, refl, inl, inr, Bool, true, false, List, [], ◌∷◌, any, all, ◌==◌, string_eq, nat_eq,
  arith, eq_iff,
}
use kubefrog_kvmserver.Prelude.Members.{Within}
use kubefrog_kvmserver.Python.Loads.Plain.{both_true}
use kubefrog_kvmserver.Python.Json.{Json}
use kubefrog_kvmserver.Python.Json.Literal.{elements-list, dict}
use kubefrog_kvmserver.Controller.Settings.{Settings}
use kubefrog_kvmserver.Controller.Sync.{reply, status, desired_resources}
use kubefrog_kvmserver.Controller.Inventory.{group_of, name_of, groups, distinct}
use kubefrog_kvmserver.Controller.Desired.{kept, desired_cases}
use kubefrog_kvmserver.Controller.Outcome.{Answers}
use kubefrog_kvmserver.Family.{File, current, new, variant}
use kubefrog_kvmserver.Family.Cluster.{asked_by, is_same_object, IsFree}

pub same_text : (t : String) → (t == t) ≡ true
same_text t = (eq_iff t t).1 refl

is_same_object_self : (o : Json) → is_same_object o o ≡ true
is_same_object_self o = rw (same_text (group_of o), same_text (name_of o)) refl

IsFree-cons :
    (o q : Json) (rs : List Json) → IsFree o (q ∷ rs) → (is_same_object o q ≡ false) × IsFree o rs
IsFree-cons o q rs h = ground (arith, h)

-- An object of a list occupies its group and name.
pub mem-not-IsFree : (o : Json) (rs : List Json) → Mem o rs → ¬ IsFree o rs
mem-not-IsFree o [] m h = not-mem-nil m
mem-not-IsFree o (q ∷ rs) m h =
    let (other, rest) = IsFree-cons o q rs h in
    Or.elim ⊥_prop (eq-or-mem_of_mem-cons m) (λ e. cc (other, rw e at (is_same_object_self o)))
      (λ there. mem-not-IsFree o rs there rest)

pub distinct-cons :
    (r : Json) (rs : List Json) → distinct (r ∷ rs) ≡ true → IsFree r rs × (distinct rs ≡ true)
distinct-cons r rs h = ground (arith, h)

pub distinct-Nodup : (rs : List Json) → distinct rs ≡ true → Nodup rs
distinct-Nodup [] h = Nodup-nil
distinct-Nodup (r ∷ rs) h =
    let (free, rest) = distinct-cons r rs h in
    Nodup-cons.1 (λ m. mem-not-IsFree r rs m free, distinct-Nodup rs rest)

-- Every desired resource belongs to a watched group.
abbrev pub is_watched : Json → Bool
is_watched r = any (λ g. group_of r == g) groups

kept-is_watched :
    (f : File) (s : Settings) (namespace : Json)
    → all is_watched (kept (variant f) s namespace) ≡ true
kept-is_watched current s namespace = refl
kept-is_watched _ s namespace = refl

launcher-is_watched :
    (f : File) (s : Settings) (namespace : Json) (root : String)
    → all is_watched ((variant f).launcher_configmap namespace root ∷ kept (variant f) s namespace)
      ≡ true
launcher-is_watched current s namespace root = refl
launcher-is_watched _ s namespace root = refl

pub desired_resources-is_watched :
    (f : File) (s : Settings) (namespace : Json)
    → all is_watched (desired_resources (variant f) s namespace) ≡ true
desired_resources-is_watched f s namespace =
    desired_cases (λ rs. all is_watched rs ≡ true) (variant f) s namespace
      (kept-is_watched f s namespace) (launcher-is_watched f s namespace)

-- Metacontroller reads no more in a reply than `sync` put there; for sync_new.py it reads nothing.
pub asked_by-reply :
    (f : File) (st : Json) (rs : List Json) → Within (asked_by f (reply (variant f) st rs)) rs
asked_by-reply new st rs o m = absurd (not-mem-nil m)
asked_by-reply current st rs o m = rw elements-list at m
asked_by-reply _ st rs o m = rw elements-list at m

pub asked_by-Within :
    (f : File) (s : Settings) (namespace r : Json)
    → Answers (variant f) s namespace r
    → Within (asked_by f r) (desired_resources (variant f) s namespace)
asked_by-Within f s namespace r (inl e) o m =
    absurd (not-mem-nil (asked_by-reply f (dict []) [] o (rw e at m)))
asked_by-Within f s namespace r (inr (ready, e)) o m =
    asked_by-reply f (status ready) _ o (rw e at m)

pub all-Mem :
    (p : Json → Bool) (rs : List Json) (o : Json) → all p rs ≡ true → Mem o rs → p o ≡ true
all-Mem p [] o h m = absurd (not-mem-nil m)
all-Mem p (r ∷ rs) o h m =
    let (here, rest) = both_true (p r) (all p rs) h in
    Or.elim (hlevel) (eq-or-mem_of_mem-cons m) (λ e. rw e here) (λ there. all-Mem p rs o rest there)
