-- ===== src/Family/Cluster.antt =====
-- A namespace in a cluster, between a controller and metacontroller. What metacontroller does is left
-- open as far as it can be: an object appears only if the last reply asked for it and no object has
-- its group and name, and any object may vanish; the labels of the namespace may change. What
-- it reports is left open too; how a call is made is an argument.
pub mod Objects
pub mod Safety
pub mod Progress
pub mod Wire
use kubefrog_kvmserver.Prelude.{
  ℕ, suc, String, ◌≡◌, Bool, false, ◌&&◌, List, [], ◌∷◌, ◌++◌, any, ◌==◌, string_eq,
}
use mathlib.Core.List.{Mem}
use kubefrog_kvmserver.Python.Errors.{ok}
use kubefrog_kvmserver.Python.Json.{Json}
use kubefrog_kvmserver.Python.Json.Literal.{elements}
use kubefrog_kvmserver.Controller.Settings.{Settings}
use kubefrog_kvmserver.Controller.Sync.{Line, parent_name}
use kubefrog_kvmserver.Controller.Inventory.{child, group_of, name_of, count_group, HasSizes}
use kubefrog_kvmserver.Family.{File, variant, sync}

-- The namespace's object, the attached objects, and what the last reply asked for.
pub record Cluster : Type 0 where
  pub parent : Json
  pub attached : List Json
  pub asked : List Json

-- What metacontroller reads in a reply: it has the attachments under the key of the request.
abbrev pub asked_by : File → Json → List Json
asked_by f r = elements (child r (variant f).observed_key)

abbrev pub is_same_object : Json → Json → Bool
is_same_object o q = group_of q == group_of o && name_of q == name_of o

-- No object has the group and the name.
abbrev pub IsFree : Json → List Json → Type 0
IsFree o rs = any (is_same_object o) rs ≡ false

-- What a call of `sync` may reply to a namespace, whatever report it gets: it may be a stale one.
abbrev pub SyncReplies : File → Settings → Json → Json → Type 0
SyncReplies f s parent r =
    (report : Json) × (log : List Line) × ((sync f s parent report log).0 ≡ ok r)

module _ (f : File) (Replies : Json → Json → Type 0) (namespace : Json) where
  pub data Step : Cluster → Cluster → Type 0 where
    answer :
        (c : Cluster) (r : Json) → Replies c.parent r → Step c (record c { asked = asked_by f r })
    appear :
        (c : Cluster) (o : Json)
        → Mem o c.asked
        → IsFree o c.attached
        → Step c (record c { attached = o ∷ c.attached })
    vanish :
        (c : Cluster) (front back : List Json) (o : Json)
        → c.attached ≡ front ++ o ∷ back
        → Step c (record c { attached = front ++ back })
    relabel :
        (c : Cluster) (parent : Json)
        → parent_name parent ≡ ok namespace
        → Step c (record c { parent = parent })

  -- From a namespace without attachments.
  pub data Reach : Cluster → Type 0 where
    start :
        (parent : Json)
        → parent_name parent ≡ ok namespace
        → Reach (record { parent = parent; attached = []; asked = [] })
    later : {c d : Cluster} → Reach c → Step c d → Reach d

  -- A number of steps from one state to another.
  pub data Run : ℕ → Cluster → Cluster → Type 0 where
    done : {c : Cluster} → Run 0 c c
    next : {n : ℕ} {c d e : Cluster} → Step c d → Run n d e → Run (suc n) c e

  pub Reach-Run : {n : ℕ} {c d : Cluster} → Run n c d → Reach c → Reach d
  Reach-Run done r = r
  Reach-Run (next step run) r = Reach-Run run (later r step)
