-- ===== src/Family/Cluster/Safety.antt =====
-- In a cluster the status "True" means that all desired objects are there, and no others.
use mathlib.Core.List.{
  Perm, Nodup, Nodup-nil, Nodup-cons, eq-or-mem_of_mem-cons, mem-cons_of_mem, Mem-prop, perm_middle,
  perm_ext_iff_of_Nodup, not-mem-nil,
}
use mathlib.Core.List.Perm
use mathlib.Core.Logic.Or
use kubefrog_kvmserver.Prelude.{
  ℕ, String, ◌≡◌, ◌↔◌, refl, sym, ap, ◌∙◌, inl, inr, Bool, true, false, List, [], ◌∷◌, ◌++◌, any,
  all, ◌==◌, string_eq, nat_eq, arith, Bool-cases, eq_iff, nat_beq_iff,
}
use kubefrog_kvmserver.Prelude.Members.{Within, all_of_count, count_by-Perm}
use kubefrog_kvmserver.Python.Loads.Plain.{both_true}
use kubefrog_kvmserver.Python.Errors.{ok}
use kubefrog_kvmserver.Python.Json.{Json, str, is_text}
use kubefrog_kvmserver.Controller.Settings.{Settings}
use kubefrog_kvmserver.Controller.Sync.{
  Line, reply, status, desired_resources, parent_name, parent_label,
}
use kubefrog_kvmserver.Controller.Inventory.{child, group_of, count_group, groups, HasSizes}
use kubefrog_kvmserver.Controller.Outcome.{sync-Answers}
use kubefrog_kvmserver.Family.{File, new, variant, sync}
use kubefrog_kvmserver.Family.Status.{sync-variant, same_sizes, sync-reports_ready}
use kubefrog_kvmserver.Family.Manifests.{desired_resources-distinct}
use kubefrog_kvmserver.Family.Cluster.Objects.{
  same_text, mem-not-IsFree, distinct-Nodup, is_watched, desired_resources-is_watched,
  asked_by-Within, all-Mem,
}
use kubefrog_kvmserver.Family.Cluster.{
  Cluster, SyncReplies, Step, answer, appear, vanish, relabel, Reach, start, later,
}

-- Equal counts for the groups of a list are equal at each of them.
same_at :
    (x y : String → ℕ) (t : String) (gs : List String)
    → all (λ g. x g == y g) gs ≡ true
    → any (λ g. t == g) gs ≡ true
    → x t ≡ y t
same_at x y t [] h found = cc
same_at x y t (g ∷ gs) h found = elim (Bool-cases (t == g)) [
  | inl e ↦
      let (here, rest) = both_true (x g == y g) (all (λ k. x k == y k) gs) h in
      rw ((eq_iff t g).0 e) ((nat_beq_iff (x g) (y g)).0 here)
  | inr e ↦
      let (here, rest) = both_true (x g == y g) (all (λ k. x k == y k) gs) h in
      same_at x y t gs rest (rw e at found)
]

all_equal :
    (x y : String → ℕ) (gs : List String)
    → ((g : String) → x g ≡ y g)
    → all (λ g. x g == y g) gs ≡ true
all_equal x y [] h = refl
all_equal x y (g ∷ gs) h = rw ((nat_beq_iff (x g) (y g)).1 (h g)) (all_equal x y gs h)

-- The status tells the readiness.
status-true :
    (f : File) (ready : Bool) (rs : List Json)
    → reply (variant f) (status ready) rs ≡ reply (variant f) (status true) rs
    → ready ≡ true
status-true f true rs e = refl
status-true f false rs e =
    ap (λ r. is_text (child (child r "status") "kubeflow-pipelines-ready") "True") e

module _ (f : File) (s : Settings) (namespace : Json) where
  abbrev desired : List Json
  desired = desired_resources (variant f) s namespace

  -- The name is kept, only desired objects are asked for and attached, and no object is attached twice.
  pub record Inv (c : Cluster) : Type 0 where
    pub named : parent_name c.parent ≡ ok namespace
    pub asked_desired : Within c.asked desired
    pub attached_desired : Within c.attached desired
    pub attached_once : Nodup c.attached

  Step-Inv : {c d : Cluster} → Step f (SyncReplies f s) namespace c d → Inv c → Inv d
  Step-Inv (answer c r (report, log, h)) v =
      let (read, hn, answers) =
        sync-Answers (variant f) s c.parent report r log (rw (← sync-variant f) h) in
      let same : read ≡ namespace = cc (hn, v.named) in
      record {
        named = v.named;
        asked_desired = asked_by-Within f s namespace r (rw same at answers);
        attached_desired = v.attached_desired;
        attached_once = v.attached_once;
      }
  Step-Inv (appear c o m free) v = record {
    named = v.named;
    asked_desired = v.asked_desired;
    attached_desired = λ a here.
        Or.elim Mem-prop (eq-or-mem_of_mem-cons here) (λ e. rw e (v.asked_desired o m))
          (λ there. v.attached_desired a there);
    attached_once = Nodup-cons.1 (λ here. mem-not-IsFree o c.attached here free, v.attached_once);
  }
  Step-Inv (vanish c front back o e) v =
      let moved : Perm c.attached (o ∷ (front ++ back)) = rw e (perm_middle front back) in
      record {
        named = v.named;
        asked_desired = v.asked_desired;
        attached_desired =
            λ a here. v.attached_desired a ((Perm.mem_iff moved).1 (mem-cons_of_mem o here));
        attached_once = (Nodup-cons.0 (Perm.nodup moved v.attached_once)).1;
      }
  Step-Inv (relabel c parent h) v = record {
    named = h;
    asked_desired = v.asked_desired;
    attached_desired = v.attached_desired;
    attached_once = v.attached_once;
  }

  pub Reach-Inv : {c : Cluster} → Reach f (SyncReplies f s) namespace c → Inv c
  Reach-Inv (start parent h) = record {
    named = h;
    asked_desired = λ a m. absurd (not-mem-nil m);
    attached_desired = λ a m. absurd (not-mem-nil m);
    attached_once = Nodup-nil;
  }
  Reach-Inv (later r st) = Step-Inv st (Reach-Inv r)

  -- As many objects of each watched group as desired, within the desired ones, are all of them.
  complete_of_sizes :
      (attached : List Json)
      → Nodup attached
      → Within attached desired
      → same_sizes (λ g. count_group g attached) desired ≡ true
      → Perm attached desired
  complete_of_sizes attached once within h =
      (perm_ext_iff_of_Nodup once
          (distinct-Nodup desired (desired_resources-distinct f s namespace))).1
        λ o. (
          within o,
          λ m.
              let watched =
                all-Mem is_watched desired o (desired_resources-is_watched f s namespace) m in
              let sizes =
                same_at (λ g. count_group g attached) (λ g. count_group g desired) (group_of o)
                  groups h watched in
              all_of_count (λ r. group_of r == group_of o) attached desired once within
                (omega (arith, sizes)) o m (same_text (group_of o)),
        )

  sizes_of_complete :
      (attached : List Json)
      → Perm attached desired
      → same_sizes (λ g. count_group g attached) desired ≡ true
  sizes_of_complete attached h =
      all_equal (λ g. count_group g attached) (λ g. count_group g desired) groups
        (λ g. count_by-Perm (λ r. group_of r == g) h)

  -- In a cluster where objects appear only if the last reply asked for them and their group and name
  -- are free, while any may vanish, the labels may change and calls may get any reports, a call for the
  -- enabled namespace that gets a current report, with the number of attached objects of each watched
  -- group, replies "True" and the desired resources exactly if the attached objects are the desired
  -- resources, each of them once.
  pub Reach-ready_iff :
      {c : Cluster} (report : Json) (log : List Line)
      → HasSizes report (λ g. count_group g c.attached)
      → Reach f (SyncReplies f s) namespace c
      → parent_label c.parent ≡ ok (str "true")
      → ((sync f s c.parent report log).0 ≡ ok (reply (variant f) (status true) desired))
        ↔ Perm c.attached desired
  Reach-ready_iff {c} report log reports r labelled =
      let v = Reach-Inv r in
      let answered =
        ap (λ p. p.0)
          (sync-reports_ready f s c.parent report namespace log (λ g. count_group g c.attached)
            v.named labelled reports) in
      (
        λ h.
            complete_of_sizes c.attached v.attached_once v.attached_desired
              (status-true f _ desired (cc (answered, h))),
        λ h.
            answered
            ∙ ap (λ ready. ok (reply (variant f) (status ready) desired))
                (sizes_of_complete c.attached h),
      )

nothing_inside : (front back : List Json) (o : Json) → [] ≡ front ++ o ∷ back → ⊥
nothing_inside [] back o e = cc
nothing_inside (q ∷ front) back o e = cc

-- In a cluster where objects appear only if the last reply has them under the key that the request has
-- for the observed ones, and calls may get any reports, a namespace under sync_new.py never has an
-- attachment, and no reply asks for one.
pub Reach-new :
    (s : Settings) (namespace : Json) {c : Cluster}
    → Reach new (SyncReplies new s) namespace c
    → (c.asked ≡ []) × (c.attached ≡ [])
Reach-new s namespace (start parent h) = (refl, refl)
Reach-new s namespace (later r (answer c reply (report, log, h))) =
    let (_, none_attached) = Reach-new s namespace r in
    let (read, _, answers) =
      sync-Answers (variant new) s c.parent report reply log (rw (← sync-variant new) h) in
    (elim answers [ inl e ↦ rw e | inr (ready, e) ↦ rw e ], none_attached)
Reach-new s namespace (later r (appear c o m free)) =
    let (none_asked, _) = Reach-new s namespace r in absurd (not-mem-nil (rw none_asked at m))
Reach-new s namespace (later r (vanish c front back o e)) =
    let (_, none_attached) = Reach-new s namespace r in
    absurd (nothing_inside front back o (sym none_attached ∙ e))
Reach-new s namespace (later r (relabel c parent h)) = Reach-new s namespace r
