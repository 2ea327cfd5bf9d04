-- ===== src/SyncSeaweed/Isolation.antt =====
-- The policy that a namespace gets reaches no private object of another namespace.
use kubefrog_kvmserver.Prelude.{
  ℕ, zero, suc, String, ◌<>◌, ◌≡◌, ◌≢◌, refl, sym, ap, ap₂, ◌∙◌, ◌⊎◌, inl, inr, Bool, true, false,
  not, List, [], ◌∷◌, ◌++◌, arith, all, All, ◌==◌, nat_eq,
}
use mathlib.Core.Path.{subst}
use mathlib.Core.List.{append_assoc, append_cancel_left}
use text.Mathlib.TextEquality.{Char-path}
use kubefrog_kvmserver.Python.Numeral.{codes, codes-append}
use kubefrog_kvmserver.SyncSeaweed.Sync.{s3_bucket_name, policy_resources}

-- A pattern of an IAM policy matches a resource name: `*` stands for any text, every other
-- character for itself.
pub data Matches : List ℕ → List ℕ → Type 0 where
  done : Matches [] []
  same : {c : ℕ} {p k : List ℕ} → (c == b'*') ≡ false → Matches p k → Matches (c ∷ p) (c ∷ k)
  skip : {c : ℕ} {p k : List ℕ} → (c == b'*') ≡ true → Matches p k → Matches (c ∷ p) k
  take : {c d : ℕ} {p k : List ℕ} → (c == b'*') ≡ true → Matches (c ∷ p) k → Matches (c ∷ p) (d ∷ k)

abbrev pub lacks : ℕ → List ℕ → Bool
lacks c = all (λ d. not (d == c))

Matches-literal :
    {c : ℕ} {p k : List ℕ}
    → Matches (c ∷ p) k
    → (c == b'*') ≡ false
    → (k' : List ℕ) × (k ≡ c ∷ k') × Matches p k'
Matches-literal (same {k} e m) h = (k, refl, m)
Matches-literal (skip e m) h = cc
Matches-literal (take e m) h = cc

-- Up to its first `*`, a pattern is a prefix of what it matches.
literal_prefix :
    (p q k : List ℕ) → lacks b'*' p ≡ true → Matches (p ++ q) k → (rest : List ℕ) × (k ≡ p ++ rest)
literal_prefix [] q k h m = (k, refl)
literal_prefix (c ∷ p) q k h m =
    let (k', e, m') = Matches-literal m (ground arith) in
    let (rest, e') = literal_prefix p q k' (ground arith) m' in (rest, e ∙ ap (λ t. c ∷ t) e')

-- A pattern that ends in `*` matches whatever its literal part is a prefix of.
Matches-prefix : (p rest : List ℕ) → lacks b'*' p ≡ true → Matches (p ++ b'*' ∷ []) (p ++ rest)
Matches-prefix [] [] h = skip refl done
Matches-prefix [] (d ∷ rest) h = take refl (Matches-prefix [] rest h)
Matches-prefix (c ∷ p) rest h = same (ground arith) (Matches-prefix p rest (ground arith))

codes_inj : (s t : String) → codes s ≡ codes t → s ≡ t
codes_inj String.[] String.[] e = refl
codes_inj String.[] (String.◌∷◌ d t) e = cc
codes_inj (String.◌∷◌ c s) String.[] e = cc
codes_inj (String.◌∷◌ c s) (String.◌∷◌ d t) e =
    ap₂ String.◌∷◌ (Char-path c d (cc)) (codes_inj s t (cc))

-- Two names without a slash, each in front of one, are the same.
segment_eq :
    (a b r r' : List ℕ)
    → lacks b'/' a ≡ true
    → lacks b'/' b ≡ true
    → a ++ b'/' ∷ r ≡ b ++ b'/' ∷ r'
    → a ≡ b
segment_eq [] [] r r' ha hb e = refl
segment_eq [] (d ∷ b) r r' ha hb e = ground arith
segment_eq (c ∷ a) [] r r' ha hb e = ground arith
segment_eq (c ∷ a) (d ∷ b) r r' ha hb e = ground (arith, segment_eq a b r r')

-- One of the patterns matches.
abbrev pub AnyOf : List String → List ℕ → Type 0
AnyOf [] k = ⊥
AnyOf (p ∷ ps) k = Matches (codes p) k ⊎ AnyOf ps k

abbrev bucket_codes : List ℕ
bucket_codes = codes "arn:aws:s3:::mlpipeline"

-- The resource name of an object of the bucket, in a folder, under a namespace.
abbrev pub object_of : String → String → List ℕ → List ℕ
object_of folder ns rest =
    codes "arn:aws:s3:::mlpipeline" ++ (codes folder ++ (codes ns ++ b'/' ∷ rest))

abbrev pattern_of : String → String → String
pattern_of folder ns = "arn:aws:s3:::" <> s3_bucket_name <> folder <> ns <> "/*"

pattern_codes :
    (folder ns : String)
    → codes (pattern_of folder ns)
      ≡ (bucket_codes ++ (codes folder ++ (codes ns ++ b'/' ∷ []))) ++ b'*' ∷ []
pattern_codes folder ns = simp (codes-append, append_assoc)

lacks-append :
    (c : ℕ) (p q : List ℕ) → lacks c p ≡ true → lacks c q ≡ true → lacks c (p ++ q) ≡ true
lacks-append c [] q hp hq = hq
lacks-append c (d ∷ p) q hp hq = ground (arith, lacks-append c p q)

folder_lacks :
    (folder ns : String)
    → lacks b'*' (codes folder) ≡ true
    → lacks b'*' (codes ns) ≡ true
    → lacks b'*' (bucket_codes ++ (codes folder ++ (codes ns ++ b'/' ∷ []))) ≡ true
folder_lacks folder ns hf hn =
    lacks-append b'*' (codes folder) _ hf (lacks-append b'*' (codes ns) _ hn refl)

object_of-append :
    (folder ns : String) (rest : List ℕ)
    → (bucket_codes ++ (codes folder ++ (codes ns ++ b'/' ∷ []))) ++ rest ≡ object_of folder ns rest
object_of-append folder ns rest = simp append_assoc

-- What a pattern for one namespace matches lies in its own folder, under its own name.
matched_object :
    (folder ns : String) (k : List ℕ)
    → lacks b'*' (codes folder) ≡ true
    → lacks b'*' (codes ns) ≡ true
    → Matches (codes (pattern_of folder ns)) k
    → (rest : List ℕ) × (k ≡ object_of folder ns rest)
matched_object folder ns k hf hn m =
    let (rest, e) =
      literal_prefix (bucket_codes ++ (codes folder ++ (codes ns ++ b'/' ∷ []))) (b'*' ∷ []) k
        (folder_lacks folder ns hf hn) (rw (pattern_codes folder ns) at m) in
    (rest, e ∙ object_of-append folder ns rest)

closed_prefix :
    (p : String) (k : List ℕ)
    → lacks b'*' (codes p) ≡ true
    → Matches (codes p ++ b'*' ∷ []) k
    → (rest : List ℕ) × (k ≡ codes p ++ rest)
closed_prefix p k h m = literal_prefix (codes p) (b'*' ∷ []) k h m

-- The character at a position is this one.
abbrev has_at : ℕ → ℕ → List ℕ → Bool
has_at n c [] = false
has_at zero c (x ∷ k) = x == c
has_at (suc n) c (x ∷ k) = has_at n c k

-- Two names with different characters at a position are not the same.
apart_at : (n c : ℕ) (k k' : List ℕ) → has_at n c k ≡ true → has_at n c k' ≡ false → k ≢ k'
apart_at n c k k' h h' e = cc

module _ (a b : String) (rest : List ℕ) where
  -- A pattern of another namespace for the same folder.
  same_folder :
      (folder : String)
      → lacks b'*' (codes folder) ≡ true
      → lacks b'*' (codes a) ≡ true
      → lacks b'/' (codes a) ≡ true
      → lacks b'/' (codes b) ≡ true
      → a ≢ b
      → ¬ Matches (codes (pattern_of folder a)) (object_of folder b rest)
  same_folder folder hf star slash_a slash_b other m =
      let (r, e) = matched_object folder a _ hf star m in
      other (
        codes_inj a b (
          segment_eq (codes a) (codes b) r rest slash_a slash_b
            (sym (append_cancel_left (codes folder) _ _ (append_cancel_left bucket_codes _ _ e)))))

  -- For two different namespaces whose names have no slash, and the first no asterisk, as in
  -- Kubernetes, no pattern in the policy of the first matches an object of the second in the
  -- folders "private-artifacts" and "private".
  pub policy_resources_isolated :
      lacks b'*' (codes a) ≡ true
      → lacks b'/' (codes a) ≡ true
      → lacks b'/' (codes b) ≡ true
      → a ≢ b
      → All
          (λ pattern.
            (¬ Matches (codes pattern) (object_of "/private-artifacts/" b rest))
            × (¬ Matches (codes pattern) (object_of "/private/" b rest)))
          (policy_resources a)
  policy_resources_isolated star slash_a slash_b other =
      let artifacts : (k : List ℕ)
          → has_at 24 b'a' k ≡ false
          → ¬ Matches (codes "arn:aws:s3:::mlpipeline/artifacts/*") k =
        λ k h m.
          let (r, e) = closed_prefix "arn:aws:s3:::mlpipeline/artifacts/" k refl m in
          apart_at 24 b'a' _ k refl h (sym e) in
      let shared : (k : List ℕ)
          → has_at 24 b's' k ≡ false
          → ¬ Matches (codes "arn:aws:s3:::mlpipeline/shared/*") k =
        λ k h m.
          let (r, e) = closed_prefix "arn:aws:s3:::mlpipeline/shared/" k refl m in
          apart_at 24 b's' _ k refl h (sym e) in
      let first = object_of "/private-artifacts/" b rest in
      let second = object_of "/private/" b rest in
      (
        (artifacts first refl, artifacts second refl),
        (
          (
            same_folder "/private-artifacts/" refl star slash_a slash_b other,
            λ m.
                let (r, e) = matched_object "/private-artifacts/" a second refl star m in
                apart_at 31 b'/' second _ refl refl e,
          ),
          (
            (
              λ m.
                  let (r, e) = matched_object "/private/" a first refl star m in
                  apart_at 31 b'-' first _ refl refl e,
              same_folder "/private/" refl star slash_a slash_b other,
            ),
            ((shared first refl, shared second refl), tt),
          ),
        ),
      )

matched_folder :
    (folder a : String) (rest : List ℕ)
    → lacks b'*' (codes folder) ≡ true
    → lacks b'*' (codes a) ≡ true
    → Matches (codes (pattern_of folder a)) (object_of folder a rest)
matched_folder folder a rest hf ha =
    subst (λ p. Matches p (object_of folder a rest)) (sym (pattern_codes folder a))
      (subst
        (λ k. Matches ((bucket_codes ++ (codes folder ++ (codes a ++ b'/' ∷ []))) ++ b'*' ∷ []) k)
        (object_of-append folder a rest)
        (Matches-prefix (bucket_codes ++ (codes folder ++ (codes a ++ b'/' ∷ []))) rest
          (folder_lacks folder a hf ha)))

-- The patterns of the policy of a namespace whose name has no asterisk match every object of that
-- namespace in the folders "private-artifacts" and "private", and every object in the folders
-- "artifacts" and "shared".
pub policy_resources_reach :
    (a : String) (rest : List ℕ)
    → lacks b'*' (codes a) ≡ true
    → (AnyOf (policy_resources a) (object_of "/private-artifacts/" a rest))
      × (AnyOf (policy_resources a) (object_of "/private/" a rest))
      × (AnyOf (policy_resources a) (codes "arn:aws:s3:::mlpipeline/artifacts/" ++ rest))
      × (AnyOf (policy_resources a) (codes "arn:aws:s3:::mlpipeline/shared/" ++ rest))
policy_resources_reach a rest h = (
  inr (inl (matched_folder "/private-artifacts/" a rest refl h)),
  inr (inr (inl (matched_folder "/private/" a rest refl h))),
  inl (Matches-prefix (codes "arn:aws:s3:::mlpipeline/artifacts/") rest refl),
  inr (inr (inr (inl (Matches-prefix (codes "arn:aws:s3:::mlpipeline/shared/") rest refl)))),
)
