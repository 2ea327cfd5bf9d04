-- ===== src/Prelude/Members.antt =====
-- Members of lists without repetitions, counted by a test.
use Prim.Native.Nat.{ℕ, ◌+◌, ◌≤◌}
use native.Mathlib.Nat.{ℕ_set}
use native.Mathlib.Omega.{arith}
use mathlib.Core.Path.{◌≡◌, refl, ap, ◌∙◌}
use mathlib.Core.Logic.{∥∥₁_elim}
use mathlib.Core.Logic.Or
use mathlib.Core.Bool.{Bool, true, false}
use mathlib.Core.List.{
  List, [], ◌∷◌, Mem, Perm, Permᴰ, Nodup, Nodup-cons, Mem-prop, mem-cons_self, mem-cons_of_mem,
  eq-or-mem_of_mem-cons, not-mem-nil, exists_perm_cons_of_mem,
}
use mathlib.Core.List.Perm
use kubefrog_kvmserver.Prelude.Lists.{count_by}
use native.Mathlib.Bridge.{le_prop}

abbrev one_if : Bool → ℕ
one_if true = 1
one_if false = 0

module _ {ℓ} {A : Type ℓ} where
  abbrev pub Within : List A → List A → Type ℓ
  Within xs ys = (a : A) → Mem a xs → Mem a ys

  count_by-cons :
      (p : A → Bool) (x : A) (xs : List A) → count_by p (x ∷ xs) ≡ one_if (p x) + count_by p xs
  count_by-cons p x xs = ground arith

  count_by-Permᴰ : (p : A → Bool) {xs ys : List A} → Permᴰ xs ys → count_by p xs ≡ count_by p ys
  count_by-Permᴰ p Permᴰ.nil = refl
  count_by-Permᴰ p (Permᴰ.cons {a} {b} {l₁} {l₂} e d) = omega (
    arith,
    count_by-cons p a l₁,
    count_by-cons p b l₂,
    ap (λ c. one_if (p c)) e,
    count_by-Permᴰ p d,
  )
  count_by-Permᴰ p (Permᴰ.swap {a} {b} {a'} {b'} {l} e e') = omega (
    arith,
    count_by-cons p a (b ∷ l),
    count_by-cons p b l,
    count_by-cons p a' (b' ∷ l),
    count_by-cons p b' l,
    ap (λ c. one_if (p c)) e,
    ap (λ c. one_if (p c)) e',
  )
  count_by-Permᴰ p (Permᴰ.trans d d') = count_by-Permᴰ p d ∙ count_by-Permᴰ p d'

  pub count_by-Perm : (p : A → Bool) {xs ys : List A} → Perm xs ys → count_by p xs ≡ count_by p ys
  count_by-Perm p h = ∥∥₁_elim h (ℕ_set _ _) (count_by-Permᴰ p)

  counted : (p : A → Bool) {o : A} (ys : List A) → Mem o ys → p o ≡ true → 1 ≤ count_by p ys
  counted p [] m h = absurd (not-mem-nil m)
  counted p {o} (y ∷ ys) m h =
      Or.elim le_prop (eq-or-mem_of_mem-cons m)
        (λ e. let here : p y ≡ true = (rw e at h) in rw (count_by-cons p y ys, here) (omega arith))
        (λ later. omega (arith, count_by-cons p y ys, counted p ys later h))

  -- A list without repetitions that lies within another one, and has as many members with a property,
  -- has all of the other's.
  pub all_of_count :
      (p : A → Bool) (xs ys : List A)
      → Nodup xs
      → Within xs ys
      → count_by p ys ≤ count_by p xs
      → (o : A) → Mem o ys
      → p o ≡ true
      → Mem o xs
  all_of_count p [] ys distinct within enough o m h = absurd (omega (arith, counted p ys m h))
  all_of_count p (x ∷ xs) ys distinct within enough o m h =
      let (fresh, rest_distinct) = Nodup-cons.0 distinct in
      ∥∥₁_elim (exists_perm_cons_of_mem (within x mem-cons_self)) Mem-prop λ (ys', same).
        let members : Within ys (x ∷ ys') = λ a. (Perm.mem_iff ∣ same ∣₁).0 in
        let rest_within : Within xs ys' = λ a later.
          Or.elim Mem-prop (eq-or-mem_of_mem-cons (members a (within a (mem-cons_of_mem x later))))
            (λ e. absurd (fresh (rw e at later))) (λ there. there) in
        let fewer : count_by p ys' ≤ count_by p xs =
          omega (arith, count_by-Permᴰ p same, count_by-cons p x ys', count_by-cons p x xs) in
        Or.elim Mem-prop (eq-or-mem_of_mem-cons (members o m)) (λ e. rw e mem-cons_self)
          (λ there.
            mem-cons_of_mem x (all_of_count p xs ys' rest_distinct rest_within fewer o there h))
