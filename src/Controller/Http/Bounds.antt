-- ===== src/Controller/Http/Bounds.antt =====
-- How much of a connection a request takes.
use kubefrog_kvmserver.Prelude.{
  ℕ, zero, suc, ◌≡◌, ◌≤◌, ◌⊎◌, inl, inr, refl, ap, List, [], ◌∷◌, ◌++◌, length, take, arith,
}
use kubefrog_kvmserver.Python.Errors.{ok}
use kubefrog_kvmserver.Python.Numeral.{pos}
use kubefrog_kvmserver.Controller.Http.{Request, int_header, read_body}

-- The bytes that a reading of at most `n` bytes left.
abbrev pub Leaves : ℕ → List ℕ → List ℕ → Type 0
Leaves n body bytes =
    (rest : List ℕ) × (body ≡ bytes ++ rest)
    × (length bytes ≤ n)
    × ((rest ≡ []) ⊎ (length bytes ≡ n))

take-Leaves : (n : ℕ) (body : List ℕ) → Leaves n body (take n body)
take-Leaves zero body = (body, refl, omega arith, inr refl)
take-Leaves (suc n) [] = ([], refl, omega arith, inl refl)
take-Leaves (suc n) (b ∷ body) =
    let (rest, e, small, ends) = take-Leaves n body in
    (
      rest,
      ap (λ l. b ∷ l) e,
      omega arith,
      elim ends [ inl none_left ↦ inl none_left | inr full ↦ inr (ap suc full) ],
    )

-- With a length that is not negative, a request takes a first part of the bytes on the connection, of
-- at most this length, and less only if there are no more.
pub read_body-Leaves :
    (r : Request) (n : ℕ) (bytes : List ℕ)
    → int_header r.content_length ≡ ok (pos n)
    → read_body r ≡ ok bytes
    → Leaves n r.body bytes
read_body-Leaves r n bytes hn h =
    let e : take n r.body ≡ bytes = cc (rw hn at h) in rw (← e) (take-Leaves n r.body)
