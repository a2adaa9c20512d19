-- ===== src/Prelude/Sort.antt =====
-- A stable sort by a number, the largest first.
use Prim.Native.Nat.{ℕ, zero, suc, ◌≤◌}
use mathlib.Core.Logic.{inl, inr}
use mathlib.Core.List.{List, [], ◌∷◌}
use native.Mathlib.Omega.{arith}
use claude_memmon.Prelude.Tests.{leb, if◌then◌else◌, Bool-cases}
use claude_memmon.Prelude.Lists.{All, take, drop}

module _ {ℓ} {A : Type ℓ} where
  pub take-All {κ} : (P : A → Type κ) (n : ℕ) (xs : List A) → All P xs → All P (take n xs)
  take-All P zero xs all = tt
  take-All P (suc n) [] all = tt
  take-All P (suc n) (x ∷ xs) (p, all) = (p, take-All P n xs all)

  drop-All {κ} : (P : A → Type κ) (n : ℕ) (xs : List A) → All P xs → All P (drop n xs)
  drop-All P zero xs all = all
  drop-All P (suc n) [] all = tt
  drop-All P (suc n) (x ∷ xs) (p, all) = drop-All P n xs all

module _ {ℓ} {A : Type ℓ} (key : A → ℕ) where
  unfoldable pub insert_by : A → List A → List A
  insert_by x [] = x ∷ []
  insert_by x (y ∷ ys) =
      let rest = insert_by x ys in if leb (key y) (key x) then x ∷ y ∷ ys else y ∷ rest

  -- `sorted(xs, key=lambda x: -key(x))`
  unfoldable pub sort_by : List A → List A
  sort_by [] = []
  sort_by (x ∷ xs) = insert_by x (sort_by xs)

  -- Each element is at least as large as those after it.
  abbrev pub Descending : List A → Type 0
  Descending [] = Unit
  Descending (x ∷ xs) = All (λ y. key y ≤ key x) xs × Descending xs

  pub insert_by-All {κ} :
      (P : A → Type κ) (x : A) (xs : List A) → P x → All P xs → All P (insert_by x xs)
  unfolding insert_by
  insert_by-All P x [] p all = (p, tt)
  insert_by-All P x (y ∷ ys) p (q, all) = elim (Bool-cases (leb (key y) (key x))) [
    | inl le ↦ rw le (p, (q, all))
    | inr gt ↦ rw gt (q, insert_by-All P x ys p all)
  ]

  pub sort_by-All {κ} : (P : A → Type κ) (xs : List A) → All P xs → All P (sort_by xs)
  unfolding sort_by
  sort_by-All P [] all = tt
  sort_by-All P (x ∷ xs) (p, all) = insert_by-All P x (sort_by xs) p (sort_by-All P xs all)

  All-le : (a b : ℕ) (xs : List A) → a ≤ b → All (λ y. key y ≤ a) xs → All (λ y. key y ≤ b) xs
  All-le a b [] h all = tt
  All-le a b (x ∷ xs) h (p, all) = (omega (arith, h, p), All-le a b xs h all)

  insert_by-Descending : (x : A) (xs : List A) → Descending xs → Descending (insert_by x xs)
  unfolding insert_by
  insert_by-Descending x [] d = (tt, tt)
  insert_by-Descending x (y ∷ ys) (top, d) = elim (Bool-cases (leb (key y) (key x))) [
    | inl le ↦
        let h : key y ≤ key x = ground arith in
        rw le ((h, All-le (key y) (key x) ys h top), (top, d))
    | inr gt ↦
        let h : key x ≤ key y = ground arith in
        rw gt (insert_by-All _ x ys h top, insert_by-Descending x ys d)
  ]

  pub sort_by-Descending : (xs : List A) → Descending (sort_by xs)
  unfolding sort_by
  sort_by-Descending [] = tt
  sort_by-Descending (x ∷ xs) = insert_by-Descending x (sort_by xs) (sort_by-Descending xs)

  pub take-Descending : (n : ℕ) (xs : List A) → Descending xs → Descending (take n xs)
  take-Descending zero xs d = tt
  take-Descending (suc n) [] d = tt
  take-Descending (suc n) (x ∷ xs) (top, d) = (take-All _ n xs top, take-Descending n xs d)

  -- What a cut of a descending list keeps is at least as large as what it drops.
  pub take-Largest :
      (n : ℕ) (xs : List A)
      → Descending xs
      → All (λ x. All (λ y. key y ≤ key x) (drop n xs)) (take n xs)
  take-Largest zero xs d = tt
  take-Largest (suc n) [] d = tt
  take-Largest (suc n) (x ∷ xs) (top, d) = (drop-All _ n xs top, take-Largest n xs d)
