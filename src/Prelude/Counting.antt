-- ===== src/Prelude/Counting.antt =====
-- Counting the elements of a list by weights, and finding one that counts.
use Prim.Native.Nat.{ℕ, zero, suc, ◌+◌, ◌≤◌, ◌<◌}
use mathlib.Core.Path.{◌≡◌, refl, sym, ap, subst}
use mathlib.Core.Logic.{inl, inr}
use mathlib.Core.List.{List, [], ◌∷◌, ◌++◌}
use mathlib.Core.Option.{some}
use native.Mathlib.Omega.{arith}
use libposix.Prelude.Tests.{ltb, Bool-cases}
use libposix.Prelude.Lists.{get_elem?, set}

module _ {ℓ} {A : Type ℓ} where
  abbrev pub total : (A → ℕ) → List A → ℕ
  total weight [] = 0
  total weight (x ∷ xs) = weight x + total weight xs

  pub total-append :
      (weight : A → ℕ) (xs ys : List A)
      → total weight (xs ++ ys) ≡ total weight xs + total weight ys
  total-append weight [] ys = omega arith
  total-append weight (x ∷ xs) ys = omega (arith, total-append weight xs ys)

  pub total-split :
      (xs ys : List A) (a : A) (weight : A → ℕ)
      → total weight (xs ++ a ∷ ys) ≡ weight a + (total weight xs + total weight ys)
  total-split xs ys a weight = omega (arith, total-append weight xs (a ∷ ys))

  -- One element beside others, of which `n` is the total for each weight.
  abbrev pub beside : A → ((A → ℕ) → ℕ) → (A → ℕ) → ℕ
  beside a n weight = weight a + n weight

  -- Where one element turns into another, what holds of the totals is shown of the element beside any
  -- others.
  pub split-keeps {κ ρ} :
      {S : Type κ} (Good : S → ((A → ℕ) → ℕ) → Type ρ) (s s' : S) (xs ys : List A) (a a' : A)
      → ((n : (A → ℕ) → ℕ) → Good s (beside a n) → Good s' (beside a' n))
      → Good s (λ weight. total weight (xs ++ a ∷ ys))
      → Good s' (λ weight. total weight (xs ++ a' ∷ ys))
  split-keeps Good s s' xs ys a a' one g =
      let others : (A → ℕ) → ℕ = λ weight. total weight xs + total weight ys in
      subst (Good s') (λ i weight. sym (total-split xs ys a' weight) i)
        (one others (subst (Good s) (λ i weight. total-split xs ys a weight i) g))

  abbrev pub replicate : ℕ → A → List A
  replicate zero a = []
  replicate (suc n) a = a ∷ replicate n a

  pub total-replicate_zero :
      (n : ℕ) (a : A) (weight : A → ℕ) → weight a ≡ 0 → total weight (replicate n a) ≡ 0
  total-replicate_zero zero a weight e = refl
  total-replicate_zero (suc n) a weight e = omega (arith, e, total-replicate_zero n a weight e)

  pub total-replicate_one :
      (n : ℕ) (a : A) (weight : A → ℕ) → weight a ≡ 1 → total weight (replicate n a) ≡ n
  total-replicate_one zero a weight e = refl
  total-replicate_one (suc n) a weight e = omega (arith, e, total-replicate_one n a weight e)

  -- One element of a list replaced.
  pub total-set :
      (xs : List A) (i : ℕ) (a a' : A) (weight : A → ℕ)
      → get_elem? xs i ≡ some a
      → total weight (set xs i a') + weight a ≡ total weight xs + weight a'
  total-set [] i a a' weight e = cc
  total-set (x ∷ xs) zero a a' weight e = ground (arith, e)
  total-set (x ∷ xs) (suc i) a a' weight e = omega (arith, total-set xs i a a' weight e)

  -- The weight of the element at a place, and 0 beyond the end.
  abbrev pub weight_at : (A → ℕ) → List A → ℕ → ℕ
  weight_at weight [] i = 0
  weight_at weight (x ∷ xs) zero = weight x
  weight_at weight (x ∷ xs) (suc i) = weight_at weight xs i

  pub weight_at-get_elem? :
      (xs : List A) (i : ℕ) (a : A) (weight : A → ℕ)
      → get_elem? xs i ≡ some a
      → weight_at weight xs i ≡ weight a
  weight_at-get_elem? [] i a weight e = cc
  weight_at-get_elem? (x ∷ xs) zero a weight e = ground (arith, e)
  weight_at-get_elem? (x ∷ xs) (suc i) a weight e = weight_at-get_elem? xs i a weight e

  pub weight_at-set_self :
      (xs : List A) (i : ℕ) (a a' : A) (weight : A → ℕ)
      → get_elem? xs i ≡ some a
      → weight_at weight (set xs i a') i ≡ weight a'
  weight_at-set_self [] i a a' weight e = cc
  weight_at-set_self (x ∷ xs) zero a a' weight e = refl
  weight_at-set_self (x ∷ xs) (suc i) a a' weight e = weight_at-set_self xs i a a' weight e

  -- Where an element is replaced by one that weighs as much or more, no place weighs less.
  pub weight_at-le-set :
      (xs : List A) (i j : ℕ) (a a' : A) (weight : A → ℕ)
      → get_elem? xs i ≡ some a
      → weight a ≤ weight a'
      → weight_at weight xs j ≤ weight_at weight (set xs i a') j
  weight_at-le-set [] i j a a' weight e h = omega arith
  weight_at-le-set (x ∷ xs) zero zero a a' weight e h = ground (arith, e, h)
  weight_at-le-set (x ∷ xs) zero (suc j) a a' weight e h = omega arith
  weight_at-le-set (x ∷ xs) (suc i) zero a a' weight e h = omega arith
  weight_at-le-set (x ∷ xs) (suc i) (suc j) a a' weight e h =
      weight_at-le-set xs i j a a' weight e h

  -- An element that a weight counts.
  pub record Found (weight : A → ℕ) (xs : List A) : Type ℓ where
    pub before : List A
    pub item : A
    pub after : List A
    pub here : xs ≡ before ++ item ∷ after
    pub counts : 0 < weight item

  pub find : (weight : A → ℕ) (xs : List A) → 0 < total weight xs → Found weight xs
  find weight [] h = absurd (omega (arith, h))
  find weight (x ∷ xs) h = elim (Bool-cases (ltb 0 (weight x))) [
    | inl yes_ ↦ record {
      before = [];
      item = x;
      after = xs;
      here = refl;
      counts = ground (arith, yes_);
    }
    | inr no_ ↦
        let f = find weight xs (ground (arith, h, no_)) in
        record {
          before = x ∷ f.before;
          item = f.item;
          after = f.after;
          here = ap (λ ys. x ∷ ys) f.here;
          counts = f.counts;
        }
  ]
