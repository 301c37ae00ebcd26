-- ===== src/Mqueue/Views.antt =====
-- The list of src/posix_mqueue.c and the memory, seen as a directory.
use libposix.Prelude.{
  ℕ, ◌≡◌, refl, ap, ◌∙◌, Option, none, some, if◌then◌else◌, List, [], ◌∷◌, ◌==◌, false, Bool-cases,
  inl, inr, arith,
}
use libposix.Kernel.{Queues, remove}
use libposix.Mqueue.{same_name}
use libposix.Mqueue.State.{State, Mqd, update, extract_in, find_in}
use libposix.Mqueue.Directory.{Directory, look, named, alter, take_out, put}

module _ (K : Queues) where
  open K use {elems}

  abbrev pub view : (ℕ → Mqd K) → List ℕ → List (ℕ × Mqd K)
  view mem [] = []
  view mem (a ∷ as') = (a, mem a) ∷ view mem as'

  abbrev pub directory : State K → Directory K
  directory s = record { queues = view s.mem (elems s.allq); errno = s.errno; freed = s.freed }

  abbrev pub at : (ℕ → Mqd K) → Option ℕ → Option (Mqd K)
  at mem none = none
  at mem (some a) = some (mem a)

  abbrev pub with_queue : (ℕ → Mqd K) → Option ℕ → Option (ℕ × Mqd K)
  with_queue mem none = none
  with_queue mem (some a) = some (a, mem a)

  pub look-view :
      (mem : ℕ → Mqd K) (a : ℕ) (as' : List ℕ)
      → look K a (view mem as') ≡ at mem (extract_in K a as')
  unfolding look extract_in
  look-view mem a [] = refl
  look-view mem a (b ∷ as') = elim (Bool-cases (b == a)) [
    | inl yes_ ↦ rw yes_ refl
    | inr no_ ↦ rw no_ (look-view mem a as')
  ]

  pub named-view :
      (mem : ℕ → Mqd K) (name as' : List ℕ)
      → named K name (view mem as') ≡ with_queue mem (find_in K mem name as')
  unfolding named find_in
  named-view mem name [] = refl
  named-view mem name (b ∷ as') = elim (Bool-cases (same_name name (mem b).name)) [
    | inl yes_ ↦ rw yes_ refl
    | inr no_ ↦ rw no_ (named-view mem name as')
  ]

  pub view-update :
      (mem : ℕ → Mqd K) (a : ℕ) (m : Mqd K) (as' : List ℕ)
      → view (update K mem a m) as' ≡ alter K a m (view mem as')
  unfolding alter
  view-update mem a m [] = refl
  view-update mem a m (b ∷ as') =
      ap (λ rest. (b, if a == b then m else mem b) ∷ rest) (view-update mem a m as')

  pub view-remove :
      (mem : ℕ → Mqd K) (a : ℕ) (as' : List ℕ)
      → view mem (remove a as') ≡ take_out K a (view mem as')
  unfolding take_out
  view-remove mem a [] = refl
  view-remove mem a (b ∷ as') = elim (Bool-cases (b == a)) [
    | inl yes_ ↦ rw yes_ refl
    | inr no_ ↦ rw no_ (ap (λ rest. (b, mem b) ∷ rest) (view-remove mem a as'))
  ]

  -- What is found is at the address that was looked for.
  pub extract_in-eq : (a b : ℕ) (as' : List ℕ) → extract_in K a as' ≡ some b → b ≡ a
  unfolding extract_in
  extract_in-eq a b [] e = cc
  extract_in-eq a b (c ∷ as') e = elim (Bool-cases (c == a)) [
    | inl yes_ ↦ ground (arith, yes_)
    | inr no_ ↦ extract_in-eq a b as' (ground (arith, no_))
  ]

  -- Memory that no listed queue is in.
  pub alter-fresh :
      (a : ℕ) (m : Mqd K) (qs : List (ℕ × Mqd K)) → look K a qs ≡ none → alter K a m qs ≡ qs
  unfolding look alter
  alter-fresh a m [] e = refl
  alter-fresh a m ((b, n) ∷ rest) e = elim (Bool-cases (b == a)) [
    | inl yes_ ↦ absurd (ground (arith, e, yes_))
    | inr no_ ↦
        let other : (a == b) ≡ false = ground (arith, no_) in
        rw other (ap (λ qs. (b, n) ∷ qs) (alter-fresh a m rest (ground (arith, e, no_))))
  ]

  -- Storing what stands there already.
  pub alter-same :
      (mem : ℕ → Mqd K) (a : ℕ) (as' : List ℕ) → alter K a (mem a) (view mem as') ≡ view mem as'
  unfolding alter
  alter-same mem a [] = refl
  alter-same mem a (b ∷ as') = elim (Bool-cases (a == b)) [
    | inl yes_ ↦
        let same : a ≡ b = ground (arith, yes_) in
        rw yes_ (
          ap (λ c. (b, mem c) ∷ alter K a (mem a) (view mem as')) same
          ∙ ap (λ qs. (b, mem b) ∷ qs) (alter-same mem a as'))
    | inr no_ ↦ rw no_ (ap (λ qs. (b, mem b) ∷ qs) (alter-same mem a as'))
  ]

  -- The directory after an update of the memory.
  pub directory-update :
      (s : State K) (a : ℕ) (m : Mqd K)
      → directory (record s { mem = update K s.mem a m }) ≡ put K a m (directory s)
  directory-update s a m =
      ap (λ qs. record (directory s) { queues = qs }) (view-update s.mem a m (elems s.allq))
