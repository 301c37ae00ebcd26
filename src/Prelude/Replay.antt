-- ===== src/Prelude/Replay.antt =====
-- Replaying a list of calls on a state, and how one state stands in for another.
use mathlib.Core.Path.{◌≡◌, refl}
use mathlib.Core.List.{List, [], ◌∷◌}

-- The replies to the calls, and the state in the end.
abbrev pub replay {ℓ κ ρ} :
    {C : Type ℓ} {R : Type κ} {S : Type ρ} → (C → S → R × S) → List C → S → List R × S
replay step [] s = ([], s)
replay step (c ∷ cs) s = let r = step c s in let rest = replay step cs r.1 in (r.0 ∷ rest.0, rest.1)

-- Where a relation of two kinds of state is kept by every call, and the call replies the same in both,
-- so is it by any calls, with the same replies.
pub replay-refines {ℓ κ ρ σ τ} :
    {C : Type ℓ} {R : Type κ} {S : Type ρ} {T : Type σ} (f : C → S → R × S) (g : C → T → R × T)
    (Rel : S → T → Type τ)
    → ((c : C) (s : S) (t : T) → Rel s t → ((f c s).0 ≡ (g c t).0) × Rel (f c s).1 (g c t).1)
    → (cs : List C) (s : S) (t : T) → Rel s t
    → ((replay f cs s).0 ≡ (replay g cs t).0) × Rel (replay f cs s).1 (replay g cs t).1
replay-refines f g Rel one [] s t r = (refl, r)
replay-refines f g Rel one (c ∷ cs) s t r =
    let (reply, now) = one c s t r in
    let (replies, last) = replay-refines f g Rel one cs (f c s).1 (g c t).1 now in
    (rw (reply, replies) refl, last)

-- A condition on each call and the state that it finds.
abbrev pub AllAlong {ℓ κ ρ σ} :
    {C : Type ℓ} {R : Type κ} {S : Type ρ}
    → (C → S → Type σ)
    → (C → S → R × S)
    → List C
    → S
    → Type σ
AllAlong Allows step [] s = Unit
AllAlong Allows step (c ∷ cs) s = Allows c s × AllAlong Allows step cs (step c s).1

-- The same where the calls are restricted.
pub replay-refines_allowed {ℓ κ ρ σ τ υ} :
    {C : Type ℓ} {R : Type κ} {S : Type ρ} {T : Type σ} (f : C → S → R × S) (g : C → T → R × T)
    (Rel : S → T → Type τ) (Allows : C → T → Type υ)
    → ((c : C) (s : S) (t : T)
        → Rel s t
        → Allows c t
        → ((f c s).0 ≡ (g c t).0) × Rel (f c s).1 (g c t).1)
    → (cs : List C) (s : S) (t : T) → Rel s t
    → AllAlong Allows g cs t
    → ((replay f cs s).0 ≡ (replay g cs t).0) × Rel (replay f cs s).1 (replay g cs t).1
replay-refines_allowed f g Rel Allows one [] s t r a = (refl, r)
replay-refines_allowed f g Rel Allows one (c ∷ cs) s t r a =
    let (reply, now) = one c s t r a.0 in
    let (replies, last) =
      replay-refines_allowed f g Rel Allows one cs (f c s).1 (g c t).1 now a.1 in
    (rw (reply, replies) refl, last)

-- And every call finds what the relation implies.
pub replay-finds {ℓ κ ρ σ τ υ φ} :
    {C : Type ℓ} {R : Type κ} {S : Type ρ} {T : Type σ} (f : C → S → R × S) (g : C → T → R × T)
    (Rel : S → T → Type τ) (Allows : C → T → Type υ) (Finds : S → Type φ)
    → ((c : C) (s : S) (t : T)
        → Rel s t
        → Allows c t
        → ((f c s).0 ≡ (g c t).0) × Rel (f c s).1 (g c t).1)
    → ((s : S) (t : T) → Rel s t → Finds s)
    → (cs : List C) (s : S) (t : T) → Rel s t
    → AllAlong Allows g cs t
    → AllAlong (λ c. Finds) f cs s
replay-finds f g Rel Allows Finds one use_ [] s t r a = tt
replay-finds f g Rel Allows Finds one use_ (c ∷ cs) s t r a = (
  use_ s t r,
  replay-finds f g Rel Allows Finds one use_ cs (f c s).1 (g c t).1 (one c s t r a.0).1 a.1,
)
