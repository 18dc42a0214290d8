-- ===== src/Memory/Collect/Heap.antt =====
-- The marks on the list of the objects.
use yarg_lang.Prelude.{
  ℕ, ◌+◌, ◌≤◌, ◌≡◌, refl, ap, ap₂, ◌↔◌, ◌⊎◌, inl, inr, Bool, true, false, List, [], ◌∷◌, arith,
  ◌==◌, if◌then◌else◌, length, if_cases,
}
use mathlib.Core.List.{Memᴰ}
use mathlib.Core.List.Memᴰ
use yarg_lang.Memory.Objects.{references}
use yarg_lang.Memory.Collect.{Obj, in_heap, marked_at, set_mark, refs_at, sweep}

-- The objects with their marks cleared.
abbrev pub erase : List Obj → List Obj
erase [] = []
erase (o ∷ os) = record o { is_marked = false } ∷ erase os

-- The objects that are not marked.
abbrev pub white : List Obj → ℕ
white [] = 0
white (o ∷ os) = (if o.is_marked then 0 else 1) + white os

pub white-length : (os : List Obj) → white os ≤ length os
white-length [] = omega arith
white-length (o ∷ os) = ground (arith, white-length os)

pub in_heap-erase : (os : List Obj) (p : ℕ) → in_heap (erase os) p ≡ in_heap os p
in_heap-erase [] p = refl
in_heap-erase (o ∷ os) p = ap (λ b. if o.address == p then true else b) (in_heap-erase os p)

pub refs_at-erase :
    (word : ℕ) (os : List Obj) (p : ℕ) → refs_at word (erase os) p ≡ refs_at word os p
refs_at-erase word [] p = refl
refs_at-erase word (o ∷ os) p =
    ap (λ b. if o.address == p then references word o.body else b) (refs_at-erase word os p)

pub marked_at-erase : (os : List Obj) (p : ℕ) → marked_at (erase os) p ≡ false
marked_at-erase [] p = refl
marked_at-erase (o ∷ os) p = ground (arith, marked_at-erase os p)

erase-marked :
    (b : Bool) (o : Obj)
    → record (if b then record o { is_marked = true } else o) { is_marked = false }
      ≡ record o { is_marked = false }
erase-marked true o = refl
erase-marked false o = refl

pub erase-set_mark : (p : ℕ) (os : List Obj) → erase (set_mark p os) ≡ erase os
erase-set_mark p [] = refl
erase-set_mark p (o ∷ os) = ap₂ ◌∷◌ (erase-marked (o.address == p) o) (erase-set_mark p os)

pub marked_at-in_heap : (os : List Obj) (p : ℕ) → marked_at os p ≡ true → in_heap os p ≡ true
marked_at-in_heap [] p h = h
marked_at-in_heap (o ∷ os) p h = ground (arith, marked_at-in_heap os p)

pub marked_at-set_mark :
    (p q : ℕ) (os : List Obj)
    → (marked_at (set_mark p os) q ≡ true)
      ↔ ((marked_at os q ≡ true) ⊎ (q ≡ p) × (in_heap os q ≡ true))
marked_at-set_mark p q [] = ground arith
marked_at-set_mark p q (o ∷ os) = ground (arith, marked_at-set_mark p q os)

white-set_mark_le : (p : ℕ) (os : List Obj) → white (set_mark p os) ≤ white os
white-set_mark_le p [] = omega arith
white-set_mark_le p (o ∷ os) = ground (arith, white-set_mark_le p os)

pub white-set_mark :
    (p : ℕ) (os : List Obj)
    → in_heap os p ≡ true
    → marked_at os p ≡ false
    → white (set_mark p os) + 1 ≤ white os
white-set_mark p [] h m = cc
white-set_mark p (o ∷ os) h m = ground (arith, white-set_mark p os, white-set_mark_le p os)

pub in_heap-sweep : (os : List Obj) (p : ℕ) → in_heap (sweep os) p ≡ marked_at os p
unfolding sweep
in_heap-sweep [] p = refl
in_heap-sweep (o ∷ os) p = ground (arith, in_heap-sweep os p)

pub marked_at-sweep : (os : List Obj) (p : ℕ) → marked_at (sweep os) p ≡ false
unfolding sweep
marked_at-sweep [] p = refl
marked_at-sweep (o ∷ os) p = ground (arith, marked_at-sweep os p)

pub erase-sweep : (os : List Obj) → erase (sweep os) ≡ sweep os
unfolding sweep
erase-sweep [] = refl
erase-sweep (o ∷ os) =
    if_cases (λ s. erase s ≡ s) o.is_marked
      (λ _. ap (λ s. record o { is_marked = false } ∷ s) (erase-sweep os)) (λ _. erase-sweep os)

-- What is kept was there.
pub mem-sweep : (os : List Obj) (o : Obj) → Memᴰ o (sweep os) → Memᴰ o (erase os)
unfolding sweep
mem-sweep [] o m = m
mem-sweep (x ∷ os) o m =
    if_cases (λ s. Memᴰ o s → Memᴰ o (erase (x ∷ os))) x.is_marked
      (λ _ m. elim (Memᴰ.cases_cons m) [
        | inl e ↦ Memᴰ.head e
        | inr t ↦ Memᴰ.tail (mem-sweep os o t)
      ])
      (λ _ m. Memᴰ.tail (mem-sweep os o m)) m
