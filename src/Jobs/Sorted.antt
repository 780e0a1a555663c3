-- ===== src/Jobs/Sorted.antt =====
-- src/repositories/mongo/job.repository.ts: what `sort({ createdAt: -1 })` leaves open.
use native.Mathlib.Bridge.{le_prop}
use mathlib.Core.Logic.Or
use mathlib.Core.Path.{subst}
use mathlib.Core.List.{Mem, mem-cons_self, mem-cons_of_mem, eq-or-mem_of_mem-cons, Perm, Permᴰ}
use mathlib.Core.List.Perm
use mathlib.Core.Logic.{∥∥₁_elim}
use native.Mathlib.Nat.{ℕ_set}
use file_processing_system.Prelude.{◌≤◌, ◌≡◌, refl, sym, ap, ◌∙◌, arith, List, [], ◌∷◌, length}
use file_processing_system.Types.{JobDocument}

-- The newest job comes first; jobs of one time stand in any order.
abbrev pub IsDescending : List JobDocument → Type 0
IsDescending [] = Unit
IsDescending (job ∷ jobs) =
    ((other : JobDocument) → Mem other jobs → other.created_at ≤ job.created_at) × IsDescending jobs

-- No two jobs of the list were created at one time.
abbrev pub NeverTies : List JobDocument → Type 0
NeverTies jobs = (a b : JobDocument) → Mem a jobs → Mem b jobs → a.created_at ≡ b.created_at → a ≡ b

length-Permᴰ : {xs ys : List JobDocument} → Permᴰ xs ys → length xs ≡ length ys
length-Permᴰ Permᴰ.nil = refl
length-Permᴰ (Permᴰ.cons e p) = let q = length-Permᴰ p in omega arith
length-Permᴰ (Permᴰ.swap e f) = refl
length-Permᴰ (Permᴰ.trans p q) = length-Permᴰ p ∙ length-Permᴰ q

pub length-Perm : {xs ys : List JobDocument} → Perm xs ys → length xs ≡ length ys
length-Perm p = ∥∥₁_elim p (ℕ_set _ _) length-Permᴰ

first_newest :
    (a b : JobDocument) (xs ys : List JobDocument)
    → Perm (a ∷ xs) (b ∷ ys)
    → IsDescending (b ∷ ys)
    → a.created_at ≤ b.created_at
first_newest a b xs ys p (newest, _) =
    Or.elim le_prop (eq-or-mem_of_mem-cons ((Perm.mem_iff p).0 mem-cons_self))
      (λ e. let f : a.created_at ≡ b.created_at = ap (λ j. j.created_at) e in omega arith)
      (λ m. newest a m)

cc_cons : (x y : JobDocument) (xs ys : List JobDocument) → x ≡ y → xs ≡ ys → x ∷ xs ≡ y ∷ ys
cc_cons x y xs ys e f = cc

-- Where no two jobs have one time, a list has one descending order.
pub descending_unique :
    (xs ys : List JobDocument)
    → Perm xs ys
    → NeverTies xs
    → IsDescending xs
    → IsDescending ys
    → xs ≡ ys
descending_unique [] ys p ties dx dy = Perm.nil-eq p
descending_unique (x ∷ xs) [] p ties dx dy = Perm.eq-nil p
descending_unique (x ∷ xs) (y ∷ ys) p ties dx dy =
    let le = first_newest x y xs ys p dy in
    let ge = first_newest y x ys xs (Perm.symm p) dx in
    let e = ties x y mem-cons_self ((Perm.mem_iff p).1 mem-cons_self) (omega arith) in
    let q : Perm xs ys = Perm.cons_inv (subst (λ z. Perm (x ∷ xs) (z ∷ ys)) (sym e) p) in
    cc_cons x y xs ys e (
      descending_unique xs ys q (λ a b m n. ties a b (mem-cons_of_mem x m) (mem-cons_of_mem x n))
        dx.1 dy.1)
