-- ===== src/Effects/Triples.antt =====
-- The functions of Effects: what holds before a program, and what after it, in the state that it leaves.
use file_processing_system.Effects.{
  Failure, Result, ok, failed, hangs, crashes, Action, pure, throw, continue, ◌>>=◌,
}

-- `Q` of a result and the state, `R` where there is no result.
abbrev pub Post : {W A : Type 0} → (A → W → Type 0) → (W → Type 0) → Result A × W → Type 0
Post Q R (ok a, w) = Q a w
Post Q R (failed e, w) = R w
Post Q R (hangs, w) = R w
Post Q R (crashes, w) = R w

pub record Triple {W A : Type 0} (P : W → Type 0) (m : Action W A) (Q : A → W → Type 0)
    (R : W → Type 0) : Type 0 where
  pub run : (w : W) → P w → Post Q R (m w)

Post-continue :
    {W A B : Type 0} (Q : A → W → Type 0) (S : B → W → Type 0) (R : W → Type 0) (f : A → Action W B)
    (x : Result A × W)
    → ((a : A) → Triple (Q a) (f a) S R)
    → Post Q R x
    → Post S R (continue f x)
Post-continue Q S R f (ok a, w) next h = (next a).run w h
Post-continue Q S R f (failed e, w) next h = h
Post-continue Q S R f (hangs, w) next h = h
Post-continue Q S R f (crashes, w) next h = h

Post-weaken :
    {W A : Type 0} (Q Q' : A → W → Type 0) (R R' : W → Type 0) (x : Result A × W)
    → ((a : A) (w : W) → Q a w → Q' a w)
    → ((w : W) → R w → R' w)
    → Post Q R x
    → Post Q' R' x
Post-weaken Q Q' R R' (ok a, w) f g h = f a w h
Post-weaken Q Q' R R' (failed e, w) f g h = g w h
Post-weaken Q Q' R R' (hangs, w) f g h = g w h
Post-weaken Q Q' R R' (crashes, w) f g h = g w h

-- One program after another.
pub and_then :
    {W A B : Type 0} {P : W → Type 0} {Q : A → W → Type 0} {S : B → W → Type 0} {R : W → Type 0}
    {m : Action W A} {f : A → Action W B}
    → Triple P m Q R
    → ((a : A) → Triple (Q a) (f a) S R)
    → Triple P (m >>= f) S R
and_then {Q} {S} {R} {m} {f} first next = record {
  run = λ w h. Post-continue Q S R f (m w) next (first.run w h);
}

-- A weaker precondition given, stronger postconditions shown.
pub consequence :
    {W A : Type 0} {P P' : W → Type 0} {Q Q' : A → W → Type 0} {R R' : W → Type 0} {m : Action W A}
    → ((w : W) → P w → P' w)
    → ((a : A) (w : W) → Q' a w → Q a w)
    → ((w : W) → R' w → R w)
    → Triple P' m Q' R'
    → Triple P m Q R
consequence {Q} {Q'} {R} {R'} {m} before after otherwise t = record {
  run = λ w h. Post-weaken Q' Q R' R (m w) after otherwise (t.run w (before w h));
}

-- A program that only returns.
pub returns :
    {W A : Type 0} {P : W → Type 0} {Q : A → W → Type 0} {R : W → Type 0} {a : A}
    → ((w : W) → P w → Q a w)
    → Triple P (pure a) Q R
returns h = record { run = h }

-- A program that only fails.
pub fails :
    {W A : Type 0} {P : W → Type 0} {Q : A → W → Type 0} {R : W → Type 0} {e : Failure}
    → ((w : W) → P w → R w)
    → Triple P (throw e) Q R
fails h = record { run = h }
