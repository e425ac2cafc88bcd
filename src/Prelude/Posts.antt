-- ===== src/Prelude/Posts.antt =====
-- What an action leaves behind, by how it ends: from a state with `P`, a result and a state with `Q`.
use mathlib.Core.Path.{◌≡◌, refl}
use mathlib.Core.Bool.{Bool, true, false}
use git_bamboo.Prelude.Tests.{if◌then◌else◌}
use git_bamboo.Prelude.Results.{Result, ok, err, Act, pure, fail, ◌>>=◌, continue}

pub record Post {S E A : Type 0} (P : S → Type 0) (m : Act S E A) (Q : Result E A → S → Type 0)
    : Type 0 where
  pub at : (s : S) → P s → Q (m s).0 (m s).1

module _ {S E A : Type 0} {P : S → Type 0} {Q : Result E A → S → Type 0} where
  pub Post-pure : (a : A) → ((s : S) → P s → Q (ok a) s) → Post P (pure a) Q
  unfolding pure
  Post-pure a k = record { at = k }

  pub Post-fail : (e : E) → ((s : S) → P s → Q (err e) s) → Post P (fail e) Q
  unfolding fail
  Post-fail e k = record { at = k }

  pub Post-if :
      (test : Bool) (yes_case no_case : Act S E A)
      → (test ≡ true → Post P yes_case Q)
      → (test ≡ false → Post P no_case Q)
      → Post P (if test then yes_case else no_case) Q
  Post-if false yes_case no_case first second = second refl
  Post-if true yes_case no_case first second = first refl

  pub Post_mono :
      {R : Result E A → S → Type 0} (m : Act S E A)
      → Post P m Q
      → ((x : Result E A) (s : S) → Q x s → R x s)
      → Post P m R
  Post_mono m v k = record { at = λ s p. k (m s).0 (m s).1 (v.at s p) }

continue-Post :
    {S E A B : Type 0} (Q : Result E A → S → Type 0) (R : Result E B → S → Type 0) (x : Result E A)
    (f : A → Act S E B) (s : S)
    → ((a : A) → Post (Q (ok a)) (f a) R)
    → ((e : E) (s' : S) → Q (err e) s' → R (err e) s')
    → Q x s
    → R (continue x f s).0 (continue x f s).1
continue-Post Q R (ok a) f s kf ke q = (kf a).at s q
continue-Post Q R (err e) f s kf ke q = ke e s q

module _ {S E A B : Type 0} {P : S → Type 0} {Q : Result E A → S → Type 0}
    {R : Result E B → S → Type 0} where
  pub Post-bind :
      (m : Act S E A) (f : A → Act S E B)
      → Post P m Q
      → ((a : A) → Post (Q (ok a)) (f a) R)
      → ((e : E) (s : S) → Q (err e) s → R (err e) s)
      → Post P (m >>= f) R
  unfolding ◌>>=◌
  Post-bind m f v kf ke = record {
    at = λ s p. continue-Post Q R (m s).0 f (m s).1 kf ke (v.at s p);
  }
