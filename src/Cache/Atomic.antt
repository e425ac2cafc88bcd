-- ===== src/Cache/Atomic.antt =====
-- What each operation of the cache does to the four tables, as a function on what they hold.
use git_bamboo.Prelude.{
  Bool, true, false, if◌then◌else◌, Result, ok, err, Result-cases, ok_injective, inl, inr, continue,
  ◌∙◌, Act, pure, ◌>>=◌, ◌>>◌, ◌≡◌, refl, sym, ap,
}
use git_bamboo.Protocol.{Error}
use git_bamboo.Cache.Store.{Views, Redb, IsStore}
use git_bamboo.Cache.{in_write, in_read, end_write, run_write, run_read, committed}

-- An action that succeeds gives `g` of what its state shows, and changes that by `f`.
pub record Turns {S A : Type 0} (v : S → Views) (m : Act S Error A) (g : Views → A)
    (f : Views → Views) : Type 0 where
  pub at : (s : S) (a : A) → (m s).0 ≡ ok a → (a ≡ g (v s)) × (v (m s).1 ≡ f (v s))

-- The same, and an action that fails changes nothing.
pub record Atomic {S A : Type 0} (v : S → Views) (m : Act S Error A) (g : Views → A)
    (f : Views → Views) : Type 0 where
  pub done : (s : S) (a : A) → (m s).0 ≡ ok a → (a ≡ g (v s)) × (v (m s).1 ≡ f (v s))
  pub failed : (s : S) (e : Error) → (m s).0 ≡ err e → v (m s).1 ≡ v s

then-done :
    {S A B : Type 0} (v : S → Views) (r : Result Error A) (s : S) (b c : B) (z : Views)
    → ((a : A) → r ≡ ok a → v s ≡ z)
    → (continue r (λ _. pure b) s).0 ≡ ok c
    → (c ≡ b) × (v (continue r (λ _. pure b) s).1 ≡ z)
unfolding pure
then-done v (ok a) s b c z p h = (sym (ok_injective h), p a refl)
then-done v (err e) s b c z p h = cc

then-failed :
    {S A B : Type 0} (v : S → Views) (r : Result Error A) (s : S) (b : B) (e : Error) (z : Views)
    → ((e : Error) → r ≡ err e → v s ≡ z)
    → (continue r (λ _. pure b) s).0 ≡ err e
    → v (continue r (λ _. pure b) s).1 ≡ z
unfolding pure
then-failed v (ok a) s b e z p h = cc
then-failed v (err e') s b e z p h = p e' refl

module _ {S : Type 0} {v : S → Views} where
  pub Turns-pure : {A : Type 0} (a : A) → Turns v (pure a) (λ x. a) (λ x. x)
  unfolding pure
  Turns-pure a = record { at = λ s b h. (sym (ok_injective h), refl) }

  Atomic-keeps :
      {A : Type 0} {g : Views → A} (m : Act S Error A)
      → Atomic v m g (λ x. x)
      → (s : S) → v (m s).1 ≡ v s
  Atomic-keeps m p s = elim (Result-cases (m s).0) [
    | inl (a, h) ↦ (p.done s a h).1
    | inr (e, h) ↦ p.failed s e h
  ]

  module _ {A B : Type 0} {k : A → Act S Error B} {g' : A → Views → B}
      {f' : A → Views → Views} where
    continue-Turns :
        (r : Result Error A) (s : S) (b : B) (y : A) (z : Views)
        → ((a : A) → r ≡ ok a → (a ≡ y) × (v s ≡ z))
        → ((a : A) → Turns v (k a) (g' a) (f' a))
        → (continue r k s).0 ≡ ok b
        → (b ≡ g' y z) × (v (continue r k s).1 ≡ f' y z)
    continue-Turns (ok a) s b y z p q h =
        let (e, w) = p a refl in rw (← e) (rw (← w) ((q a).at s b h))
    continue-Turns (err e) s b y z p q h = cc

    pub Turns-bind :
        (m : Act S Error A) {g : Views → A} {f : Views → Views}
        → Turns v m g f
        → ((a : A) → Turns v (k a) (g' a) (f' a))
        → Turns v (m >>= k) (λ x. g' (g x) (f x)) (λ x. f' (g x) (f x))
    unfolding ◌>>=◌
    Turns-bind m {g} {f} p q = record {
      at = λ s b h. continue-Turns (m s).0 (m s).1 b (g (v s)) (f (v s)) (p.at s) q h;
    }

    continue-Atomic-done :
        (r : Result Error A) (s : S) (b : B) (y : A) (z : Views)
        → ((a : A) → r ≡ ok a → (a ≡ y) × (v s ≡ z))
        → ((a : A) → Atomic v (k a) (g' a) (f' a))
        → (continue r k s).0 ≡ ok b
        → (b ≡ g' y z) × (v (continue r k s).1 ≡ f' y z)
    continue-Atomic-done (ok a) s b y z p q h =
        let (e, w) = p a refl in rw (← e) (rw (← w) ((q a).done s b h))
    continue-Atomic-done (err e) s b y z p q h = cc

    continue-Atomic-failed :
        (r : Result Error A) (s : S) (e : Error)
        → ((a : A) → Atomic v (k a) (g' a) (f' a))
        → (continue r k s).0 ≡ err e
        → v (continue r k s).1 ≡ v s
    continue-Atomic-failed (ok a) s e q h = (q a).failed s e h
    continue-Atomic-failed (err e') s e q h = refl

    -- behind an action that only reads
    pub Atomic-bind :
        (m : Act S Error A) {g : Views → A}
        → Atomic v m g (λ x. x)
        → ((a : A) → Atomic v (k a) (g' a) (f' a))
        → Atomic v (m >>= k) (λ x. g' (g x) x) (λ x. f' (g x) x)
    unfolding ◌>>=◌
    Atomic-bind m {g} p q = record {
      done = λ s b h. continue-Atomic-done (m s).0 (m s).1 b (g (v s)) (v s) (p.done s) q h;
      failed = λ s e h. continue-Atomic-failed (m s).0 (m s).1 e q h ∙ Atomic-keeps m p s;
    }

  pub Atomic-pure : {A : Type 0} (a : A) → Atomic v (pure a) (λ x. a) (λ x. x)
  unfolding pure
  Atomic-pure a = record { done = λ s b h. (sym (ok_injective h), refl); failed = λ s e h. refl }

  pub Atomic-if :
      {A : Type 0} (t : Bool) (m n : Act S Error A) {g g' : Views → A} {f f' : Views → Views}
      → Atomic v m g f
      → Atomic v n g' f'
      → Atomic v (if t then m else n) (if t then g else g') (if t then f else f')
  Atomic-if true m n p q = p
  Atomic-if false m n p q = q

  -- the value is replaced behind an action
  pub Atomic-then :
      {A B : Type 0} (m : Act S Error A) (b : B) {g : Views → A} {f : Views → Views}
      → Atomic v m g f
      → Atomic v (m >> pure b) (λ x. b) f
  unfolding ◌>>=◌ pure
  Atomic-then m b {g} {f} p = record {
    done = λ s c h. then-done v (m s).0 (m s).1 b c (f (v s)) (λ a i. (p.done s a i).1) h;
    failed = λ s e h. then-failed v (m s).0 (m s).1 b e (v s) (p.failed s) h;
  }

committed-ok :
    {A : Type 0} (a b : A) (c : Result Error (Unit {0}))
    → committed a c ≡ ok b
    → (b ≡ a) × (c ≡ ok tt)
committed-ok a b (ok _) h = (sym (ok_injective h), refl)
committed-ok a b (err e) h = cc

committed-err :
    {A : Type 0} (a : A) (e : Error) (c : Result Error (Unit {0}))
    → committed a c ≡ err e
    → c ≡ err e
committed-err a e (ok _) h = cc
committed-err a e (err e') h = cc

module _ (r : Redb) (w : IsStore r) {A : Type 0} where
  ended-done :
      (b : Result Error A) (x : r.Txn) (d : r.Db) (a y : A) (z : Views)
      → ((a : A) → b ≡ ok a → (a ≡ y) × (w.txn_views x ≡ z))
      → (end_write r b x d).0 ≡ ok a
      → (a ≡ y) × (w.db_views (end_write r b x d).1 ≡ z)
  ended-done (ok b) x d a y z p h =
      let (e, c) = committed-ok b a (r.commit x d).0 h in
      (e ∙ (p b refl).0, w.commit_applies x d c ∙ (p b refl).1)
  ended-done (err e) x d a y z p h = cc

  ended-failed :
      (b : Result Error A) (x : r.Txn) (d : r.Db) (e : Error)
      → (end_write r b x d).0 ≡ err e
      → w.db_views (end_write r b x d).1 ≡ w.db_views d
  ended-failed (ok b) x d e h = w.commit_fails x d e (committed-err b e (r.commit x d).0 h)
  ended-failed (err e') x d e h = refl

  written-failed :
      (body : Act r.Txn Error A) (o : Result Error r.Txn) (d : r.Db) (e : Error)
      → (run_write r body o d).0 ≡ err e
      → w.db_views (run_write r body o d).1 ≡ w.db_views d
  written-failed body (ok x) d e h = ended-failed (body x).0 (body x).1 d e h
  written-failed body (err e') d e h = refl

  module _ (body : Act r.Txn Error A) {g : Views → A} {f : Views → Views} where
    written-done :
        (o : Result Error r.Txn) (d : r.Db) (a : A) (z : Views)
        → ((x : r.Txn) → o ≡ ok x → w.txn_views x ≡ z)
        → Turns w.txn_views body g f
        → (run_write r body o d).0 ≡ ok a
        → (a ≡ g z) × (w.db_views (run_write r body o d).1 ≡ f z)
    written-done (ok x) d a z q p h =
        let e = q x refl in
        rw (← e)
          (ended-done (body x).0 (body x).1 d a (g (w.txn_views x)) (f (w.txn_views x)) (p.at x) h)
    written-done (err e) d a z q p h = cc

    read-done :
        (o : Result Error r.Txn) (a : A) (z : Views)
        → ((x : r.Txn) → o ≡ ok x → w.txn_views x ≡ z)
        → Turns w.txn_views body g f
        → run_read r body o ≡ ok a
        → a ≡ g z
    read-done (ok x) a z q p h = (p.at x a h).0 ∙ ap g (q x refl)
    read-done (err e) a z q p h = cc

    pub in_write-Atomic : Turns w.txn_views body g f → Atomic w.db_views (in_write r body) g f
    unfolding in_write
    in_write-Atomic p = record {
      done = λ d a h.
          written-done (r.begin_write d).0 (r.begin_write d).1 a (w.db_views d)
            (w.begin_write_sees d) p h;
      failed = λ d e h.
          written-failed body (r.begin_write d).0 (r.begin_write d).1 e h ∙ w.begin_write_keeps d;
    }

    pub in_read-Atomic : Turns w.txn_views body g f → Atomic w.db_views (in_read r body) g (λ x. x)
    unfolding in_read
    in_read-Atomic p = record {
      done = λ d a h. (
        read-done (r.begin_read d).0 a (w.db_views d) (w.begin_read_sees d) p h,
        w.begin_read_keeps d,
      );
      failed = λ d e h. w.begin_read_keeps d;
    }
