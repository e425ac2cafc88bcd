-- ===== src/Cache/Clearing.antt =====
-- About `clear_table` of crates/engine/src/cache.rs: the loop over the keys of a listing.
use mathlib.Core.Path.{fun_ext}
use git_bamboo.Prelude.{
  Bool, true, false, or-false, if◌then◌else◌, Bool-cases, Option, none, List, [], ◌∷◌, any, Result,
  ok, err, continue, pure, ◌>>=◌, ◌≡◌, refl, sym, ap, ◌∙◌, inl, inr,
}
use git_bamboo.Prelude.Text.{Text, eq}
use git_bamboo.Protocol.{Error}
use git_bamboo.Cache.Store.{
  Table, commit_meta, commit_lanes, cache_epoch, repo_fingerprint, Value, Views, look, replace,
  assign, put, empty, is_key, Redb, IsStore,
}
use git_bamboo.Cache.{readable_keys, remove_all, clear_table}
use git_bamboo.Cache.Atomic.{Turns, Turns-bind}

abbrev nothing : Views → Unit {0}
nothing s = tt

abbrev forget : {A : Type 0} → List Text → (Text → Option A) → Text → Option A
forget [] f = f
forget (k ∷ ks) f = forget ks (assign k none f)

abbrev drop_each : Table → List Text → Views → Views
drop_each t ks s = replace t (forget ks (look t s)) s

look-replace : (t : Table) (f : Text → Option (Value t)) (s : Views) → look t (replace t f s) ≡ f
look-replace commit_meta f s = refl
look-replace commit_lanes f s = refl
look-replace cache_epoch f s = refl
look-replace repo_fingerprint f s = refl

replace-replace :
    (t : Table) (f g : Text → Option (Value t)) (s : Views)
    → replace t f (replace t g s) ≡ replace t f s
replace-replace commit_meta f g s = refl
replace-replace commit_lanes f g s = refl
replace-replace cache_epoch f g s = refl
replace-replace repo_fingerprint f g s = refl

replace-look : (t : Table) (s : Views) → replace t (look t s) s ≡ s
replace-look commit_meta s = refl
replace-look commit_lanes s = refl
replace-look cache_epoch s = refl
replace-look repo_fingerprint s = refl

drop_each_cons :
    (t : Table) (k : Text) (ks : List Text) (s : Views)
    → drop_each t ks (put t k none s) ≡ drop_each t (k ∷ ks) s
drop_each_cons t k ks s =
    rw (look-replace t (assign k none (look t s)) s)
      (replace-replace t (forget ks (assign k none (look t s))) (assign k none (look t s)) s)

-- a key that is listed is forgotten, and one that is not had no value
forget_listed :
    {A : Type 0} (entries : List (Result Error Text)) (f : Text → Option A) (q : Text)
    → (any (is_key q) entries ≡ false → f q ≡ none)
    → forget (readable_keys entries) f q ≡ none
forget_listed [] f q h = h refl
forget_listed (err e ∷ entries) f q h = forget_listed entries f q h
forget_listed (ok k ∷ entries) f q h =
    forget_listed entries (assign k none f) q
      (λ i. elim (Bool-cases (eq q k)) [ inl y ↦ rw y refl | inr n ↦ rw n (h (rw n i)) ])

-- a key that is not listed stays
forget_skipped :
    {A : Type 0} (entries : List (Result Error Text)) (f : Text → Option A) (q : Text)
    → any (is_key q) entries ≡ false
    → forget (readable_keys entries) f q ≡ f q
forget_skipped [] f q h = refl
forget_skipped (err e ∷ entries) f q h = forget_skipped entries f q h
forget_skipped (ok k ∷ entries) f q h =
    let (n, later) = or-false (eq q k) (any (is_key q) entries) h in
    forget_skipped entries (assign k none f) q later ∙ rw n refl

forget_readable :
    {A : Type 0} (u : Text → Bool) (entries : List (Result Error Text)) (f : Text → Option A)
    → ((q : Text) → u q ≡ false → any (is_key q) entries ≡ false → f q ≡ none)
    → ((q : Text) → u q ≡ true → any (is_key q) entries ≡ false)
    → (q : Text) → forget (readable_keys entries) f q ≡ (if u q then f q else none)
forget_readable u entries f h k q = elim (Bool-cases (u q)) [
  | inl y ↦ rw y (forget_skipped entries f q (k q y))
  | inr n ↦ rw n (forget_listed entries f q (h q n))
]

module _ (r : Redb) (w : IsStore r) where
  remove-Turns : (t : Table) (k : Text) → Turns w.txn_views (r.remove t k) nothing (put t k none)
  remove-Turns t k = record { at = λ x a h. (refl, w.remove_puts t k x h) }

  remove_all-Turns :
      (t : Table) (ks : List Text) → Turns w.txn_views (remove_all r t ks) nothing (drop_each t ks)
  unfolding remove_all pure
  remove_all-Turns t [] = record { at = λ x a h. (refl, sym (replace-look t (w.txn_views x))) }
  remove_all-Turns t (k ∷ ks) = record {
    at = λ x a h.
        let z =
          (Turns-bind (r.remove t k) (remove-Turns t k) (λ _. remove_all-Turns t ks)).at x a h in
        (refl, z.1 ∙ drop_each_cons t k ks (w.txn_views x));
  }

  cleared :
      (t : Table) (o : Result Error (List (Result Error Text))) (x : r.Txn) (a : Unit {0})
      → ((entries : List (Result Error Text))
          → o ≡ ok entries
          → (q : Text) → w.unreadable t q ≡ false
          → any (is_key q) entries ≡ false
          → look t (w.txn_views x) q ≡ none)
      → ((entries : List (Result Error Text))
          → o ≡ ok entries
          → (q : Text) → w.unreadable t q ≡ true
          → any (is_key q) entries ≡ false)
      → (continue o (λ entries. remove_all r t (readable_keys entries)) x).0 ≡ ok a
      → w.txn_views (continue o (λ entries. remove_all r t (readable_keys entries)) x).1
        ≡ empty w.unreadable t (w.txn_views x)
  cleared t (ok entries) x a p q h =
      ((remove_all-Turns t (readable_keys entries)).at x a h).1
      ∙ ap (λ f. replace t f (w.txn_views x))
          (fun_ext (
            forget_readable (w.unreadable t) entries (look t (w.txn_views x)) (p entries refl)
              (q entries refl)))
  cleared t (err e) x a p q h = cc

  pub clear_table-Turns :
      (t : Table) → Turns w.txn_views (clear_table r t) nothing (empty w.unreadable t)
  unfolding clear_table ◌>>=◌
  clear_table-Turns t = record {
    at = λ x a h. (
      refl,
      cleared t (r.iter t x).0 (r.iter t x).1 a
            (λ entries o. rw (w.iter_keeps t x) (w.iter_lists t x entries o)) (w.iter_skips t x) h
          ∙ ap (empty w.unreadable t) (w.iter_keeps t x),
    );
  }
