-- ===== src/Tests/Codecs.antt =====
-- A lossless way to write commit metadata: every text behind its length.
use git_bamboo.Prelude.{
  ℕ, zero, suc, Option, none, some, List, [], ◌∷◌, ◌++◌, length, take, drop, ok, ◌≡◌, refl, ap, ◌∙◌,
}
use git_bamboo.Prelude.Text.{Text}
use git_bamboo.Protocol.{ℤ, pos, negsuc}
use git_bamboo.Cache.{CachedCommit, Codec}
use git_bamboo.Cache.RoundTrip.{IsCodec}

abbrev put_text : Text → Text → Text
put_text t rest = length t ∷ (t ++ rest)

abbrev take_text : Text → Text × Text
take_text [] = ([], [])
take_text (n ∷ rest) = (take n rest, drop n rest)

take-append : (t rest : Text) → take (length t) (t ++ rest) ≡ t
take-append [] rest = refl
take-append (c ∷ t) rest = ap (◌∷◌ c) (take-append t rest)

drop-append : (t rest : Text) → drop (length t) (t ++ rest) ≡ rest
drop-append [] rest = refl
drop-append (c ∷ t) rest = drop-append t rest

abbrev put_texts : List Text → Text
put_texts [] = []
put_texts (t ∷ ts) = put_text t (put_texts ts)

abbrev take_texts : ℕ → Text → List Text
take_texts zero rest = []
take_texts (suc n) rest = let (t, later) = take_text rest in t ∷ take_texts n later

take_texts-put : (ts : List Text) → take_texts (length ts) (put_texts ts) ≡ ts
take_texts-put [] = refl
take_texts-put (t ∷ ts) = simp (take-append, drop-append, take_texts-put ts)

abbrev put_time : ℤ → Text → Text
put_time (pos n) rest = 0 ∷ n ∷ rest
put_time (negsuc n) rest = 1 ∷ n ∷ rest

abbrev write_commit : CachedCommit → Text
write_commit m = put_time m.author_time (
    put_text m.message (
      put_text m.author_name
        (put_text m.author_email (length m.parent_ids ∷ put_texts m.parent_ids))))

abbrev parents_of : Text → List Text
parents_of [] = []
parents_of (n ∷ rest) = take_texts n rest

abbrev read_rest : ℤ → Text → CachedCommit
read_rest time rest =
    let a = take_text rest in
    let b = take_text a.1 in
    let c = take_text b.1 in
    record {
      message = a.0;
      author_name = b.0;
      author_email = c.0;
      author_time = time;
      parent_ids = parents_of c.1;
    }

abbrev read_commit : Text → Option CachedCommit
read_commit (zero ∷ n ∷ rest) = some (read_rest (pos n) rest)
read_commit (suc _ ∷ n ∷ rest) = some (read_rest (negsuc n) rest)
read_commit _ = none

abbrev pub counted : Codec
counted = record { to_vec = λ m. ok (write_commit m); from_slice = read_commit }

read_rest-put :
    (time : ℤ) (a b c : Text) (ps : List Text)
    → read_rest time (put_text a (put_text b (put_text c (length ps ∷ put_texts ps)))) ≡ record {
      message = a;
      author_name = b;
      author_email = c;
      author_time = time;
      parent_ids = ps;
    }
read_rest-put time a b c ps = simp (take-append, drop-append, take_texts-put)

read_commit-put :
    (time : ℤ) (rest : Text) → read_commit (put_time time rest) ≡ some (read_rest time rest)
read_commit-put (pos n) rest = refl
read_commit-put (negsuc n) rest = refl

read_commit-write : (m : CachedCommit) → read_commit (write_commit m) ≡ some m
read_commit-write m =
    read_commit-put m.author_time _
    ∙ ap some (read_rest-put m.author_time m.message m.author_name m.author_email m.parent_ids)

pub counted-IsCodec : IsCodec counted
counted-IsCodec = record { bytes = write_commit; writes = λ m. refl; reads = read_commit-write }
