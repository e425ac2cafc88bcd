-- ===== src/Tests/Caches.antt =====
-- The cache of crates/engine/src/cache.rs at concrete inputs.
use git_bamboo.Prelude.{
  ℕ, Bool, true, Option, none, some, List, [], ◌∷◌, Result, ok, err, ◌≡◌, refl,
}
use git_bamboo.Prelude.Maps.{get, insert}
use git_bamboo.Prelude.Text.{codes, eq}
use git_bamboo.Protocol.{pos}
use git_bamboo.Cache.{
  CachedCommit, epoch_key, fingerprint_key, put_lanes_with_epoch, invalidate_on_epoch_change,
  reconcile, put_commit_metas, get_commit_metas, next_epoch, reusable,
}
use git_bamboo.Cache.Promises.{put_lanes_with_epoch-refines}
use git_bamboo.Cache.Refinement.{store_lanes}
use git_bamboo.Cache.RoundTrip.{get_commit_metas-put}
use git_bamboo.Tests.Codecs.{counted, counted-IsCodec}
use git_bamboo.Tests.Stores.{Tables, memory, memory-IsStore, show_tables}

-- lanes of epoch 3 for one commit, and a fingerprint
abbrev full : Tables
full = record {
  metas = [];
  lanes = (codes "a", 1) ∷ [];
  epochs = (epoch_key, 3) ∷ [];
  fingerprints = (fingerprint_key, codes "f") ∷ [];
}

invalidated_run : (invalidate_on_epoch_change memory 4 full).0 ≡ ok true
unfolding invalidate_on_epoch_change git_bamboo.Prelude.◌>>=◌ get eq
invalidated_run = refl

reused_run : (reconcile memory (codes "f") full).0 ≡ ok 3
unfolding reconcile git_bamboo.Prelude.◌>>=◌ reusable get eq
reused_run = refl

reset_run : (reconcile memory (codes "g") full).0 ≡ ok 4
unfolding reconcile git_bamboo.Prelude.◌>>=◌ reusable get eq next_epoch
reset_run = refl

put_lanes_with_epoch-refines_example :
    show_tables (put_lanes_with_epoch memory ((codes "b", 2) ∷ []) 5 full).1
    ≡ store_lanes ((codes "b", 2) ∷ []) 5 (show_tables full)
unfolding memory-IsStore put_lanes_with_epoch git_bamboo.Prelude.◌>>=◌
put_lanes_with_epoch-refines_example =
    put_lanes_with_epoch-refines memory memory-IsStore ((codes "b", 2) ∷ []) 5 full

abbrev commit_b : CachedCommit
commit_b = record {
  message = codes "second";
  author_name = codes "n";
  author_email = codes "e";
  author_time = pos 5;
  parent_ids = codes "a" ∷ [];
}

get_commit_metas-put_example : get (codes "b") ((codes "b", commit_b) ∷ []) ≡ some commit_b
unfolding put_commit_metas git_bamboo.Prelude.◌>>=◌ get_commit_metas get eq insert
get_commit_metas-put_example =
    get_commit_metas-put counted memory memory-IsStore counted-IsCodec ((codes "b", commit_b) ∷ [])
      (codes "b" ∷ []) full ((codes "b", commit_b) ∷ []) (codes "b") commit_b refl refl refl refl
