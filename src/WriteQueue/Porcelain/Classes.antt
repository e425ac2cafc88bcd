-- ===== src/WriteQueue/Porcelain/Classes.antt =====
-- What a successful classification says of the requested paths.
use git_bamboo.Prelude.{some, List, [], ◌∷◌, ◌≡◌, ◌≢◌, ◌⊎◌, find, All}
use git_bamboo.Prelude.Text.{Text, codes}
use git_bamboo.WriteQueue.Porcelain.{
  Entry, Classified, PathClass, is_tracked, is_untracked, is_intent_to_add, names_path, put_class,
}

-- The codes of a class: `??`; ` A` or ` AM`; all others.
abbrev pub HasCode : PathClass → Text → Type 0
HasCode is_untracked xy = xy ≡ codes "??"
HasCode is_intent_to_add xy = (xy ≡ codes " A") ⊎ (xy ≡ codes " AM")
HasCode is_tracked xy = (xy ≢ codes "??") × (xy ≢ codes " A") × (xy ≢ codes " AM")

-- The first reported entry that is about the path has a code of this class.
abbrev pub Reported : List Entry → PathClass → Text → Type 0
Reported entries k p = (e : Entry) × (find (names_path p) entries ≡ some e) × HasCode k e.0

-- `c` splits the paths in three, each list in the order of the request.
pub data Splits : List Text → Classified → Type 0 where
  done : Splits [] (record { tracked = []; untracked = []; intent_to_add = [] })
  one :
      {ps : List Text} {c : Classified} (p : Text) (k : PathClass)
      → Splits ps c
      → Splits (p ∷ ps) (put_class k p c)

pub record IsClassified (entries : List Entry) (paths : List Text) (c : Classified) : Type 0 where
  pub splits : Splits paths c
  pub tracked_reported : All (Reported entries is_tracked) c.tracked
  pub untracked_reported : All (Reported entries is_untracked) c.untracked
  pub intent_to_add_reported : All (Reported entries is_intent_to_add) c.intent_to_add
