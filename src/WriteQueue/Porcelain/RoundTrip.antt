-- ===== src/WriteQueue/Porcelain/RoundTrip.antt =====
-- What git prints is what is read back.
use git_bamboo.Prelude.{
  ◌||◌, ℕ, ◌<◌, false, Option, none, some, List, [], ◌∷◌, ◌++◌, is_some, ◌≡◌, ◌≢◌, ◌==◌, any,
}
use git_bamboo.Prelude.Text.{Text}
use git_bamboo.WriteQueue.Porcelain.{Entry}

-- One line of the status: the two codes, the path, and the source of a rename or a copy.
pub record Row : Type 0 where
  pub x : ℕ
  pub y : ℕ
  pub path : Text
  pub source : Option Text

abbrev source_field : Option Text → Text → Text
source_field none rest = rest
source_field (some t) rest = t ++ (0 ∷ rest)

-- NUL-terminated fields, in front of what follows
pub print_row : Row → Text → Text
print_row r rest = r.x ∷ r.y ∷ b' ' ∷ (r.path ++ (0 ∷ source_field r.source rest))

pub print_rows : List Row → Text
print_rows [] = []
print_rows (r ∷ rs) = print_row r (print_rows rs)

abbrev IsClean : Text → Type 0
IsClean t = any (λ c. c == 0) t ≡ false

abbrev IsCleanSource : Option Text → Type 0
IsCleanSource none = Unit
IsCleanSource (some t) = IsClean t

-- ASCII codes, no NUL in a name, and a source exactly for a rename or a copy
pub record IsRow (r : Row) : Type 0 where
  pub x_ascii : r.x < 128
  pub y_ascii : r.y < 128
  pub x_ne_nul : r.x ≢ 0
  pub y_ne_nul : r.y ≢ 0
  pub path_clean : IsClean r.path
  pub source_clean : IsCleanSource r.source
  pub has_source : is_some r.source ≡ (r.x == b'R' || r.x == b'C')

abbrev pub entry_of : Row → Entry
entry_of r = (r.x ∷ r.y ∷ [], r.path)
