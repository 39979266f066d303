-- ===== src/Std/Paths.antt =====
-- Absolute and clean file paths: the names from the last to the first, so that the root has none.
use baseplate_go.Common.{List, [], ◌∷◌, String}

abbrev pub FilePath : Type 0
FilePath = List String

-- filepath.Dir
abbrev pub dir : FilePath → FilePath
dir [] = []
dir (name ∷ above) = above

-- filepath.Base
abbrev pub base : FilePath → String
base [] = "/"
base (name ∷ above) = name
