-- ===== src/Limitopen/Tests.antt =====
-- A test of internal/limitopen/limitopen.go.
use baseplate_go.Common.{◌≡◌, refl, [], ◌∷◌, codes, none}
use baseplate_go.Common.Int.{pos}
use baseplate_go.Std.Paths.{FilePath}
use baseplate_go.Std.Results.{ok, err}
use baseplate_go.Limitopen.{
  Answers, opened, closed, size_gauge, soft_limit_counter, over_limit, open_with_limit,
}

abbrev path : FilePath
path = "config" ∷ "etc" ∷ []

abbrev three_bytes : Answers
three_bytes = record { open_error = none; size = ok (pos 3); contents = codes "one" }

too_large : open_with_limit path (pos 1) (pos 2) three_bytes ≡ (
  err (over_limit (pos 3) (pos 2) path),
  opened path ∷ size_gauge "config" (pos 3) ∷ soft_limit_counter "config" ∷ closed path ∷ [],
)
unfolding open_with_limit
too_large = refl

only_reported : open_with_limit path (pos 1) (pos 0) three_bytes ≡ (
  ok (codes "one"),
  opened path ∷ size_gauge "config" (pos 3) ∷ soft_limit_counter "config" ∷ [],
)
unfolding open_with_limit
only_reported = refl
