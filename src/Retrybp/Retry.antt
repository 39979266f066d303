-- ===== src/Retrybp/Retry.antt =====
-- retrybp/retry.go: Do around retry.Do of the library, which is an argument, as are the options and what errors.As
-- finds in an error.
use baseplate_go.Common.{List, [], ◌∷◌, ◌++◌, Option, none, some}
use baseplate_go.Errorsbp.Batch.{Error}
use baseplate_go.Batchcloser.{not_nil, join_of}

-- GetOptions: the options on the context, or nil.
abbrev pub get_options {ℓ} : {O : Type ℓ} → Option (List O) → List O
get_options none = []
get_options (some os) = os

-- Later options override earlier ones.
abbrev pub merged_options {ℓ} : {O : Type ℓ} → O → List O → Option (List O) → List O
merged_options with_context defaults on_context =
    with_context ∷ (defaults ++ get_options on_context)

module _ (as_retry_error : Error → Option (List (Option Error))) where
  abbrev pub unwrapped : Error → Option (List (Option Error)) → Option Error
  unwrapped e none = some e
  unwrapped e (some es) = join_of (not_nil es)

  abbrev pub result_of : Option Error → Option Error
  result_of none = none
  result_of (some e) = unwrapped e (as_retry_error e)

  abbrev pub do_retry {ℓ} :
      {O : Type ℓ} → (List O → Option Error) → O → List O → Option (List O) → Option Error
  do_retry retry_do with_context defaults on_context =
      result_of (retry_do (merged_options with_context defaults on_context))
