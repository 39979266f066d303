-- ===== src/ClientPool/New.antt =====
-- NewChannelPool of clientpool/channel.go: the initial clients, required and best-effort.
-- An `Attempt` is one round of the first loop: the context is done and the opener is not called, or
-- the opener's answer. The second loop calls the opener only. A result comes with the rounds that were
-- not made. `pending` says that a loop still runs when the given rounds are used up, `blocked` that a
-- send on the full channel waits for ever.
use baseplate_go.Common.{
  ℕ, zero, suc, false, ◌&&◌, List, [], ◌∷◌, ◌++◌, Option, none, some, ltb, length, if◌then◌else◌,
}
use baseplate_go.Common.Int.{ℤ, pos, negsuc, pos_part, leb_ℤ, ◌-ℤ◌}
use baseplate_go.ClientPool.{Error, config_error, Outcome, ok, err, panic, ChannelPool}

pub data Attempt : Type 0 where
  ctx_done : Error → Attempt
  attempt : Outcome ℕ → Attempt

pub data Made : Type 0 where
  made : ChannelPool → List Attempt → List (Outcome ℕ) → Made
  refused : Error → List ℕ → List Attempt → List (Outcome ℕ) → Made  -- closes these clients
  panicked blocked pending : Made

pub data Filled (R : Type 0) : Type 0 where
  filled : List ℕ → List R → Filled R
  gave_up : Error → List ℕ → List R → Filled R
  fault stuck more : Filled R

abbrev pub or_else : Option Error → Error → Error
or_else none e = e
or_else (some last) e = last

-- for i := 0; i < requiredInitialClients; { … }
unfoldable pub fill_required :
    (size need : ℕ) → Option Error → List ℕ → List Attempt → Filled Attempt
fill_required size zero last pool ts = filled pool ts
fill_required size (suc n) last pool [] = more
fill_required size (suc n) last pool (ctx_done e ∷ ts) = gave_up (or_else last e) pool ts
fill_required size (suc n) last pool (attempt (ok c) ∷ ts) =
    let rest = fill_required size n last (pool ++ c ∷ []) ts in
    if ltb (length pool) size then rest else stuck
fill_required size (suc n) last pool (attempt (err e) ∷ ts) =
    fill_required size (suc n) (some e) pool ts
fill_required size (suc n) last pool (attempt panic ∷ ts) = fault

-- for i := requiredInitialClients; i < bestEffortInitialClients; i++ { … }, over the rounds left
unfoldable pub fill_best_effort : (size rounds : ℕ) → List ℕ → List (Outcome ℕ) → Filled (Outcome ℕ)
fill_best_effort size zero pool us = filled pool us
fill_best_effort size (suc n) pool [] = more
fill_best_effort size (suc n) pool (ok c ∷ us) =
    let rest = fill_best_effort size n (pool ++ c ∷ []) us in
    if ltb (length pool) size then rest else stuck
fill_best_effort size (suc n) pool (err e ∷ us) = filled pool us
fill_best_effort size (suc n) pool (panic ∷ us) = fault

abbrev pub finish : ℕ → List Attempt → Filled (Outcome ℕ) → Made
finish size ts (filled pool us) =
    made (record { pool = pool; shut = false; num_active = 0; max_clients = size; closed = [] }) ts
      us
finish size ts (gave_up e pool us) = refused e pool ts us
finish size ts fault = panicked
finish size ts stuck = blocked
finish size ts more = pending

abbrev pub then_best_effort : ℕ → ℕ → List (Outcome ℕ) → Filled Attempt → Made
then_best_effort size rounds us (filled pool ts) =
    finish size ts (fill_best_effort size rounds pool us)
then_best_effort size rounds us (gave_up e pool ts) = refused e pool ts us
then_best_effort size rounds us fault = panicked
then_best_effort size rounds us stuck = blocked
then_best_effort size rounds us more = pending

-- `make(chan Client, maxClients)` panics at a negative size.
abbrev pub make_pool :
    (required best_effort max_clients : ℤ) → List Attempt → List (Outcome ℕ) → Made
make_pool required best_effort (negsuc m) ts us = panicked
make_pool required best_effort (pos size) ts us =
    then_best_effort size (pos_part (best_effort -ℤ required)) us
      (fill_required size (pos_part required) none [] ts)

unfoldable pub new_channel_pool :
    (required best_effort max_clients : ℤ) → List Attempt → List (Outcome ℕ) → Made
new_channel_pool required best_effort max_clients ts us =
    if leb_ℤ required best_effort && leb_ℤ best_effort max_clients
    then make_pool required best_effort max_clients ts us
    else refused config_error [] ts us
