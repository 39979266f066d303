-- ===== src/Filewatcher/Loads.antt =====
-- What Get of filewatcher/v2/filewatcher.go returns after any run of the watcher's loop.
use baseplate_go.Common.{
  ℕ, ◌≡◌, refl, sym, subst, ◌∙◌, ◌⊎◌, inl, inr, Bool, true, false, List, [], ◌∷◌, arith,
  if◌then◌else◌,
}
use baseplate_go.Std.Instant.{Instant, before}
use baseplate_go.Std.Results.{Result, ok, err, Fault}
use baseplate_go.Filewatcher.{Disk, Outcome, loaded, error, panics, open_and_parse}
use baseplate_go.Filewatcher.Loop.{
  Config, DataAt, expired, Watcher, Event, closes, quits, watcher_error, fs_event, ticks, fires,
  store, force_reload, reload, on_event, handle, Runs, here, next,
}

abbrev pub Loads : {T : Type 0} → Outcome T → DataAt T → Type 0
Loads (loaded d mtime files) x = record { value = d; mtime = mtime } ≡ x
Loads (error e) x = ⊥
Loads panics x = ⊥

module _ {T Tree State : Type 0} (c : Config T Tree State) where
  abbrev pub read : Disk Tree → Outcome T
  read disk = (open_and_parse c.path c.parser c.soft_limit c.hard_limit disk).0

  -- The parser made it of the disk of the event.
  abbrev pub Gives : DataAt T → Event Tree → Type 0
  Gives x closes = ⊥
  Gives x quits = ⊥
  Gives x watcher_error = ⊥
  Gives x (fs_event now op) = ⊥
  Gives x (ticks mtime disk) = Loads (read disk) x
  Gives x (fires now disk) = Loads (read disk) x

  abbrev pub GivenBy : DataAt T → List (Event Tree) → Type 0
  GivenBy x [] = ⊥
  GivenBy x (e ∷ es) = Gives x e ⊎ GivenBy x es

  store-cases :
      (o : Outcome T) (w : Watcher T State)
      → Loads o (store c o w).stored ⊎ ((store c o w).stored ≡ w.stored)
  store-cases (loaded d mtime files) w = inl refl
  store-cases (error e) w = inr refl
  store-cases panics w = inr refl

  if-cases :
      (o : Outcome T) (b : Bool) (w v : Watcher T State)
      → Loads o v.stored ⊎ (v.stored ≡ w.stored)
      → Loads o (if b then w else v).stored ⊎ ((if b then w else v).stored ≡ w.stored)
  if-cases o true w v h = inr refl
  if-cases o false w v h = h

  reload-cases :
      (m : Result Fault Instant) (disk : Disk Tree) (w : Watcher T State)
      → Loads (read disk) (reload c m disk w).stored ⊎ ((reload c m disk w).stored ≡ w.stored)
  unfolding force_reload
  reload-cases (err e) disk w = inr refl
  reload-cases (ok mtime) disk w =
      elim (before w.stored.mtime mtime)
        as (λ b.
          Loads (read disk) (if b then force_reload c disk w else w).stored
          ⊎ ((if b then force_reload c disk w else w).stored ≡ w.stored)) [
            | true ↦ store-cases (read disk) w
            | false ↦ inr refl
          ]

  on_event-stored : (now op : ℕ) (w : Watcher T State) → (on_event c now op w).stored ≡ w.stored
  on_event-stored now op w = ground arith

  handle-cases :
      (e : Event Tree) (w : Watcher T State)
      → Gives (handle c e w).stored e ⊎ ((handle c e w).stored ≡ w.stored)
  unfolding force_reload
  handle-cases closes w = inr refl
  handle-cases quits w = inr refl
  handle-cases watcher_error w = inr refl
  handle-cases (fs_event now op) w = inr (on_event-stored now op w)
  handle-cases (ticks m disk) w =
      if-cases (read disk) w.done w (reload c m disk w) (reload-cases m disk w)
  handle-cases (fires now disk) w = store-cases (read disk) (record w { timer = expired })

  handle-GivenBy :
      (e : Event Tree) (es : List (Event Tree)) (u : Watcher T State) (x : DataAt T)
      → GivenBy u.stored es ⊎ (u.stored ≡ x)
      → GivenBy (handle c e u).stored (e ∷ es) ⊎ ((handle c e u).stored ≡ x)
  handle-GivenBy e es u x prior = elim (handle-cases e u) [
    | inl h ↦ inl (inl h)
    | inr h ↦ elim prior [
      | inl given ↦ inl (inr (subst (λ y. GivenBy y es) (sym h) given))
      | inr same ↦ inr (h ∙ same)
    ]
  ]

  pub Runs-GivenBy :
      {w u : Watcher T State} {es : List (Event Tree)}
      → Runs c w es u
      → GivenBy u.stored es ⊎ (u.stored ≡ w.stored)
  Runs-GivenBy here = inr refl
  Runs-GivenBy {w} (next {u} {v} {es} e r up possible eq) =
      subst (λ t. GivenBy t.stored (e ∷ es) ⊎ (t.stored ≡ w.stored)) (sym eq)
        (handle-GivenBy e es u w.stored (Runs-GivenBy r))
