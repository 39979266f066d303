-- ===== src/Filewatcher/Fakes.antt =====
-- filewatcher/v2/fwtest/fake.go: watchers for tests, that read on Update.
use baseplate_go.Common.{Option, none, some}
use baseplate_go.Std.Results.{Result, ok, err, Fault}

-- FakeFileWatcher and FakeDirWatcher: S is the reader or the file system. A parser is a function of what it
-- reads, and the value of an atomic.Value is none before the first Store.
pub record FakeWatcher (T : Type 0) : Type 0 where
  pub held : Option T

module _ {T S : Type 0} (parser : S → Result Fault T) where
  abbrev pub stored : FakeWatcher T → Result Fault T → FakeWatcher T × Option Fault
  stored fw (ok d) = (record fw { held = some d }, none)
  stored fw (err e) = (fw, some e)

  abbrev pub update : FakeWatcher T → S → FakeWatcher T × Option Fault
  update fw r = stored fw (parser r)

  abbrev pub checked : FakeWatcher T × Option Fault → Result Fault (FakeWatcher T)
  checked (fw, none) = ok fw
  checked (fw, some e) = err e

  -- NewFakeFilewatcher, NewFakeDirWatcher
  abbrev pub new_fake : S → Result Fault (FakeWatcher T)
  new_fake r = checked (update (record { held = none }) r)
