-- ===== src/Secrets/Tests.antt =====
-- A small document of secrets, and the theorems on it (secrets/secrets.go).
use baseplate_go.Common.{
  ◌≡◌, refl, true, false, [], ◌∷◌, Bytes, codes, lookup, insert, ◌↔◌, All, Option, none, some,
}
use baseplate_go.Common.Int.{pos}
use baseplate_go.Std.Results as Std
use baseplate_go.Filewatcher.Loop.{Fsnotify, Watcher, no_timer, next}
use baseplate_go.Filewatcher.New.{Round}
use baseplate_go.Secrets.{
  ok, GenericSecret, Document, Secrets, decode_value, new_simple_secret, new_versioned_secret,
  identity_encoding, base64_encoding,
}
use baseplate_go.Std.Base64.{decode}
use baseplate_go.Secrets.Load.{
  secrets_validate, validate, document_errors, entry_errors, add_secrets, add_secret,
}
use baseplate_go.Secrets.Lookup.{Serves, secrets_validate-Serves}
use baseplate_go.Secrets.Accept.{Acceptable, secrets_validate_iff}

abbrev api_key : GenericSecret
api_key = record {
  type = "simple";
  value = codes "aGVsbG8=";
  encoding = base64_encoding;
  current = [];
  previous = [];
  next = [];
  username = [];
  password = [];
}

abbrev signing_key : GenericSecret
signing_key = record {
  type = "versioned";
  value = [];
  encoding = identity_encoding;
  current = codes "new";
  previous = codes "old";
  next = [];
  username = [];
  password = [];
}

abbrev two : Document
two = record {
  secrets = ("api-key", api_key) ∷ ("signing-key", signing_key) ∷ [];
  vault = record { url = codes "vault"; token = codes "t" };
}

abbrev loaded : Secrets
loaded = record {
  simple_secrets = ("api-key", record { value = codes "hello" }) ∷ [];
  versioned_secrets =
      ("signing-key", record { current = codes "new"; previous = codes "old"; next = [] }) ∷ [];
  credential_secrets = [];
  vault = two.vault;
}

two_loads : secrets_validate two ≡ ok loaded
unfolding secrets_validate validate document_errors entry_errors add_secrets add_secret
    new_simple_secret decode_value decode new_versioned_secret insert
two_loads = refl

secrets_validate-Serves_example : Serves "signing-key" (lookup "signing-key" two.secrets) loaded
unfolding lookup
secrets_validate-Serves_example =
    secrets_validate-Serves two loaded "signing-key" (refl, (refl, tt)) two_loads (λ e. cc e)

secrets_validate_iff_example :
    ((s : Secrets) × (secrets_validate two ≡ ok s)) ↔ All Acceptable two.secrets
secrets_validate_iff_example = secrets_validate_iff two

-- A store whose file holds the two secrets, whatever its text, and that is then closed.
abbrev decoder : Bytes → Option Document
decoder text = some two

abbrev no_watches : Fsnotify (Unit {0})
no_watches = record {
  add = λ p s. (none, s);
  remove = λ p s. (none, s);
  watch_list = λ s. [];
  close = λ s. s;
}

abbrev secrets_file : Round (Unit {0})
secrets_file = record {
  done = false;
  disk = record {
    stat = Std.ok (record { mod_time = 5; is_dir = false });
    walked = [];
    opening = record { open_error = none; size = Std.ok (pos 2); contents = codes "{}" };
    tree = tt;
  };
}

abbrev started : Watcher Secrets (Unit {0})
started = record {
  stored = record { value = loaded; mtime = 5 };
  done = false;
  running = true;
  crashed = false;
  watches = tt;
  timer = no_timer;
}
