-- ===== src/Secrets/Store.antt =====
-- secrets/store.go: the store over a watched file of secrets, with NewSecrets of secrets/secrets.go.
-- The JSON decoder is an argument, as in the validation; a store over a directory is left out. The
-- handlers of the middlewares are functions on a state of their own.
use baseplate_go.Common.{◌≡◌, List, [], ◌∷◌, Bytes, Option, none, some}
use baseplate_go.Std.Results as Std
use baseplate_go.Std.Results.{Fault, failure}
use baseplate_go.Secrets.{Result, ok, err, Document, Secrets}
use baseplate_go.Secrets.Load.{secrets_validate}
use baseplate_go.Filewatcher.{Reader, read_all, Parsed, parsed, not_parsed, Parser}
use baseplate_go.Filewatcher.Loop.{Watcher, get}

-- SecretHandlerFunc and SecretMiddleware, on a state H.
abbrev pub SecretHandler : Type 0 → Type 0
SecretHandler H = Secrets → H → H

abbrev pub SecretMiddleware : Type 0 → Type 0
SecretMiddleware H = SecretHandler H → SecretHandler H

abbrev pub nop_secret_handler : {H : Type 0} → SecretHandler H
nop_secret_handler sec h = h

-- secretHandler: the last middleware is the outermost.
abbrev pub secret_handler :
    {H : Type 0} → List (SecretMiddleware H) → SecretHandler H → SecretHandler H
secret_handler [] handler = handler
secret_handler (m ∷ middlewares) handler = secret_handler middlewares (m handler)

-- The errors of the decoder and of secretsValidate.
abbrev pub not_json : Fault
not_json = failure 1

abbrev pub not_valid : Fault
not_valid = failure 2

module _ (decode : Bytes → Option Document) where
  abbrev pub validated : Result Secrets → Parsed Secrets
  validated (ok s) = parsed s
  validated (err e) = not_parsed not_valid

  abbrev pub decoded : Option Document → Parsed Secrets
  decoded none = not_parsed not_json
  decoded (some d) = validated (secrets_validate d)

  abbrev pub new_secrets : Std.Result Fault Bytes → Parsed Secrets
  new_secrets (Std.err e) = not_parsed e
  new_secrets (Std.ok text) = decoded (decode text)

  -- Store.parser, without its call of the handler.
  abbrev pub store_parser : Parser Secrets (Unit {0})
  store_parser tree r = new_secrets (read_all r)

  -- What the handler does with the state when a file is parsed.
  abbrev pub handled : {H : Type 0} → SecretHandler H → Reader → H → H
  handled handler r h = elim (new_secrets (read_all r)) [ parsed s ↦ handler s h | _ ↦ h ]

  -- AddMiddlewares: the handler, and the state after the call of it with the present secrets.
  abbrev pub add_middlewares :
      {H State : Type 0}
      → List (SecretMiddleware H)
      → SecretHandler H
      → Watcher Secrets State
      → H
      → SecretHandler H × H
  add_middlewares middlewares handler w h =
      (secret_handler middlewares handler, secret_handler middlewares handler (get w) h)

  -- The document is one that was read, and the secrets are what it says.
  record Comes (s : Secrets) : Type 0 where
    text : Bytes
    document : Document
    read : decode text ≡ some document
    valid : secrets_validate document ≡ ok s
