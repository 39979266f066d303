-- ===== src/Thriftbp/Headers.antt =====
-- thriftbp/headers.go with transport/headers.go: headers of a Thrift call in its context.
-- The context and the functions of the Thrift library on its headers are the argument Thrift; Carries states
-- what they do, and that a header that is in the write list arrives at the server.
use baseplate_go.Common.{
  ◌≡◌, List, [], ◌∷◌, ◌++◌, Bytes, codes, bytes_eq, to_lower, Option, none, some, if◌then◌else◌,
}

abbrev pub header_edge_request : Bytes
header_edge_request = codes "Edge-Request"

abbrev pub header_user_agent : Bytes
header_user_agent = codes "User-Agent"

abbrev pub header_deadline_budget : Bytes
header_deadline_budget = codes "Deadline-Budget"

-- SetHeader, UnsetHeader, GetHeader, SetWriteHeaderList and GetWriteHeaderList.
pub record Thrift (Ctx : Type 0) : Type 0 where
  pub set_header : Bytes → Bytes → Ctx → Ctx
  pub unset_header : Bytes → Ctx → Ctx
  pub get_header : Bytes → Ctx → Option Bytes
  pub set_write_list : List Bytes → Ctx → Ctx
  pub write_list : Ctx → List Bytes

module _ {Ctx : Type 0} (t : Thrift Ctx) where
  abbrev pub add_client_header : Bytes → Bytes → Ctx → Ctx
  add_client_header key value ctx =
      t.set_write_list (t.write_list ctx ++ key ∷ []) (t.set_header key value ctx)

  -- The key as it is, and else in lower case.
  abbrev pub header_or : Bytes → Ctx → Option Bytes → Option Bytes
  header_or key ctx (some v) = some v
  header_or key ctx none = t.get_header (to_lower key) ctx

  abbrev pub header : Bytes → Ctx → Option Bytes
  header key ctx = header_or key ctx (t.get_header key ctx)

  -- AttachEdgeRequestContext: `edge` is what ContextToHeader of the edge context returns.
  abbrev pub attach_edge_request_context : Option Bytes → Ctx → Ctx
  attach_edge_request_context none ctx = t.unset_header header_edge_request ctx
  attach_edge_request_context (some edge) ctx = add_client_header header_edge_request edge ctx

  -- SetClientName
  abbrev pub set_client_name : Bytes → Ctx → Ctx
  set_client_name [] ctx = t.unset_header header_user_agent ctx
  set_client_name (c ∷ cs) ctx = add_client_header header_user_agent (c ∷ cs) ctx

  -- thriftHostnameHeaderMiddleware
  abbrev pub set_hostname : Bytes → Ctx → Ctx
  set_hostname [] ctx = ctx
  set_hostname (c ∷ cs) ctx = add_client_header (codes "thrift-hostname") (c ∷ cs) ctx

  -- InitializeEdgeContext: `parse` is HeaderToContext, whose context is taken also with an error.
  abbrev pub initialize_edge_context_by : (Bytes → Ctx → Ctx) → Ctx → Option Bytes → Ctx
  initialize_edge_context_by parse ctx none = ctx
  initialize_edge_context_by parse ctx (some h) = parse h ctx

  abbrev pub initialize_edge_context : (Bytes → Ctx → Ctx) → Ctx → Ctx
  initialize_edge_context parse ctx =
      initialize_edge_context_by parse ctx (header header_edge_request ctx)

  -- The documented behaviour of the library.
  pub record IsThrift : Type 0 where
    pub get-set :
        (key other value : Bytes) (ctx : Ctx)
        → t.get_header other (t.set_header key value ctx)
          ≡ (if bytes_eq key other then some value else t.get_header other ctx)
    pub get-set_write_list :
        (key : Bytes) (keys : List Bytes) (ctx : Ctx)
        → t.get_header key (t.set_write_list keys ctx) ≡ t.get_header key ctx
    pub write_list-set :
        (keys : List Bytes) (ctx : Ctx) → t.write_list (t.set_write_list keys ctx) ≡ keys
    pub write_list-set_header :
        (key value : Bytes) (ctx : Ctx)
        → t.write_list (t.set_header key value ctx) ≡ t.write_list ctx
