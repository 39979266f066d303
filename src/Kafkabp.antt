-- ===== src/Kafkabp.antt =====
-- kafkabp/rack.go: the functions that find the id of a consumer's rack.
-- A request is its method, its URL and whether a token is sent with it; what a server answers to requests is
-- the argument `network`.
pub mod Racks
mod Tests
use baseplate_go.Common.{
  ℕ, ◌≡◌, Bool, true, false, not, ◌&&◌, ◌||◌, List, [], ◌∷◌, ◌++◌, Bytes, codes, bytes_eq, is_empty,
  Option, none, some, take, leb, ltb, ◌==◌, if◌then◌else◌,
}
use baseplate_go.Common.Int.{ℤ, pos, pos_part, ltb_ℤ}
use baseplate_go.Std.Instant.{second}
use baseplate_go.Std.Results.{Result, ok, err}

-- Why no id is found: the request cannot be made, it fails, its body cannot be read, or its code is an error.
pub data RackError : Type 0 where
  bad_request request_failed unreadable_body error_code : RackError

pub record Request : Type 0 where
  pub method : Bytes
  pub url : Bytes
  pub token : Option Bytes

-- A response: its code, and its body, none if reading fails.
pub record Response : Type 0 where
  pub status_code : ℕ
  pub content : Option Bytes

abbrev pub Network : Type 0
Network = Request → Option Response

pub record SimpleHttpRackIdConfig : Type 0 where
  pub url : Bytes
  pub limit : ℤ
  pub timeout : ℤ

-- RackIDFunc, by the functions of the package.
pub data RackIdFunc : Type 0 where
  fixed_rack_id : Bytes → RackIdFunc
  aws_availability_zone aws_availability_zone_id : RackIdFunc
  simple_http_rack_id : SimpleHttpRackIdConfig → RackIdFunc

abbrev pub method_get : Bytes
method_get = codes "GET"

abbrev pub method_put : Bytes
method_put = codes "PUT"

-- What is left after a prefix; none if it is not one.
unfoldable pub cut_prefix : Bytes → Bytes → Option Bytes
cut_prefix [] s = some s
cut_prefix (p ∷ ps) [] = none
cut_prefix (p ∷ ps) (c ∷ cs) = let rest = cut_prefix ps cs in if p == c then rest else none

abbrev pub is_some : Option Bytes → Bool
is_some none = false
is_some (some s) = true

abbrev pub or_else : Option Bytes → Bytes → Bytes
or_else none s = s
or_else (some t) s = t

-- strings.HasPrefix with either scheme.
abbrev pub is_url : Bytes → Bool
is_url s = is_some (cut_prefix (codes "http://") s) || is_some (cut_prefix (codes "https://") s)

-- The config that UnmarshalText makes leaves the limit and the timeout at 0.
unfoldable pub unmarshal_text : Bytes → RackIdFunc
unfolding cut_prefix
unmarshal_text s =
    if is_empty s
    then fixed_rack_id []
    else if bytes_eq s (codes "aws")
    then aws_availability_zone
    else if bytes_eq s (codes "aws-zone-id")
    then aws_availability_zone_id
    else if is_url s
    then simple_http_rack_id (record { url = s; limit = pos 0; timeout = pos 0 })
    else fixed_rack_id (or_else (cut_prefix (codes "fixed:") s) s)

-- http.NewRequest: a method is a token of RFC 7230, and the empty one stands for GET.
abbrev pub is_token_char : ℕ → Bool
is_token_char c =
    (leb b'0' c && leb c b'9')
    || (leb b'a' c && leb c b'z')
    || (leb b'A' c && leb c b'Z')
    || c == b'!'
    || (leb b'#' c && leb c b'\'')
    || c == b'*'
    || c == b'+'
    || c == b'-'
    || c == b'.'
    || c == b'^'
    || c == b'_'
    || c == b'`'
    || c == b'|'
    || c == b'~'

unfoldable pub is_token : Bytes → Bool
is_token [] = true
is_token (c ∷ cs) = is_token_char c && is_token cs

abbrev pub method_or_get : Bytes → Bytes
method_or_get [] = method_get
method_or_get (c ∷ cs) = c ∷ cs

abbrev pub new_request : Bytes → Bytes → Option Request
new_request method url =
    if is_token method
    then some (record { method = method_or_get method; url = url; token = none })
    else none

-- strings.TrimSpace, of ASCII.
abbrev pub is_space : ℕ → Bool
is_space c = (leb 9 c && leb c 13) || c == 32

unfoldable pub trim_left : Bytes → Bytes
trim_left [] = []
trim_left (c ∷ cs) = let rest = trim_left cs in if is_space c then rest else c ∷ cs

-- Without the blanks at the end.
abbrev pub unless_blank : ℕ → Bytes → Bytes
unless_blank c [] = if is_space c then [] else c ∷ []
unless_blank c (d ∷ ds) = c ∷ d ∷ ds

unfoldable pub trim_right : Bytes → Bytes
trim_right [] = []
trim_right (c ∷ cs) = unless_blank c (trim_right cs)

unfoldable pub trim_space : Bytes → Bytes
unfolding trim_left trim_right
trim_space s = trim_right (trim_left s)

abbrev pub read_body : ℤ → ℕ → Option Bytes → Result RackError Bytes
read_body limit code none = err unreadable_body
read_body limit code (some content) =
    if leb 400 code then err error_code else ok (trim_space (take (pos_part limit) content))

abbrev pub read_response : ℤ → Option Response → Result RackError Bytes
read_response limit none = err request_failed
read_response limit (some r) = read_body limit r.status_code r.content

abbrev pub default_limit : ℤ
default_limit = pos 1_024

abbrev pub default_timeout : ℤ
default_timeout = pos second

module _ (network : Network) where
  abbrev pub do_http : ℤ → Request → Result RackError Bytes
  do_http limit r = read_response limit (network r)

  abbrev pub id_or_empty : Result RackError Bytes → Bytes
  id_or_empty (ok id) = id
  id_or_empty (err e) = []

  abbrev pub fetch : ℤ → Option Request → Result RackError Bytes
  fetch limit none = err bad_request
  fetch limit (some r) = do_http limit r

  -- SimpleHTTPRackID: the URL is the method of the request, and GET its URL.
  unfoldable pub simple_http : SimpleHttpRackIdConfig → Bytes
  simple_http cfg =
      let limit = if ltb_ℤ (pos 0) cfg.limit then cfg.limit else default_limit in
      id_or_empty (fetch limit (new_request cfg.url method_get))

  abbrev pub with_token : Bytes → Result RackError Bytes → Result RackError Bytes
  with_token url (err e) = err e
  with_token url (ok token) =
      do_http default_limit (record { method = method_get; url = url; token = some token })

  -- awsURL: the token first, and the URL with it.
  unfoldable pub aws_url : Bytes → Result RackError Bytes
  aws_url url = with_token url (
      do_http default_limit (record {
        method = method_put;
        url = codes "http://169.254.169.254/latest/api/token";
        token = none;
      }))

  -- The first call of a rack function.
  unfoldable pub rack_id : RackIdFunc → Bytes
  unfolding simple_http aws_url
  rack_id (fixed_rack_id id) = id
  rack_id aws_availability_zone =
      id_or_empty
        (aws_url (codes "http://169.254.169.254/latest/meta-data/placement/availability-zone"))
  rack_id aws_availability_zone_id =
      id_or_empty
        (aws_url (codes "http://169.254.169.254/latest/meta-data/placement/availability-zone-id"))
  rack_id (simple_http_rack_id cfg) = simple_http cfg
