-- ===== src/Httpbp/Middlewares/Methods.antt =====
-- Which methods SupportedMethods (httpbp/middlewares.go) lets through.
use baseplate_go.Common.{
  ◌≡◌, ◌∙◌, Bool, ◌&&◌, ◌||◌, List, [], ◌∷◌, ◌++◌, Bytes, codes, some, bytes_eq, bytes_eq_iff, map,
  if◌then◌else◌, arith,
}
use baseplate_go.Httpbp.Errors.{method_not_allowed}
use baseplate_go.Httpbp.Headers.{join}
use baseplate_go.Httpbp.Middlewares.{
  Handler, to_upper, method_get, method_head, has_method, add_method, add_methods, supported_of,
  done, set_header, raw_error, not_supported, sort, supported_methods,
}

-- The method is the first or one of the others, in upper case.
abbrev pub is_named : Bytes → List Bytes → Bytes → Bool
is_named method additional m = has_method (map to_upper (method ∷ additional)) m

has_method-append :
    (xs : List Bytes) (s m : Bytes)
    → has_method (xs ++ s ∷ []) m ≡ (has_method xs m || bytes_eq s m)
unfolding has_method
has_method-append [] s m = ground arith
has_method-append (x ∷ xs) s m = ground (arith, has_method-append xs s m)

add_method-has :
    (s : Bytes) (xs : List Bytes) (m : Bytes)
    → has_method (add_method s xs) m ≡ (has_method xs m || bytes_eq s m)
add_method-has s xs m = ground (arith, has_method-append xs s m, bytes_eq_iff s m)

add_methods-has :
    (ms xs : List Bytes) (m : Bytes)
    → has_method (add_methods ms xs) m ≡ (has_method xs m || has_method (map to_upper ms) m)
unfolding has_method
add_methods-has [] xs m = ground arith
add_methods-has (s ∷ ms) xs m =
    add_methods-has ms (add_method (to_upper s) xs) m
    ∙ ground (arith, add_method-has (to_upper s) xs m)

supported_of-has :
    (method : Bytes) (additional : List Bytes) (m : Bytes)
    → has_method (supported_of method additional) m ≡ (
        is_named method additional m
        || (bytes_eq method_head m && is_named method additional method_get))
unfolding supported_of
supported_of-has method additional m = ground (
  arith,
  add_methods-has (method ∷ additional) [] m,
  add_methods-has (method ∷ additional) [] method_get,
  add_method-has method_head (add_methods (method ∷ additional) []) m,
)

abbrev pub is_allowed : Bytes → List Bytes → Bytes → Bool
is_allowed method additional m =
    is_named method additional m
    || (bytes_eq method_head m && is_named method additional method_get)

-- A request is handed to the handler, which then decides all, exactly if its method is one of those given in
-- upper case, or HEAD where GET is one of them; any other gets the Allow header, the error 405, and nothing
-- of the handler.
pub supported_methods_lem :
    (method : Bytes) (additional : List Bytes) (name : Bytes) (next : Handler) (m : Bytes)
    → supported_methods method additional name next m ≡ (
        if is_allowed method additional m then next m else (
          set_header (codes "Allow") (join b',' (sort (supported_of method additional))) ∷ [],
          done (some (raw_error method_not_allowed not_supported)),
        ))
unfolding supported_methods
supported_methods_lem method additional name next m = rw (supported_of-has method additional m)
