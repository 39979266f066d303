-- ===== src/Httpbp/Calls.antt =====
-- Tests of httpbp/errors.go, httpbp/middlewares.go and httpbp/client_middlewares.go.
use baseplate_go.Common.{
  ◌≡◌, ◌≤◌, ◌+◌, refl, true, [], ◌∷◌, codes, bytes_eq, none, some, ltb, if◌then◌else◌, arith,
}
use baseplate_go.Common.Int.{pos, ◌+ℤ◌}
use baseplate_go.Std.Float64.{of_int, mul, to_int, rounded}
use baseplate_go.Httpbp.Errors.{
  error_for_code, string_of, with_raw_response, gone, teapot, method_not_allowed, not_found,
  seconds_after, internal_server_error,
}
use baseplate_go.Httpbp.Retries.{says_retry}
use baseplate_go.Httpbp.Limits.{Limiter, enter, Reach, begins, enters, max_concurrency_lem}
use baseplate_go.Httpbp.Headers.{join}
use baseplate_go.Httpbp.Middlewares.{
  Handler, header, body, set_header, done, panicked, wrap, raw_error, supported_methods,
  supported_of, has_method, recover_panik, prometheus_server_metrics, record_status_code,
  not_supported, sort, insert_sorted, less,
}
use baseplate_go.Httpbp.Middlewares.Methods.{is_allowed, supported_methods_lem}

a_teapot : error_for_code 418 ≡ teapot
unfolding error_for_code
a_teapot = refl

unknown_code : error_for_code 299 ≡ internal_server_error
unfolding error_for_code
unknown_code = refl

-- The reason of 405 is that of 404.
same_reason : method_not_allowed.reason ≡ not_found.reason
same_reason = refl

raw_text : string_of (with_raw_response "moved" gone) ≡ "moved"
raw_text = refl

after_half_a_second : says_retry 500 (seconds_after (of_int (pos 1))) ≡ true
unfolding of_int mul to_int rounded
after_half_a_second = refl

abbrev one_inside : Limiter
one_inside = record { active_requests = pos 1; inside = 1; refused = 0 }

one_enters : Reach (pos 1) one_inside
unfolding enter ◌+ℤ◌
one_enters = enters begins refl

max_concurrency_lem_example :
    (1 ≤ 1)
    × (◌≡◌ (pos 1) (pos (1 + 0)))
    × ((enter (pos 1) one_inside).inside ≡ (if ltb (1 + 0) 1 then 1 + 1 else 1))
max_concurrency_lem_example = max_concurrency_lem 1 (omega arith) one_enters

-- Writes a code, and then panics where it is asked to.
abbrev handler : Handler
handler m =
    if bytes_eq m (codes "POST")
    then (body 3 ∷ [], panicked 8)
    else (header 201 ∷ body 4 ∷ header 500 ∷ [], done none)

supported_methods_lem_case :
    supported_methods (codes "get") (codes "Put" ∷ []) (codes "e") handler (codes "DELETE") ≡ (
      if is_allowed (codes "get") (codes "Put" ∷ []) (codes "DELETE")
      then handler (codes "DELETE")
      else (
        set_header
              (codes "Allow")
              (join b',' (sort (supported_of (codes "get") (codes "Put" ∷ []))))
            ∷ [],
        done (some (raw_error method_not_allowed not_supported)),
      ))
supported_methods_lem_case =
    supported_methods_lem (codes "get") (codes "Put" ∷ []) (codes "e") handler (codes "DELETE")

allow_header :
    join b',' (sort (supported_of (codes "get") (codes "Put" ∷ []))) ≡ codes "GET,HEAD,PUT"
unfolding join sort insert_sorted less supported_of has_method bytes_eq
allow_header = refl

panic_is_500 :
    wrap (codes "e") handler (recover_panik ∷ []) (codes "POST")
    ≡ (body 3 ∷ [], done (some (raw_error internal_server_error 8)))
unfolding wrap recover_panik bytes_eq
panic_is_500 = refl

-- The first code that is written goes out, but the last one is observed.
last_code_observed : (prometheus_server_metrics handler (codes "GET")).1.code ≡ 500
unfolding prometheus_server_metrics bytes_eq
last_code_observed = refl

first_code_counted : (record_status_code handler (codes "GET")).1 ≡ "2xx"
unfolding record_status_code bytes_eq
first_code_counted = refl
