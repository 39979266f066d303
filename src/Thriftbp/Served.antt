-- ===== src/Thriftbp/Served.antt =====
-- How a request to a server of thriftbp/server.go ends, whatever its handler does.
use baseplate_go.Common.{ℕ, ◌+◌, ◌≡◌, refl, ap, ◌∙◌, Bool, false, [], ◌∷◌, Option, some}
use baseplate_go.Common.Int.{ℤ, pos, ◌+ℤ◌, ◌-ℤ◌, int_laws}
use baseplate_go.Thriftbp.Errors.{Failure}
use baseplate_go.Thriftbp.Middlewares.{
  Metrics, Ended, done, panicked, Handler, Names, labels_of, error_of, observe, start_request,
  prometheus_server_middleware, recovered, recover_panik, abandoned, abandon_if,
  abandon_canceled_requests, wrap_processor,
}

-- What the caller gets for how the handler ends.
abbrev pub answer : (ℕ → Failure) → Failure → Ended → Bool × Option Failure
answer wrap abandon (done fine e) = (fine, abandon_if abandon e)
answer wrap abandon (panicked v) = (false, abandon_if abandon (some (wrap v)))

add_sub : (z : ℤ) → (z +ℤ pos 1) -ℤ pos 1 ≡ z
add_sub z = omega int_laws

-- The metrics after the request, from those after the handler.
abbrev after : Names → (ℕ → Failure) → Failure → Metrics × Ended → Metrics
after names wrap abandon (m, done fine e) = observe names (abandon_if abandon e) m
after names wrap abandon (m, panicked v) =
    observe names (abandon_if abandon (some (wrap v))) (record m { recovered = m.recovered + 1 })

module _ (names : Names) (wrap : ℕ → Failure) (abandon : Failure) where
  abbrev pub serve : Handler → Handler
  serve = wrap_processor (
      prometheus_server_middleware names
      ∷ abandon_canceled_requests abandon
      ∷ recover_panik wrap
      ∷ [])

  abbrev Served : Metrics × Ended → Metrics × Ended → Type 0
  Served inner outer =
      let (fine, e) = answer wrap abandon inner.1 in
      (outer ≡ (after names wrap abandon inner, done fine e))
      × ((after names wrap abandon inner).active ≡ inner.0.active -ℤ pos 1)
      × ((after names wrap abandon inner).requests ≡ labels_of names e ∷ inner.0.requests)

  inner-Served :
      (inner : Metrics × Ended)
      → Served inner (
          let (m', e) = recovered wrap inner in
          (observe names (error_of (abandoned abandon e)) m', abandoned abandon e))
  inner-Served (m, done fine e) = (refl, refl, refl)
  inner-Served (m, panicked v) = (refl, refl, refl)

  -- A request through the Prometheus, the abandoning and the recovering middleware never ends with a panic: a
  -- handler that panics is answered with false and an error, and any other with its own answer, of which an
  -- error for a canceled context becomes the one to abandon the request. If the handler leaves the number of
  -- active requests as it finds it, so does the request, and it adds one request to the counter, with the labels
  -- of the error that is answered.
  pub serve_lem :
      (handler : Handler) (m : Metrics)
      → (handler (start_request m)).0.active ≡ (start_request m).active
      → (m' : Metrics) × (serve handler m ≡ (
        m',
        done
            (answer wrap abandon (handler (start_request m)).1).0
            (answer wrap abandon (handler (start_request m)).1).1,
      ))
        × (m'.active ≡ m.active)
        × (m'.requests
            ≡ labels_of names (answer wrap abandon (handler (start_request m)).1).1
              ∷ (handler (start_request m)).0.requests)
  unfolding prometheus_server_middleware abandon_canceled_requests recover_panik
  serve_lem handler m kept =
      let (ends, active, requests) = inner-Served (handler (start_request m)) in
      (
        after names wrap abandon (handler (start_request m)),
        ends,
        active ∙ ap (λ z. z -ℤ pos 1) kept ∙ add_sub m.active,
        requests,
      )
