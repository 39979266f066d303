-- ===== src/Thriftbp/Deadlines.antt =====
-- What of a client's deadline arrives at the server (thriftbp/client_middlewares.go and
-- thriftbp/server_middlewares.go).
use baseplate_go.Common.{
  ℕ, ◌+◌, ◌-◌, ◌*◌, ◌/◌, ◌^◌, ◌≤◌, ◌<◌, ◌≡◌, ◌⊎◌, inl, inr, refl, sym, ap, subst, ◌∙◌, List, [],
  ◌∷◌, ◌++◌, Bytes, bytes_eq_iff, some, arith, if◌then◌else◌,
}
use baseplate_go.Common.Int.{pos, ◌+ℤ◌, ltb_ℤ}
use baseplate_go.Std.Instant.{Instant}
use baseplate_go.Std.Int64.{wrap_64_id, show}
use baseplate_go.Std.Decimal.{parse_int-show}
use baseplate_go.Thriftbp.Headers.{
  Thrift, IsThrift, add_client_header, header, header_or, header_deadline_budget,
}
use baseplate_go.Thriftbp.Budget.{
  millisecond, until, budget_of, with_budget, timeout_from, extract_deadline_budget,
}

-- The milliseconds to the deadline, rounded up.
abbrev rounded_up : ℕ → ℕ
rounded_up n = (n + (millisecond - 1)) / millisecond

until-pos :
    (now deadline : Instant)
    → now < deadline
    → deadline - now < 2 ^ 63
    → until now deadline ≡ pos (deadline - now)
until-pos now deadline h small = ground arith

+ℤ-pos : (a b : ℕ) → pos a +ℤ pos b ≡ pos (a + b)
unfolding ◌+ℤ◌
+ℤ-pos a b = ground arith

at_least_1 :
    (n : ℕ)
    → 0 < n
    → (if ltb_ℤ (pos (rounded_up n)) (pos 1) then pos 1 else pos (rounded_up n))
      ≡ pos (rounded_up n)
at_least_1 n h = let big : 0 < rounded_up n = omega arith in ground arith

budget_of-pos :
    (now deadline : Instant)
    → now < deadline
    → deadline - now + millisecond < 2 ^ 63
    → budget_of now deadline ≡ pos (rounded_up (deadline - now))
unfolding budget_of
budget_of-pos now deadline h small = rw (until-pos now deadline h (omega arith)) (
    rw (+ℤ-pos (deadline - now) (millisecond - 1)) (
      rw (wrap_64_id (pos (deadline - now + (millisecond - 1))) (omega arith))
        (at_least_1 (deadline - now) (omega arith))))

abbrev Member : Bytes → List Bytes → Type 0
Member key [] = ⊥
Member key (k ∷ ks) = (key ≡ k) ⊎ Member key ks

Member-last : (key : Bytes) (ks : List Bytes) → Member key (ks ++ key ∷ [])
Member-last key [] = inl refl
Member-last key (k ∷ ks) = inr (Member-last key ks)

module _ {Ctx : Type 0} (t : Thrift Ctx) (laws : IsThrift t) where
  add_client_header-get :
      (key value : Bytes) (ctx : Ctx)
      → t.get_header key (add_client_header t key value ctx) ≡ some value
  add_client_header-get key value ctx =
      laws.get-set_write_list key _ (t.set_header key value ctx)
      ∙ laws.get-set key key value ctx
      ∙ rw ((bytes_eq_iff key key).1 refl)

  -- A header in the write list of the client's context is one of the server's.
  abbrev pub Arrives : Ctx → Ctx → Type 0
  Arrives client server =
      (key : Bytes)
      → Member key (t.write_list client)
      → t.get_header key server ≡ t.get_header key client

  add_client_header-Arrives :
      (key value : Bytes) (ctx server : Ctx)
      → Arrives (add_client_header t key value ctx) server
      → header t key server ≡ some value
  add_client_header-Arrives key value ctx server arrives = ap (header_or t key server) (
      arrives key
        (subst (Member key) (sym (laws.write_list-set _ _)) (Member-last key (t.write_list ctx)))
      ∙ add_client_header-get key value ctx)

  timeout_from-show :
      (n : ℕ)
      → 0 < n
      → n * millisecond < 2 ^ 63
      → timeout_from t (some (show (pos n))) ≡ some (pos (n * millisecond))
  timeout_from-show n h small =
      rw (parse_int-show n (omega arith))
        (rw (wrap_64_id (pos (n * millisecond)) (omega arith)) (ground arith))

  -- A server that gets the headers in the write list of the client, whose context has a deadline in the
  -- future, less than 2 ^ 63 nanoseconds less a millisecond away, puts a timeout on its context that is not
  -- shorter than the time that the client has left, and longer by less than a millisecond.
  pub budget-Arrives :
      (now deadline : Instant) (client server : Ctx)
      → now < deadline
      → deadline - now + millisecond < 2 ^ 63
      → Arrives (with_budget t now (some deadline) client) server
      → (timeout : ℕ) × (extract_deadline_budget t server ≡ some (pos timeout))
        × (deadline ≤ now + timeout)
        × (now + timeout < deadline + millisecond)
  budget-Arrives now deadline client server h small arrives =
      let n = rounded_up (deadline - now) in
      (
        n * millisecond,
        ap (timeout_from t) (
              add_client_header-Arrives header_deadline_budget (show (budget_of now deadline))
                client server arrives
              ∙ ap (λ z. some (show z)) (budget_of-pos now deadline h small))
            ∙ timeout_from-show n (omega arith) (omega arith),
        omega arith,
        omega arith,
      )
