-- ===== src/Live/Binance/Opening.antt =====
-- How the submission of an order can end.
use Prim.Native.String.{String}
use project_alpha.Common.{
  ℕ, ◌≡◌, ◌↔◌, refl, arith, true, Option, Result, ok, err, ◌⊎◌, Bool-cases, Result-cases, inl, inr,
}
use project_alpha.Float.{Float}
use project_alpha.Trading.Executor.{OrderRequest, OrderResult}
use project_alpha.Live.Filters.{Decimals, or_else}
use project_alpha.Live.Binance.{
  ApiFailure, refuses, fails, request_failed, ApiCall, ApiResponse, new_order, Binance,
  signed_request, is_large_enough, rounded, is_accepted,
}
use project_alpha.Live.Binance.Orders.{
  submit_order, opening_order, order_id_of, answered, submitted, refused_order,
  min_notional_failure,
}

module _ {W X : Type 0} ⦃f : Float W⦄ (d : Decimals W)
    (exchange : ApiCall W → X → Result ApiFailure (ApiResponse W) × X) (fresh_id : X → ℕ × X) where
  -- The exchange answers the order, with a status that says that it took it.
  abbrev pub TakesOrder : ApiCall W → X → Type 0
  TakesOrder call x =
      (a : ApiResponse W) × ((exchange call x).0 ≡ ok a)
      × (is_accepted (or_else "UNKNOWN" a.status) ≡ true)

  -- The exchange is asked, and no answer of it can be read.
  abbrev pub FailsWith : String → ApiCall W → X → Type 0
  FailsWith e call x = (exchange call x).0 ≡ err (fails e)

  answered_ends :
      (id : ℕ) (r : OrderRequest W) (q : W) (b : Binance W) (call : ApiCall W) (x : X)
      → b.connected ≡ true
      → let out =
          answered
            (refused_order id r.symbol r.side)
            (submitted id r q)
            (signed_request exchange b call x) in
        ((result : OrderResult W) × (out.0 ≡ ok result)
          × ((result.success ≡ true) ↔ TakesOrder call x))
        ⊎ ((e : String) × (out.0 ≡ err (request_failed e)) × FailsWith e call x)
  unfolding signed_request submitted refused_order
  answered_ends id r q b call x up = elim (Result-cases (exchange call x).0) [
    | inl (a, e) ↦ inl (
      submitted id r q a,
      rw (up, e) refl,
      (λ h. (a, e, h), λ (a', e', h). let same : a ≡ a' = cc in rw same h),
    )
    | inr (refuses y, e) ↦ inl (
      refused_order id r.symbol r.side y,
      rw (up, e) refl,
      (λ h. absurd (ground arith), λ (a, e', h). absurd (ground arith)),
    )
    | inr (fails y, e) ↦ inr (y, rw (up, e) refl, e)
  ]

  -- A connected executor that submits an order ends in one of two ways. It returns a result, which
  -- is a success exactly when the order is worth at least the minimum notional of its symbol and
  -- the exchange answers it with a status that says that it took it; a refusal of the exchange is
  -- such a result. Or it raises, and then the order is worth enough and the exchange's answer to
  -- it cannot be had or read. The order asks for the quantity that the symbol's filters round to.
  pub submit_order_ends :
      (b : Binance W) (r : OrderRequest W) (order_type : String) (client_order_id : Option ℕ)
      (x : X)
      → b.connected ≡ true
      → let q = rounded d b r.symbol r.quantity in
        let (id, x') = order_id_of fresh_id client_order_id x in
        let call = new_order (opening_order b r order_type q id) in
        let out = submit_order d exchange fresh_id b r order_type client_order_id x in
        ((result : OrderResult W) × (out.0 ≡ ok result)
          × ((result.success ≡ true)
              ↔ ((is_large_enough b r.symbol r.reference_price q ≡ true) × TakesOrder call x')))
        ⊎ ((e : String) × (out.0 ≡ err (request_failed e))
            × (is_large_enough b r.symbol r.reference_price q ≡ true)
            × FailsWith e call x')
  unfolding submit_order min_notional_failure
  submit_order_ends b r order_type client_order_id x up =
      let q = rounded d b r.symbol r.quantity in
      let (id, x') = order_id_of fresh_id client_order_id x in
      elim (Bool-cases (is_large_enough b r.symbol r.reference_price q)) [
        | inr small ↦ inl (
          min_notional_failure r.symbol r.side,
          rw small refl,
          (λ h. absurd (ground arith), λ h. absurd (ground arith)),
        )
        | inl large ↦
            elim (answered_ends id r q b (new_order (opening_order b r order_type q id)) x' up) [
              | inl (result, e, when) ↦
                  inl (result, rw large e, (λ h. (large, when.0 h), λ h. when.1 h.1))
              | inr (y, e, failed) ↦ inr (y, rw large e, large, failed)
            ]
      ]
