-- ===== src/Application/Provisioning/Redelivery.antt =====
-- A pointer that is delivered again.
use prism_agent.Prelude.{
  String, ◌≡◌, ◌∙◌, sym, refl, true, Option, elem, arith, Bool-cases, inl, inr, eq_refl,
}
use prism_agent.Domain.Json.{Fields}
use prism_agent.Domain.Provisioning.{
  FeatureProvisioningPointerEvent, FeatureProvisioningPayload, worker_idempotency_key,
}
use prism_agent.Infrastructure.StateStore.{
  MemoryStateStore, check_idempotency_key, record_idempotency_key,
}
use prism_agent.Application.Effects.{Outside, Runtime, Action, return, pure, store, ◌>>=◌}
use prism_agent.Application.Effects.Hoare.{
  Hoare, Hoare-bind, Hoare-gets, Hoare-if, Hoare-pure, Hoare-modify, Hoare-of_Keeps, Hoare-return,
  Hoare-weaken,
}
use prism_agent.Application.Provisioning.{
  FeatureProvisioningResult, dispatch_seed, skipped, handle_pointer,
}

check-record :
    (key : String) (s : MemoryStateStore)
    → check_idempotency_key (record_idempotency_key key s) key ≡ true
unfolding check_idempotency_key record_idempotency_key
check-record key s = elim (Bool-cases (elem key s.idempotency_keys)) [
  | inl old ↦ rw old old
  | inr new ↦ rw new (ground (arith, eq_refl key))
]

abbrev Any : Runtime → Type 0
Any s = Unit {0}

-- Whatever an action does.
anything : {A : Type 0} (m : Action A) → Hoare Any m (λ a s. Any s) Any
anything m = Hoare-of_Keeps m (record { at = λ s h. tt }) (λ a s h. tt) (λ s h. tt)

module _ (world : Outside) (parse : Fields → Option FeatureProvisioningPayload)
    (pointer : FeatureProvisioningPointerEvent) where
  abbrev Recorded : Runtime → Type 0
  Recorded s = check_idempotency_key s.store (worker_idempotency_key pointer) ≡ true

  recorded :
      Hoare Any
        (store (record_idempotency_key (worker_idempotency_key pointer)))
        (λ u s. Recorded s)
        Any
  unfolding store
  recorded = Hoare-modify _ (λ s h. check-record (worker_idempotency_key pointer) s.store)

  dispatch_seed-Recorded : Hoare Any (dispatch_seed world parse pointer) (λ r s. Recorded s) Any
  unfolding dispatch_seed
  dispatch_seed-Recorded =
      Hoare-bind (λ e s. Any s) _ _ (anything _)
        (λ event.
          Hoare-bind (λ e s. Any s) _ _ (anything _)
            (λ envelope.
              Hoare-bind (λ u s. Any s) _ _ (anything _)
                (λ u. Hoare-bind (λ v s. Recorded s) _ _ recorded (λ v. Hoare-pure _ (λ s h. h)))))

  handle_pointer-Recorded : Hoare Any (handle_pointer world parse pointer) (λ r s. Recorded s) Any
  unfolding handle_pointer
  handle_pointer-Recorded = Hoare-gets _ _ (λ known.
      Hoare-if known _ _ (λ e. Hoare-pure _ (λ s h. sym h.1 ∙ e))
        (λ e. Hoare-weaken _ _ (λ s h. tt) dispatch_seed-Recorded))

  known-skipped :
      (s : Runtime)
      → Recorded s
      → handle_pointer world parse pointer s ≡ (return (skipped world parse pointer), s)
  unfolding handle_pointer pure ◌>>=◌
  known-skipped s known = rw known refl

  -- A pointer whose handling returned is a duplicate from then on: a second handling, in the state that
  -- the first left, says so and changes nothing.
  pub handle_pointer-handle_pointer :
      (s : Runtime) (r : FeatureProvisioningResult)
      → (handle_pointer world parse pointer s).0 ≡ return r
      → let s' = (handle_pointer world parse pointer s).1 in
        handle_pointer world parse pointer s' ≡ (return (skipped world parse pointer), s')
  handle_pointer-handle_pointer s r e =
      let known =
        Hoare-return (handle_pointer world parse pointer) handle_pointer-Recorded s tt e in
      known-skipped _ known
