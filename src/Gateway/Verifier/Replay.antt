-- ===== src/Gateway/Verifier/Replay.antt =====
-- Replay protection over histories of calls and of cleanups by the timer.
use zk_dpp_royalty_protocol.Common.{
  ℕ, ◌+◌, ◌≤◌, ◌<◌, String, ◌≡◌, ◌≢◌, ◌∙◌, ◌⊎◌, inl, inr, none, some, List, [], ◌∷◌, arith, eq_refl,
  Bool-cases, ltb, ltb→lt,
}
use zk_dpp_royalty_protocol.Common.Results.{ok}
use zk_dpp_royalty_protocol.Predicates.{PredicateDefinition}
use zk_dpp_royalty_protocol.Gateway.Types.{ProofPackage, VerificationReceipt, success}
use zk_dpp_royalty_protocol.Gateway.NonceStore.{NonceEntry, NonceStore, new_entry, cleanup}
use zk_dpp_royalty_protocol.Gateway.NonceStore.Laws.{
  IsStore, entry_of, entry_of-cleanup, entry_of-cleanup-some, window_ms-cleanup,
}
use zk_dpp_royalty_protocol.Gateway.Verifier.{
  Env, Readings, predicate_key, created_at, checks, create_receipt, verify_zk_proof, verify,
}
use zk_dpp_royalty_protocol.Gateway.Verifier.Laws.{
  IsIssued, verify_iff, entry_of-verify, verify-IsStore, window_ms-verify, create_receipt_sound,
  Passes-checks,
}

pub data Event : Type 0 where
  call : Readings → ProofPackage → Event
  timer : ℕ → Event

unfoldable pub step : Env → NonceStore → Event → NonceStore
step env s (call r pkg) = (verify env r s pkg).1
step env s (timer now) = (cleanup s now).1

unfoldable pub run : Env → NonceStore → List Event → NonceStore
run env s [] = s
run env s (e ∷ es) = run env (step env s e) es

-- The clock does not run backwards from `start` over the events to `end`.
abbrev pub InOrder : ℕ → List Event → ℕ → Type 0
InOrder start [] end = start ≤ end
InOrder start (call r pkg ∷ es) end =
    (start ≤ r.now) × (r.now ≤ r.stored_at) × InOrder r.stored_at es end
InOrder start (timer now ∷ es) end = (start ≤ now) × InOrder now es end

-- The nonce was used at `used` and either is still known or left the window at time `t`.
abbrev Remembers : NonceStore → String → (used window t : ℕ) → Type 0
Remembers s nonce used window t =
    (used + window < t) ⊎ ((e : NonceEntry) × (entry_of s nonce ≡ some e) × (used ≤ e.timestamp))

module _ (env : Env) (nonce : String) (used window : ℕ) where
  timer-Remembers :
      (s : NonceStore) (t now : ℕ)
      → s.window_ms ≡ window
      → t ≤ now
      → Remembers s nonce used window t
      → Remembers (cleanup s now).1 nonce used window now
  timer-Remembers s t now w le (inl late) = inl (omega arith)
  timer-Remembers s t now w le (inr (e, known, used_le)) =
      elim (Bool-cases (ltb (used + window) now)) [
        | inl late ↦ inl (ltb→lt _ _ late)
        | inr early ↦ inr (e, entry_of-cleanup-some s now nonce e known (ground arith), used_le)
      ]

  call-Remembers :
      (s : NonceStore) (t : ℕ) (r : Readings) (pkg : ProofPackage)
      → t ≤ r.now
      → r.now ≤ r.stored_at
      → Remembers s nonce used window t
      → Remembers (verify env r s pkg).1 nonce used window r.stored_at
  call-Remembers s t r pkg le le' (inl late) = inl (omega arith)
  call-Remembers s t r pkg le le' (inr (e, known, used_le)) =
      inr (e, ground (arith, entry_of-verify env r pkg s nonce), used_le)

  run-Remembers :
      (s : NonceStore) (start end : ℕ) (es : List Event)
      → s.window_ms ≡ window
      → InOrder start es end
      → Remembers s nonce used window start
      → Remembers (run env s es) nonce used window end
  unfolding run step
  run-Remembers s start end [] w le (inl late) = inl (omega arith)
  run-Remembers s start end [] w le (inr known) = inr known
  run-Remembers s start end (call r pkg ∷ es) w (le, le', order) h =
      run-Remembers (verify env r s pkg).1 r.stored_at end es (window_ms-verify env r pkg s ∙ w)
        order (call-Remembers s start r pkg le le' h)
  run-Remembers s start end (timer now ∷ es) w (le, order) h =
      run-Remembers (cleanup s now).1 now end es (window_ms-cleanup s now ∙ w) order
        (timer-Remembers s start now w le h)

module _ (env : Env) (r : Readings) (s : NonceStore) (pkg : ProofPackage) where
  first_use-Remembers :
      (p : PredicateDefinition)
      → checks env r.now pkg ≡ ok p
      → entry_of s pkg.nonce ≡ none
      → Remembers
          (verify env r s pkg).1
          pkg.nonce
          r.stored_at
          env.config.nonce_window_ms
          r.stored_at
  first_use-Remembers p passed fresh = inr (
    new_entry r.stored_at pkg.nonce (predicate_key pkg),
    ground (arith, entry_of-verify env r pkg s pkg.nonce, eq_refl pkg.nonce),
    omega arith,
  )

  -- Once a package has passed the first three steps with a nonce that was not known (whether or not
  -- its proof was accepted), no later call gets a receipt for a package with that nonce that was
  -- generated no later than the nonce was stored. This holds after any calls and cleanups in
  -- between, while the clock does not run backwards, and if the store's window is the configured
  -- one.
  pub no_replay :
      (p : PredicateDefinition) (es : List Event) (r' : Readings) (pkg' : ProofPackage)
      (receipt : VerificationReceipt)
      → s.window_ms ≡ env.config.nonce_window_ms
      → checks env r.now pkg ≡ ok p
      → entry_of s pkg.nonce ≡ none
      → InOrder r.stored_at es r'.now
      → pkg'.nonce ≡ pkg.nonce
      → created_at pkg' ≤ r.stored_at
      → (verify env r' (run env (verify env r s pkg).1 es) pkg').0 ≢ success receipt
  no_replay p es r' pkg' receipt w passed fresh order same generated got =
      let issued = (verify_iff env r' pkg' (run env (verify env r s pkg).1 es) receipt).0 got in
      let remembered =
        run-Remembers env pkg.nonce r.stored_at env.config.nonce_window_ms (verify env r s pkg).1
          r.stored_at r'.now es (window_ms-verify env r pkg s ∙ w) order
          (first_use-Remembers p passed fresh) in
      contradiction remembered issued
    where
      contradiction :
          Remembers
            (run env (verify env r s pkg).1 es)
            pkg.nonce
            r.stored_at
            env.config.nonce_window_ms
            r'.now
          → IsIssued env r' (run env (verify env r s pkg).1 es) pkg' receipt
          → ⊥
      contradiction (inl late) issued = omega (arith, issued.passes.not_late)
      contradiction (inr (e, known, le)) issued = ground (arith, issued.fresh, known)

  -- A package that was generated after its nonce was stored (by a clock that runs ahead, which the
  -- window allows) gets a second receipt: a cleanup once the window has passed drops its nonce, and
  -- its time is still in the window.
  pub replay_after_cleanup :
      (receipt receipt' : VerificationReceipt) (swept : ℕ) (r' : Readings)
      → IsStore s
      → s.window_ms ≡ env.config.nonce_window_ms
      → (verify env r s pkg).0 ≡ success receipt
      → r.stored_at + env.config.nonce_window_ms < swept
      → r.now ≤ r.stored_at
      → swept ≤ r'.now
      → r'.now ≤ created_at pkg + env.config.nonce_window_ms
      → create_receipt env r' pkg ≡ ok receipt'
      → (verify env r' (cleanup (verify env r s pkg).1 swept).1 pkg).0 ≡ success receipt'
  replay_after_cleanup receipt receipt' swept r' store w got late le le' in_window created =
      let issued = (verify_iff env r pkg s receipt).0 got in
      let (sign, key, signature, signed, receipt_is) =
        create_receipt_sound env r' pkg receipt' created in
      (verify_iff env r' pkg (cleanup (verify env r s pkg).1 swept).1 receipt').1 (record {
        predicate = issued.predicate;
        passes = record {
          proof = issued.passes.proof;
          name = issued.passes.name;
          version = issued.passes.version;
          root = issued.passes.root;
          found = issued.passes.found;
          not_late = in_window;
          not_early = omega (arith, issued.passes.not_early);
        };
        fresh = ground (
          arith,
          entry_of-cleanup (verify env r s pkg).1 swept pkg.nonce
              (verify-IsStore env r pkg s store),
          window_ms-verify env r pkg s,
          entry_of-verify env r pkg s pkg.nonce,
          Passes-checks env r.now pkg issued.predicate issued.passes,
          issued.fresh,
          eq_refl pkg.nonce,
        );
        accepted = issued.accepted;
        sign = sign;
        key = key;
        signature = signature;
        signed = signed;
        receipt_is = receipt_is;
      })

  -- The nonce and the time of a package are tied to nothing else in it: after a receipt, the same
  -- proof under an unknown nonce and a current time gets another receipt, if the backend's answer
  -- does not depend on the two fields.
  pub renonced_gets_receipt :
      (receipt receipt' : VerificationReceipt) (s' : NonceStore) (r' : Readings) (nonce : String)
      (generated_at : ℕ)
      → let pkg' = record pkg { nonce = nonce; generated_at = generated_at } in
        (verify env r s pkg).0 ≡ success receipt
        → ((p : PredicateDefinition)
            → (verify_zk_proof env p pkg').valid ≡ (verify_zk_proof env p pkg).valid)
        → entry_of s' nonce ≡ none
        → r'.now ≤ created_at pkg' + env.config.nonce_window_ms
        → created_at pkg' ≤ r'.now + env.config.nonce_window_ms
        → create_receipt env r' pkg' ≡ ok receipt'
        → (verify env r' s' pkg').0 ≡ success receipt'
  renonced_gets_receipt receipt receipt' s' r' nonce generated_at got same fresh late early
        created =
      let issued = (verify_iff env r pkg s receipt).0 got in
      let pkg' : ProofPackage = record pkg { nonce = nonce; generated_at = generated_at } in
      let (sign, key, signature, signed, receipt_is) =
        create_receipt_sound env r' pkg' receipt' created in
      (verify_iff env r' pkg' s' receipt').1 (record {
        predicate = issued.predicate;
        passes = record {
          proof = issued.passes.proof;
          name = issued.passes.name;
          version = issued.passes.version;
          root = issued.passes.root;
          found = unfold predicate_key in issued.passes.found;
          not_late = late;
          not_early = early;
        };
        fresh = fresh;
        accepted = same issued.predicate ∙ issued.accepted;
        sign = sign;
        key = key;
        signature = signature;
        signed = signed;
        receipt_is = receipt_is;
      })
