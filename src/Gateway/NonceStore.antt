-- ===== src/Gateway/NonceStore.antt =====
-- services/verify-gateway/src/services/nonce-store.ts. Instants are milliseconds; `Date.now()` is
-- an argument of the operations that read it. The timer that calls `cleanup` is not modelled.
pub mod Laws
use zk_dpp_royalty_protocol.Common.{
  ℕ, suc, ◌+◌, String, Bool, true, false, List, [], ◌∷◌, ltb, length, if◌then◌else◌,
}
use zk_dpp_royalty_protocol.Common.JsMap

pub record NonceEntry : Type 0 where
  pub nonce : String
  pub timestamp : ℕ
  pub predicate_id : String

pub record NonceStore : Type 0 where
  pub nonces : List (String × NonceEntry)
  pub window_ms : ℕ

pub new : ℕ → NonceStore
new window_ms = record { nonces = []; window_ms = window_ms }

unfoldable pub set_window_ms : NonceStore → ℕ → NonceStore
set_window_ms s window_ms = record s { window_ms = window_ms }

abbrev pub new_entry : (now : ℕ) → String → String → NonceEntry
new_entry now nonce predicate_id = record {
  nonce = nonce;
  timestamp = now;
  predicate_id = predicate_id;
}

unfoldable pub check_and_store : NonceStore → (now : ℕ) → String → String → Bool × NonceStore
check_and_store s now nonce predicate_id =
    if JsMap.has nonce s.nonces
    then (false, s)
    else (true, record s { nonces = JsMap.set nonce (new_entry now nonce predicate_id) s.nonces })

-- `entry.timestamp < now - windowMs`, over the integers
abbrev pub is_expired : (now window : ℕ) → NonceEntry → Bool
is_expired now window entry = ltb (entry.timestamp + window) now

-- The loop of `cleanup`: what is left of the entries, and how many were deleted.
sweep : (now window : ℕ) → List (String × NonceEntry) → List (String × NonceEntry) × ℕ
sweep now window [] = ([], 0)
sweep now window ((nonce, entry) ∷ rest) =
    let (left, removed) = sweep now window rest in
    if is_expired now window entry then (left, suc removed) else ((nonce, entry) ∷ left, removed)

unfoldable pub cleanup : NonceStore → (now : ℕ) → ℕ × NonceStore
unfolding sweep
cleanup s now =
    let (left, removed) = sweep now s.window_ms s.nonces in (removed, record s { nonces = left })

pub size : NonceStore → ℕ
size s = length s.nonces

pub clear : NonceStore → NonceStore
clear s = record s { nonces = [] }
