-- ===== src/Gateway/NonceStore/Laws.antt =====
-- What the operations of the nonce store do to each nonce.
use zk_dpp_royalty_protocol.Common.{
  ℕ, ◌+◌, ◌≤◌, String, ◌≡◌, refl, Bool, not, Option, some, List, [], ◌∷◌, arith, length, ◌==◌,
  eq_iff, if◌then◌else◌, or_else,
}
use zk_dpp_royalty_protocol.Common.JsMap
use zk_dpp_royalty_protocol.Gateway.NonceStore.{
  NonceEntry, NonceStore, new_entry, check_and_store, is_expired, sweep, cleanup, size,
}

abbrev pub is_fresh : (now window : ℕ) → String → NonceEntry → Bool
is_fresh now window nonce entry = not (is_expired now window entry)

-- The entry that the store holds for a nonce.
unfoldable pub entry_of : NonceStore → String → Option NonceEntry
entry_of s nonce = JsMap.get nonce s.nonces

sweep-keep :
    (now window : ℕ) (m : List (String × NonceEntry))
    → (sweep now window m).0 ≡ JsMap.keep (is_fresh now window) m
unfolding sweep
sweep-keep now window [] = refl
sweep-keep now window ((nonce, entry) ∷ m) = ground (arith, sweep-keep now window m)

sweep-count :
    (now window : ℕ) (m : List (String × NonceEntry))
    → (sweep now window m).1 + length (sweep now window m).0 ≡ length m
unfolding sweep
sweep-count now window [] = omega arith
sweep-count now window ((nonce, entry) ∷ m) = ground (arith, sweep-count now window m)

abbrev pub IsStore : NonceStore → Type 0
IsStore s = JsMap.IsMap s.nonces

-- After a cleanup a nonce is known exactly if it was known and its entry is not older than the
-- window; the entry is unchanged.
pub entry_of-cleanup :
    (s : NonceStore) (now : ℕ) (nonce : String)
    → IsStore s
    → entry_of (cleanup s now).1 nonce
      ≡ JsMap.kept (is_fresh now s.window_ms) nonce (entry_of s nonce)
unfolding entry_of cleanup
entry_of-cleanup s now nonce h =
    rw (sweep-keep now s.window_ms s.nonces) (JsMap.get-keep _ nonce s.nonces h)

-- The number that `cleanup` returns is the number of entries that it deleted.
pub size-cleanup : (s : NonceStore) (now : ℕ) → (cleanup s now).0 + size (cleanup s now).1 ≡ size s
unfolding cleanup size
size-cleanup s now = sweep-count now s.window_ms s.nonces

pub cleanup-IsStore : (s : NonceStore) (now : ℕ) → IsStore s → IsStore (cleanup s now).1
unfolding cleanup
cleanup-IsStore s now h = rw (sweep-keep now s.window_ms s.nonces) (JsMap.keep-IsMap _ s.nonces h)

pub window_ms-cleanup : (s : NonceStore) (now : ℕ) → (cleanup s now).1.window_ms ≡ s.window_ms
unfolding cleanup
window_ms-cleanup s now = refl

-- An entry that is not older than the window survives.
pub entry_of-cleanup-some :
    (s : NonceStore) (now : ℕ) (nonce : String) (e : NonceEntry)
    → entry_of s nonce ≡ some e
    → now ≤ e.timestamp + s.window_ms
    → entry_of (cleanup s now).1 nonce ≡ some e
unfolding entry_of cleanup
entry_of-cleanup-some s now nonce e h le =
    rw (sweep-keep now s.window_ms s.nonces)
      (JsMap.get-keep-some _ nonce e s.nonces h (ground arith))

module _ (s : NonceStore) (now : ℕ) (nonce predicate_id : String) where
  -- A nonce is accepted exactly if the store does not hold it.
  pub check_and_store-answer :
      (check_and_store s now nonce predicate_id).0 ≡ not (JsMap.has nonce s.nonces)
  unfolding check_and_store
  check_and_store-answer = ground arith

  -- The nonce is known afterwards, by its old entry if it has one, and no other nonce changes.
  pub entry_of-check_and_store :
      (k : String)
      → entry_of (check_and_store s now nonce predicate_id).1 k ≡ (
          if nonce == k
          then some (or_else (entry_of s nonce) (new_entry now nonce predicate_id))
          else entry_of s k)
  unfolding check_and_store entry_of
  entry_of-check_and_store k =
      ground
        (arith, eq_iff nonce k, JsMap.get-set nonce k (new_entry now nonce predicate_id) s.nonces)

  pub check_and_store-IsStore : IsStore s → IsStore (check_and_store s now nonce predicate_id).1
  unfolding check_and_store
  check_and_store-IsStore h =
      ground (arith, JsMap.set-IsMap nonce (new_entry now nonce predicate_id) s.nonces h)

  pub window_ms-check_and_store :
      (check_and_store s now nonce predicate_id).1.window_ms ≡ s.window_ms
  unfolding check_and_store
  window_ms-check_and_store = ground arith
