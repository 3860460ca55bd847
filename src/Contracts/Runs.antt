-- ===== src/Contracts/Runs.antt =====
-- Histories of calls of packages/contracts/src/client.ts against the abstract session, and what the
-- transactions look like.
use Prim.Native.String
use zk_dpp_royalty_protocol.Common.{
  ℕ, String, Bool, true, false, ◌&&◌, ◌≡◌, refl, sym, subst, ap, ◌∙◌, ◌⊎◌, inl, inr, Option, none,
  some, List, [], ◌∷◌, All, In, here, there, eqb, arith, if◌then◌else◌,
}
use zk_dpp_royalty_protocol.Common.Results.{Result, ok, err}
use zk_dpp_royalty_protocol.Contracts.Types.{
  ClientConfig, ContractCall, submit_statement, finalize_statement, dispute_statement,
  claim_payment, deposit, record_verification, approve, Transaction, Ethers, World,
}
use zk_dpp_royalty_protocol.Contracts.Client.{
  starts_with_0x, new_client, connected, connect, connect_with_key, to_bytes32,
}
use zk_dpp_royalty_protocol.Contracts.Writes.{
  Write, Session, and_then, run_write, call_of, transaction_of, attempt, world_of, embed,
  run_write-attempt, submits, finalizes, disputes, claims, deposits, records, approves,
}

pub data Op : Type 0 where
  link : (signer : String) → Op
  link_key : (private_key : String) → Op
  write : Write → Op

module _ (ethers : Ethers) (config : ClientConfig) where
  unfoldable pub perform : Op → World → World
  perform (link signer) w = (connect signer w).1
  perform (link_key private_key) w = (connect_with_key ethers private_key w).1
  perform (write wr) w = (run_write ethers wr w).1

  -- A new client after a history of calls, the latest first.
  unfoldable pub after : List Op → World
  after [] = record { client = new_client config; sent = [] }
  after (op ∷ ops) = perform op (after ops)

  abbrev link_result : Result String → Session → Session
  link_result (err e) s = s
  link_result (ok signer) s = record s { signer = some signer }

  -- The same history of the abstract session.
  abbrev pub step : Op → Session → Session
  step (link signer) s = record s { signer = some signer }
  step (link_key private_key) s = link_result (ethers.wallet private_key) s
  step (write wr) s = (attempt ethers config.addresses (call_of ethers wr) s).1

  abbrev pub session : List Op → Session
  session [] = record { signer = none; sent = [] }
  session (op ∷ ops) = step op (session ops)

  connect-world_of :
      (signer : String) (s : Session)
      → (connect signer (world_of config s)).1 ≡ world_of config (record s { signer = some signer })
  unfolding connect connected
  connect-world_of signer s = refl

  connect_with_key-world_of :
      (private_key : String) (s : Session)
      → (connect_with_key ethers private_key (world_of config s)).1
        ≡ world_of config (link_result (ethers.wallet private_key) s)
  unfolding connect_with_key connect connected
  connect_with_key-world_of private_key s = go (ethers.wallet private_key) refl
    where
      go :
          (r : Result String)
          → ethers.wallet private_key ≡ r
          → (connect_with_key ethers private_key (world_of config s)).1
            ≡ world_of config (link_result r s)
      go (err e) h = rw h refl
      go (ok signer) h = rw h refl

  perform-world_of :
      (op : Op) (s : Session) → perform op (world_of config s) ≡ world_of config (step op s)
  unfolding perform
  perform-world_of (link signer) s = connect-world_of signer s
  perform-world_of (link_key private_key) s = connect_with_key-world_of private_key s
  perform-world_of (write wr) s = ap (λ x. x.1) (run_write-attempt ethers config s.sent s.signer wr)

  pub after-session : (ops : List Op) → after ops ≡ world_of config (session ops)
  unfolding after new_client
  after-session [] = refl
  after-session (op ∷ ops) = ap (perform op) (after-session ops) ∙ perform-world_of op (session ops)

  -- After every history of calls the client is that of the abstract session with the same history,
  -- and a write method answers and acts as the session does: it throws and hands ethers nothing
  -- without a signer or with an amount that is no number, and else hands it the call once and gives
  -- back the receipt, or throws.
  pub run_write-Refines :
      (ops : List Op) (wr : Write)
      → (after ops ≡ world_of config (session ops))
        × (run_write ethers wr (after ops)
            ≡ embed config (attempt ethers config.addresses (call_of ethers wr) (session ops)))
  run_write-Refines ops wr = (
    after-session ops,
    ap (run_write ethers wr) (after-session ops)
        ∙ run_write-attempt ethers config (session ops).sent (session ops).signer wr,
  )

  -- A signer that a call of the history connected.
  abbrev pub IsConnected : List Op → String → Type 0
  IsConnected ops signer =
      In (link signer) ops
      ⊎ ((key : String) × In (link_key key) ops × (ethers.wallet key ≡ ok signer))

  -- A text of the length of 32 bytes in hexadecimal, which starts with `0x`; whether the rest are
  -- hexadecimal digits is left to ethers.
  abbrev pub IsHashText : String → Type 0
  IsHashText value = (starts_with_0x value ≡ true) × (String.len value ≡ 66)

  -- The identifier in a call, if it has one, has that form.
  abbrev pub HasIdentifier : ContractCall → Type 0
  HasIdentifier (submit_statement id supplier amount hash) = IsHashText id
  HasIdentifier (finalize_statement id) = IsHashText id
  HasIdentifier (dispute_statement id reason) = IsHashText id
  HasIdentifier claim_payment = Unit
  HasIdentifier (deposit amount) = Unit
  HasIdentifier (record_verification brand supplier amount receipt_id) = IsHashText receipt_id
  HasIdentifier (approve spender amount) = Unit

  abbrev pub IsProper : List Op → Transaction → Type 0
  IsProper ops tx =
      (signer : String) × IsConnected ops signer
      × (tx ≡ transaction_of ethers config.addresses signer tx.call)
      × HasIdentifier tx.call

  abbrev Holds : Result ContractCall → Type 0
  Holds (err e) = Unit
  Holds (ok call) = HasIdentifier call

  and_then-Holds :
      (r : Result ℕ) (k : ℕ → ContractCall)
      → ((n : ℕ) → HasIdentifier (k n))
      → Holds (and_then r λ n. ok (k n))
  and_then-Holds (err e) k h = tt
  and_then-Holds (ok n) k h = h n

  IsConnected-there :
      (op : Op) (ops : List Op) (signer : String)
      → IsConnected ops signer
      → IsConnected (op ∷ ops) signer
  IsConnected-there op ops signer (inl m) = inl (there m)
  IsConnected-there op ops signer (inr (key, m, h)) = inr (key, there m, h)

  All-IsProper-there :
      (op : Op) (ops : List Op) (txs : List Transaction)
      → All (IsProper ops) txs
      → All (IsProper (op ∷ ops)) txs
  All-IsProper-there op ops [] h = tt
  All-IsProper-there op ops (tx ∷ txs) ((signer, from, is, id), h) =
      ((signer, IsConnected-there op ops signer from, is, id), All-IsProper-there op ops txs h)

  module _ (law : (s : String) → IsHashText (ethers.keccak256_utf8 s)) where
    to_bytes32-IsHashText : (value : String) → IsHashText (to_bytes32 ethers value)
    unfolding to_bytes32
    to_bytes32-IsHashText value = go (starts_with_0x value) (eqb (String.len value) 66) refl refl
      where
        go :
            (b c : Bool)
            → starts_with_0x value ≡ b
            → eqb (String.len value) 66 ≡ c
            → IsHashText (if b && c then value else ethers.keccak256_utf8 value)
        go true true h k = (h, ground arith)
        go true false h k = law value
        go false c h k = law value

    call_of-Holds : (wr : Write) → Holds (call_of ethers wr)
    call_of-Holds (submits s) =
        and_then-Holds (ethers.big_int s.total_amount) _ (λ n. to_bytes32-IsHashText s.statement_id)
    call_of-Holds (finalizes id) = to_bytes32-IsHashText id
    call_of-Holds (disputes id reason) = to_bytes32-IsHashText id
    call_of-Holds claims = tt
    call_of-Holds (deposits amount) = and_then-Holds (ethers.big_int amount) _ (λ n. tt)
    call_of-Holds (records r) =
        and_then-Holds (ethers.big_int r.amount) _ (λ n. to_bytes32-IsHashText r.receipt_id)
    call_of-Holds (approves spender amount) = and_then-Holds (ethers.big_int amount) _ (λ n. tt)

    attempt-IsProper :
        (ops : List Op) (o : Option String) (r : Result ContractCall) (txs : List Transaction)
        → ((signer : String) → o ≡ some signer → IsConnected ops signer)
        → Holds r
        → All (IsProper ops) txs
        → All
            (IsProper ops)
            (attempt ethers config.addresses r (record { signer = o; sent = txs })).1.sent
    attempt-IsProper ops none r txs from id h = h
    attempt-IsProper ops (some signer) (err e) txs from id h = h
    attempt-IsProper ops (some signer) (ok call) txs from id h =
        ((signer, from signer refl, refl, id), h)

    attempt-signer :
        (o : Option String) (r : Result ContractCall) (txs : List Transaction)
        → (attempt ethers config.addresses r (record { signer = o; sent = txs })).1.signer ≡ o
    attempt-signer none r txs = refl
    attempt-signer (some signer) (err e) txs = refl
    attempt-signer (some signer) (ok call) txs = refl

    link_result-IsConnected :
        (key : String) (ops : List Op) (s : Session) (r : Result String)
        → ethers.wallet key ≡ r
        → ((signer : String) → s.signer ≡ some signer → IsConnected ops signer)
        → (signer : String) → (link_result r s).signer ≡ some signer
        → IsConnected (link_key key ∷ ops) signer
    link_result-IsConnected key ops s (err e) h from signer is =
        IsConnected-there (link_key key) ops signer (from signer is)
    link_result-IsConnected key ops s (ok new) h from signer is = inr (key, here refl, cc (h, is))

    session-IsConnected :
        (ops : List Op) (signer : String)
        → (session ops).signer ≡ some signer
        → IsConnected ops signer
    session-IsConnected [] signer is = absurd (cc is)
    session-IsConnected (link new ∷ ops) signer is = inl (here (cc is))
    session-IsConnected (link_key key ∷ ops) signer is =
        link_result-IsConnected key ops (session ops) (ethers.wallet key) refl
          (session-IsConnected ops) signer is
    session-IsConnected (write wr ∷ ops) signer is = IsConnected-there (write wr) ops signer (
        session-IsConnected ops signer
          (sym (attempt-signer (session ops).signer (call_of ethers wr) (session ops).sent) ∙ is))

    link_result-sent : (r : Result String) (s : Session) → (link_result r s).sent ≡ s.sent
    link_result-sent (err e) s = refl
    link_result-sent (ok signer) s = refl

    session-IsProper : (ops : List Op) → All (IsProper ops) (session ops).sent
    session-IsProper [] = tt
    session-IsProper (link new ∷ ops) = All-IsProper-there (link new) ops _ (session-IsProper ops)
    session-IsProper (link_key key ∷ ops) =
        subst (λ txs. All (IsProper (link_key key ∷ ops)) txs)
          (sym (link_result-sent (ethers.wallet key) (session ops)))
          (All-IsProper-there (link_key key) ops _ (session-IsProper ops))
    session-IsProper (write wr ∷ ops) = All-IsProper-there (write wr) ops _ (
        attempt-IsProper ops (session ops).signer (call_of ethers wr) (session ops).sent
          (session-IsConnected ops) (call_of-Holds wr) (session-IsProper ops))

    -- If the hash of every text starts with `0x` and has 66 characters, then after every history of
    -- calls each transaction that was handed to ethers comes from a signer that the history
    -- connected, goes to the configured address of the contract that takes its call, and has an
    -- identifier that starts with `0x` and has 66 characters, if any.
    pub sent-IsProper : (ops : List Op) → All (IsProper ops) (after ops).sent
    sent-IsProper ops =
        subst (λ w. All (IsProper ops) w.sent) (sym (after-session ops)) (session-IsProper ops)
