-- ===== src/Metering/Chain/Run.antt =====
-- The requests that change statements, one after the other.
use zk_dpp_royalty_protocol.Common.{ℕ, String, List, [], ◌∷◌}
use zk_dpp_royalty_protocol.Predicates.{Registry}
use zk_dpp_royalty_protocol.Metering.Types.{GenerateStatementRequest}
use zk_dpp_royalty_protocol.Metering.Usage.{Usages}
use zk_dpp_royalty_protocol.Metering.Statement.{Driver, generate_statement}
use zk_dpp_royalty_protocol.Metering.Settlement.{post_finalize}
use zk_dpp_royalty_protocol.Metering.Chain.{Request, World, submit_on_chain, finalize_on_chain}
use zk_dpp_royalty_protocol.Metering.Chain.Cases.{with_statements}

pub data Call : Type 0 where
  -- POST /settlements, with the usages of that moment
  generate :
      (registry : Registry) (pg : Driver) (id : String) (now : ℕ) (input : GenerateStatementRequest)
      (rows : Usages)
      → Call
  -- POST /settlements/:id/finalize
  finalize : (id : String) (now : ℕ) → Call
  -- POST /settlements/:id/submit-on-chain and POST /settlements/:id/finalize-on-chain
  to_chain : (req : Request) (id wallet : String) → Call
  settle : (req : Request) (id : String) → Call

unfoldable pub step : Call → World → World
step (generate registry pg id now input rows) w =
    with_statements (generate_statement registry pg id now input rows w.statements).1 w
step (finalize id now) w = with_statements (post_finalize id now w.statements).1 w
step (to_chain req id wallet) w = (submit_on_chain req id wallet w).1
step (settle req id) w = (finalize_on_chain req id w).1

unfoldable pub run : List Call → World → World
run [] w = w
run (c ∷ cs) w = run cs (step c w)

-- What every step keeps, a run keeps.
pub run-keeps {ℓ} :
    (I : World → Type ℓ)
    → ((c : Call) (w : World) → I w → I (step c w))
    → (cs : List Call) (w : World) → I w
    → I (run cs w)
unfolding run
run-keeps I keeps [] w h = h
run-keeps I keeps (c ∷ cs) w h = run-keeps I keeps cs (step c w) (keeps c w h)
