-- ===== src/Metering/Service.antt =====
-- services/metering-billing/src/routes/usage.ts and settlements.ts: the routes that record a usage,
-- make a statement of a supplier's usages and read statements. `fault` is the error of the request's
-- first query, if it has one. The body has passed the schema of the route.
pub mod Lifecycle
use zk_dpp_royalty_protocol.Common.{ℕ, String, true, false, Option, none, some, List}
use zk_dpp_royalty_protocol.Common.Results.{Result, ok, err}
use zk_dpp_royalty_protocol.Predicates.{Registry}
use zk_dpp_royalty_protocol.Metering.Types.{
  VerificationUsage, RecordUsageRequest, SettlementStatement, GenerateStatementRequest,
}
use zk_dpp_royalty_protocol.Metering.Usage.{Usages, record_usage}
use zk_dpp_royalty_protocol.Metering.Statement.{Driver, generate_statement}
use zk_dpp_royalty_protocol.Metering.Settlement.{
  Statements, StatementReply, get_statement, get_statements_by_supplier,
}

-- The answer of POST /usage: the code, and the usage or the message.
pub data UsageReply : Type 0 where
  recorded : (code : ℕ) → VerificationUsage → UsageReply
  not_recorded : (code : ℕ) (error : String) → UsageReply

abbrev usage_reply : Result VerificationUsage → UsageReply
usage_reply (ok usage) = recorded 201 usage
usage_reply (err e) = not_recorded 500 "Failed to record usage"

-- POST /usage
unfoldable pub post_usage :
    Registry
    → (fault : Option String) (id : String) (now : ℕ) → RecordUsageRequest
    → Usages
    → UsageReply × Usages
post_usage registry (some e) id now input rows = (usage_reply (err e), rows)
post_usage registry none id now input rows =
    let (r, rows') = record_usage registry id now input rows in (usage_reply r, rows')

abbrev pub created : SettlementStatement → StatementReply
created st = record { code = 201; success = true; statement = some st; error = none }

abbrev pub statement_reply : Result SettlementStatement → StatementReply
statement_reply (ok st) = created st
statement_reply (err e) = record {
  code = 500;
  success = false;
  statement = none;
  error = some "Failed to generate statement";
}

-- POST /settlements
unfoldable pub post_settlement :
    Registry
    → Driver
    → (fault : Option String) (id : String) (now : ℕ) → GenerateStatementRequest
    → Usages
    → Statements
    → StatementReply × Statements
post_settlement registry pg (some e) id now input rows sts = (statement_reply (err e), sts)
post_settlement registry pg none id now input rows sts =
    let (r, sts') = generate_statement registry pg id now input rows sts in
    (statement_reply r, sts')

-- The answer of GET /settlements/:id.
pub data SettlementReply : Type 0 where
  found : SettlementStatement → SettlementReply
  not_found : (code : ℕ) (error : String) → SettlementReply

abbrev settlement_reply : Option SettlementStatement → SettlementReply
settlement_reply none = not_found 404 "Statement not found"
settlement_reply (some st) = found st

-- GET /settlements/:id
unfoldable pub get_settlement : (id : String) → Statements → SettlementReply
get_settlement id sts = settlement_reply (get_statement id sts)

-- GET /settlements/supplier/:supplierId; `by_period_start` is the ORDER BY of the query.
pub get_supplier_settlements :
    (by_period_start : Statements → Statements) (supplier_id : String) → Statements → Statements
get_supplier_settlements by_period_start supplier_id sts =
    by_period_start (get_statements_by_supplier supplier_id sts)
