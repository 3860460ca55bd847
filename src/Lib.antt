-- ===== src/Lib.antt =====
-- The ZK-DPP royalty protocol: suppliers prove predicates about products in zero knowledge, a
-- gateway verifies the proofs and publishes events, and two services consume the events: one builds
-- digital product passports, the other meters verifications and settles them with suppliers. This
-- library models the TypeScript of these services and of the packages that they share.
--
-- Parts, and where they are modelled:
--   packages/predicate-lib/src/index.ts           Predicates: registry, identifiers (parse_id,
--     canonical_id), access groups, prices. The registry is an argument.
--   packages/predicate-lib/src/generator.ts       Predicates/Generator: Types (configurations),
--     Substitution and Texts (the templates), Files (circuits and registry), Batch (theorems),
--     Battery (the configurations of generate-battery-predicates.ts).
--   packages/schemas/src/index.ts                 Schemas: proof packages, receipts, events.
--   packages/shared/src/errors                    Shared/Errors: codes and their HTTP status, Codes,
--     Classes (the subclasses and wrapError).
--   packages/shared/src/middleware                Shared/Rbac (roles and checks), Shared/Auth (the
--     user of a token, and in Setup the configuration and the handler of errors), Shared/RateLimit.
--     jose.jwtVerify is a field of AuthConfig; the package @fastify/rate-limit counts requests.
--   services/verify-gateway/src                   Gateway: NonceStore (services/nonce-store.ts),
--     Verifier (services/verifier.ts), NoirCli (services/noir-cli.ts), Verify (routes/verify.ts).
--     Discovery (routes/predicates.ts, with the schemas of the replies), Startup (index.ts and
--     routes/health.ts, on EventBus), whose verifier calls NoirCli on the files that it finds.
--     Env holds the configuration, the signature and the proof backend; Readings holds the clock and
--     the generated identifiers of one call. The check of the schema is a field of Route.
--   packages/event-bus/src/index.ts               EventBus: Client (the connection and the calls of
--     NATS, which is the record Nats), Consumer (the loop over messages, on a schedule of
--     deliveries), Effects and Delivery (theorems), Metering and Passports (the loops around the
--     handlers of the two services), Subscriber (the start-up and the health routes that
--     services/dpp-builder/src/index.ts and services/metering-billing/src/index.ts share).
--   packages/auth-client/src                      Keycloak: Types, Client (the methods; fetch and
--     JSON are the record Platform), History (histories of calls), Tokens (the service token).
--   packages/contracts/src/client.ts, types.ts    Contracts: Types, Client (the methods; ethers and
--     the contracts are the record Ethers), Writes (the abstract session), Runs (theorems).
--   services/dpp-builder/src                      Dpp: Types, Database (db/index.ts and the handler
--     of events in index.ts), Composer (services/view-composer.ts), Routes (routes), where
--     Routes/Listing has the pages of products and their update, Startup (configuration).
--   services/metering-billing/src                 Metering: Types, Usage (usage records and the
--     handler of events), Statement (generateStatement), Summary (the summary of
--     routes/usage.ts), Settlement (the other queries on statements and wallets, and
--     routes/settlements.ts), Chain (routes/blockchain.ts), where Chain/Contract puts the client of
--     Contracts behind the routes and Chain/StatusRoutes has the status and the wallets,
--     Service (the routes that record usages, make statements and read them), Startup
--     (configuration).
--   Common holds what they share: JavaScript's Map (JsMap), grouping in a Map (Group), its numbers
--     (Doubles), errors (Results), state with errors (Exec), sums and tests. Modules called Tests
--     hold runs and instances of the theorems.
--
-- How code becomes a definition: a method that changes an object or a table takes its state and
-- returns the new one; a thrown error is `err`; a table is a list of rows in the order of
-- insertion, and an INSERT fails on the keys, UNIQUE columns and references of
-- infra/docker/init-db. What PostgreSQL, its driver, NATS, Keycloak, ethers, jose, nargo and the
-- signature do is an argument; the theorems name what they assume of it (IsTextual, ReadsBack,
-- reorderings by an ORDER BY). Clocks and generated identifiers are arguments. In a row an amount
-- is a natural number of ten-thousandths of the currency unit, exact as the DECIMAL columns are;
-- what JavaScript adds is a double (Common/Doubles) or a joined text, as the driver reads the
-- columns. Instants are milliseconds from 1970 on. The fuel of Common/Doubles.excess is the 2098
-- bits that a double can have; all other loops are structural. The two handlers of Metering/Chain
-- run whole in a run of requests; interleaved requests are modelled in Gateway/NoirCli (prepare and
-- finish) and in Metering/Chain/Success (check_and_submit on a row read before).
--
-- Not modelled: plugins of Fastify, logging, metrics; the monthly aggregation; the ABIs, which are
-- data; a time window of the gateway that is no number; the user interface of the edge agent
-- (apps/edge-agent/ui), which shows what its Rust side computes. The circuits (Noir), the contracts
-- (Solidity) and the crates (Rust) are written in other languages than the services and are not
-- modelled either.
-- A text that is the name of a property of JavaScript's object prototype is not modelled as a key.
-- The limits of a stream (max_age, max_msgs, max_bytes), which drop messages that nobody has
-- acknowledged, are not in the queue of EventBus/Consumer. A transaction counts as sent in Contracts
-- when it is handed to ethers, which may still refuse it before it broadcasts anything.
mod Common
pub mod Predicates
pub mod Schemas
pub mod Shared
pub mod Dpp
pub mod Gateway
pub mod Metering
pub mod Keycloak
pub mod Contracts
pub mod EventBus
