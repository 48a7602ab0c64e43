-- ===== src/Lib.antt =====
-- AMMBA: an automated market maker for energy communities. Participants submit bids and offers for
-- a delivery slot; after the market has closed, the clearing node prices all of them at once from
-- the ratio of supply and demand, and the execution node settles the trades on a chain.
--
-- Parts of the program, and the modules that model them:
--   * Clearing (amm-clearing-node/src). Sigmoid: sigmoid.py, the price function. Orders and
--     Adapters: adapters.py, the wire's objects and the internal order. MarketIds and Dialects: the
--     forms of ids, orders and markets that the gateway answers with, also adapters.py. Preferences:
--     mutual partners served first (preferences.py). Pricing: green subsidies and grey levies
--     (preferences.py). Run: clearing.py, the whole cycle `run_clearing`. Scheduler: scheduler.py,
--     a tick, and in Scheduler.Loop the listing of markets and the periodic loop. Retry: retry.py,
--     HTTP requests with backoff. Ontology: ontology.py, the checker of JSON Schema, with the
--     keywords one by one in Ontology.Topics and the schemas in Ontology.Schemas. Ewds: the client
--     of the gateway, ewds_client.py, with Delays for `poll_delays_ms`, Messages for what a poll's
--     response says, Polling for the loop of `_poll`, and Client for the reads. Contract: the
--     arguments of `clear_market` in contract.py. Texts: operations on texts that these share.
--   * Settlement (amm-execution-node/src). Ids: ids.py. Structs: structs.py. Builder:
--     match_builder.py, which turns wire trades into matches with residual orders. Validator:
--     validator.py, the checks of the settlement contract. Engine: engine.py, `_pack` in Engine.Pack.
--     Penalties and Sigmoid: penalties.py and sigmoid.py.
--   * Calibration (amm-calibration/src). Pricing: pricing.py. Optimizer: optimizer.py and
--     measurements.py, with `optimize_params` in Optimizer.Refinement.
--   * Prelude, Arith and Wire are shared: lists, dicts, exceptions as values, floats, the objects on
--     the wire, and JSON values (Wire.Json).
--
-- How the parts interact: Scheduler calls Run; Run reads orders from the storage, prices with
-- Sigmoid, allocates with Preferences and Pricing, checks what it built with Ontology's verdict,
-- records the price on the chain, and sends trades and a result. Ewds is the storage behind the
-- gateway, and normalizes the orders and markets it answers with through Dialects. Builder reads
-- orders and trades from the storage, Validator checks what it builds, and Engine submits it.
--
-- State. An exception is a `Result`. The engine is a state monad over a world with the calls made,
-- the ledger and the report, so that what changed before an exception stays changed. A clearing
-- run returns what it sent to the storage beside its outcome. The gateway and the clock of a query
-- are functions of the number of the poll. The scheduler's loop is run for a list of ticks, and
-- leaves a trace. Python's dicts that are shared and mutated (the orders in preferences.py) are
-- lists, and a reference is a position.
--
-- Floats are a parameter, `Arith`, with its operations and comparisons. `IsOrdered` and
-- `IsRounded` name the laws of IEEE comparison and correct rounding that a theorem relies on, with
-- finite operands and results; NaN is the value that is not `<=` itself. `Fixed`, decimals of four
-- places, meets all of them, and the examples are computed with it. `sum` of floats is an
-- operation of `Arith` without laws, and `round` and `int` are of finite numbers.
--
-- Functions that are not in the repository are parameters: version 5 UUIDs, blake2b, ISO times
-- (`Host`), the storage, the JSON schemas and the chain client of a clearing run (`Services`), the
-- answers of the chain and the registrar (`Respond`), the chain under `clear_market` (`Chain`),
-- the responses of HTTP requests and the jitter of the backoff, what a tick meets (`Tick`),
-- `uuid.UUID`, `str` and the texts of times (`Texts`, `Python`), `round` to four places,
-- json.loads, json.dumps, the gateway and the clock.
--
-- Bounds and fuel. The retry loop has as fuel the number of attempts that the code itself allows.
-- `poll_delays_ms` has as fuel the milliseconds of the timeout and one: a delay takes one of them
-- at least, and the last test another. The poll loop is structural on the delays, and the checker
-- of schemas on the value, with references looked up among the schemas. Integers on the chain are
-- unbounded, as Python's are. Case changes and trims of texts are those of ASCII, and a text in
-- JSON is its code points. In Run, an order is the record that the schema requires: a field of
-- another type does not occur, and a clearing result has its `tradeQuantity`; Dialects and
-- Ontology are about any JSON value.
--
-- Not modelled: loading of schema files, configuration, web servers and command lines, the chain
-- client of the execution node and the REST client (calls of web3 and httpx only), logging
-- (`post_trades` and `post_clearing_result` of ewds_client.py only log), the simulators (amm-
-- clearing-node/sim), and the drawing of figures.
pub mod Prelude
pub mod Arith
pub mod Wire
pub mod Clearing
pub mod Settlement
pub mod Calibration
