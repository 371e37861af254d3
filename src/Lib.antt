-- ===== src/Lib.antt =====
-- The Zippy Logistics control plane: the Python parts that decide what agents, payments and
-- orders may do, as functions, with what makes them correct.
--
-- The agent workers (workers/src/zippy_workers) are modelled in Agent. State is
-- state_machine.py: the states of one execution and the check of a transition. Capabilities is
-- capabilities.py: the matrix of what each agent may do, with its four checks. Guardian is
-- loop_guardian.py: the state and the gate of the tool calls of a tick. Executor is executor.py:
-- `Executor.run` takes a task through the states, asks the guardian, calls the tool and judges
-- its output. Handlers is handlers.py: the six handlers, each in a child module of its own, over
-- ports to the database, to OCR and to the sender. Kernel is kernel.py: `run_one_tick` works
-- through the claimed tasks, and `default_tools_for` wires the handlers in.
--
-- The offline oracle of the contract (prototypes/xano/reference_model.py) is modelled in Oracle:
-- the tables with SQLite's constraints written out, the transaction that commits or rolls back,
-- and the check of roles. Outbox is the leased jobs (`claim`, `acknowledge`), Orders is
-- `replay`, `remember`, `create_order`, `read_order` and `assign`, Refunds is `request_refund`
-- and `approve_refund`, and Budget is `reserve_agent`. Leads says what the body of a transaction
-- leads to. An assignment writes its job into the outbox in the same transaction.
--
-- The latch before the external model (workers/src/zippy_workers/provider_circuit.py) is
-- modelled in Circuit: Store has the three files of the private directory with the system calls
-- on them, each of which may fail, and Calls has `reserve` and `finish`. An exception undoes
-- nothing there, other than in the oracle.
--
-- The stages of a proof of delivery (api/pod_lifecycle.py) are modelled in Pod: Lifecycle has
-- the stages and their order, and Store has `get_order_status` and `advance_status`, to which
-- the web API is a parameter.
--
-- The events of the payment provider (api/gateway.py) are modelled in Gateway: `parse_event`,
-- with `_minor_units`.
--
-- The governance boundary of the API is modelled in Governance. Envelope is
-- api/services/paperclip_envelope.py: the signed envelope, `issue`, `to_string`, `from_dict`,
-- `verify` and `verify_string`. Calls and Repository are api/repositories_paperclip.py: the
-- statements of the twelve functions of the database with their parameters, the transaction, and
-- `_to_result`. Executor is api/services/synthetic_executor.py, which consumes a grant and
-- records its execution. Service and Methods are api/services/paperclip.py: the check of the
-- settings, the guards and the methods, and Payload is its `_payload_hash`. Authority has one
-- operation for each method, so that what holds of all of them can be said. An agent has an
-- envelope issued for a grant, and the executor hands it in: Methods.Executed follows it through
-- all of these parts.
--
-- The advisory recommendations of drivers are modelled in Recommend. Ranking is
-- workers/src/zippy_workers/recommendations.py: `recommend_drivers`, for which the call of the
-- agent is the way it ends. Shadow is shadow_recommendations.py: `evaluate_shadow`, which
-- compares a ranking with the shortlist and asks the capabilities of Agent. Reviews and
-- Decisions are recommendation_reviews.py: `create` in the two parts that its await divides it
-- into, `get` and `review`, and sequences of such calls.
--
-- The grants of a staging run (workers/src/zippy_workers/staging_authorization.py) are modelled
-- in Staging: `ExclusiveGrantClaims.consume`, with the directory of the claims as the names of
-- its files and with what the system calls do as an argument.
--
-- What the workers report of themselves is modelled in Telemetry: telemetry_contract.py, with
-- the names of fields and their classes, and in its module Redaction telemetry_redaction.py,
-- with `redact_event` and `scrub_metadata`.
--
-- Prelude holds what all parts share: Boolean tests and one `==` over its instances, lists over
-- the native numbers, integers, dictionaries with text keys, the text methods of Python, and
-- JSON values.
--
-- Exceptions are values: a result type for each part says which exceptions leave a function.
-- Numbers of calls and tokens are natural numbers, as the code never makes them negative. Texts
-- are compared as the native strings.
--
-- What is not code of the repository is a parameter. `digest` is SHA-256 in hexadecimal digits,
-- and `hash_args` the digest of the JSON text of a payload, with `none` for an exception.
-- `refuses` says of each remote call of a tick whether it raises, and `answer` what a port
-- answers to a handler, both from the calls made before, so that they stand for every database.
-- `Python` has the conversions of Python that the handlers use. The clock is the argument
-- `elapsed`. `fingerprint` is SHA-256 over the JSON text of a payload. `Library` has what the
-- envelopes take from Python: UUIDs, json, HMAC, SHA-256 and Base64, and what is relied on of
-- them at an envelope is the hypothesis `ReadsBack`. `answer` says there too what the database
-- gives to the next transaction. `System` says of each system call of the circuit whether it
-- fails, what the mode of a file is, and what a write leaves. No loop needs fuel: they all run
-- over lists.
--
-- Not modelled are the production loop of the kernel, which sleeps and never ends, the oracle's
-- `payment`, which needs HMAC and a JSON parser, the rest of the web API with its SQL, the
-- adapter of OpenTelemetry with its pseudonyms, the other checks of a staging grant with the
-- settings of its provider, the staging and CI scripts, and the adapters of external services.
-- Times and amounts of the oracle are natural numbers.
pub mod Prelude
pub mod Agent
pub mod Oracle
pub mod Circuit
pub mod Pod
pub mod Gateway
pub mod Governance
pub mod Recommend
pub mod Telemetry
pub mod Staging
