-- ===== src/Lib.antt =====
-- Neu.Tail: a shopping assistant's backend, whose core decides from a customer's events what the
-- customer is, and which service offers the customer may be shown.
--
-- The parts and how they interact:
--   * Commerce (services/commerce_event_service.py, services/customer_segmentation_service.py,
--     agents/profiling/segment_classifier.py and the count of services/order_history_service.py). A
--     purchase event is processed once: `process_purchase` stores the inbox row, builds the order from
--     the products, counts the completed purchases of the window, and has the segmentation policy move
--     the customer's loyalty and segment, which adds a row to the outbox. The tables are a record
--     `Shop` of association lists. A database transaction is a function that returns the new tables or
--     raises, so that a raise leaves the old ones.
--   * Bus (services/context_bus.py, repositories/event_repository.py). `dispatch` takes the pending rows
--     of the outbox and hands each to the subscribers of its type. Each claim, completion and failure of
--     a delivery is a transaction of its own, so what a raise leaves is part of the state. A handler is
--     a function on the rest of the world that returns or raises.
--   * Upsell (`evaluate_eligibility` of services/upsell_policy_service.py,
--     agents/upsell/opportunity_scorer.py, agents/upsell/offer_selector.py, agents/upsell/constants.py,
--     models/upsell.py). The policy decides which offers a customer may be shown, the scorer rates the
--     opportunity, and the selector picks an offer.
--   * Decisions (services/upsell_decision_service.py and `record_upsell_decision_event` of
--     api/upsell.py). An offer is stored as a decision, and the customer's answer is claimed under an
--     idempotency key, recorded by a tool, which acts on the rest of the world, and completed or aborted.
--   * Fit (agents/fit/fit_calculator.py, agents/fit/constants.py, models/fit.py). The calculator recommends
--     a size of a product from the customer's purchases, returns and similar cases, and rates the risk.
--     The brand's adjustment is taken as `_parse_adjustment` reads it.
--   * Sessions (services/session_context_service.py). The contexts of the chat sessions: each method is a
--     function that returns the contexts after it beside its result, or raises. Only the loop that
--     draws a session id takes fuel: with distinct ids, one turn more than there are contexts is enough.
--   * Gateway (llm_gateway/gateway.py, llm_gateway/router.py, llm_gateway/models.py,
--     llm_gateway/policies.py, llm_gateway/telemetry.py). A call of a language model: the attempts at the
--     primary and the fallback model, what is read of a response, and the record of each attempt. The
--     completion is a function on the rest of the world that answers or raises.
--   * Engagement (services/engagement_event_service.py, with what it calls of
--     services/engagement_service.py, services/product_catalog_service.py and
--     services/inventory_service.py). A view of a product is recorded once, under a receipt, in one
--     transaction with its event for the bus.
--   * Discovery (agents/discovery/ranking.py with agents/discovery/constants.py). The candidates of a search are scored from the
--     customer's preferences, segment and prices, and sorted.
--   * Auth (api/auth.py). A customer signs in and gets a token, which is accepted until it expires or is
--     revoked; the list of revoked tokens is passed on from request to request. A request reads the clock
--     twice, when the token is decoded and when the list is checked.
--   * Tools (tools/permissions.py). Which agent may call which tool.
--   * Agent (`execute` of agents/upsell/agent.py). From a valid request to the result that may show an offer:
--     the tools of the policy and the profile, the scorer and the selector of Upsell, the wording by a
--     language model, and the event that records the offer. `with_policy` puts the policy of Upsell behind
--     its tool. The tools and the gateway are functions on the rest of the world. The policy's request
--     is built outside every `try` block, and raises at an empty or overlong id or segment.
--   * Base: equality tests, results, tables, lists, text, JSON and floats, shared by all.
-- Each part has a module with its operations, a child `Schema` with its data, and children that are
-- named for what they prove; its runs on concrete rows stand in its child `Examples`.
--
-- How the program's values are modelled: numbers are natural numbers, as the columns that are used are
-- not negative; moments and durations are microseconds; a table is an association list, on which a
-- missing key reads as `none`; a text is a `String`, and its code points a list of numbers where it is
-- normalised. Code outside the repository is a parameter: `Json` (the json module and pydantic's JSON)
-- with the law that a printed value reads back, `Unicode` (folding, upper case and white space) with
-- its table on ASCII letters, `Real` (Python's floats) with the laws of an order that the operations
-- respect for finite values, PyJWT (`Jwt`) with the laws of its tokens, SHA-256, the fresh ids of uuid4, the clock, the handlers of subscribers, and
-- the tool behind the endpoint. `Base.Samples` has an instance of each at which its laws hold.
-- Each other loop is structural recursion on the list that it runs over, or on the attempts left.
--
-- Not modelled: the other agents that call a language model, the signals of the upsell agent, the prompts and the tracing of the gateway, the orchestrator, the queries of discovery,
-- the collection of fit evidence, the other endpoints, the tool registry, the older `evaluate` of the policy service, tracing, and the database's schema
-- beyond the keys and the uniqueness that the operations rely on.
pub mod Base
pub mod Decisions
pub mod Bus
pub mod Commerce
pub mod Upsell
pub mod Fit
pub mod Sessions
pub mod Gateway
pub mod Engagement
pub mod Discovery
pub mod Auth
pub mod Tools
pub mod Agent
