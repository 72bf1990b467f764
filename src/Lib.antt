-- ===== src/Lib.antt =====
-- FlipRadar: accounts, rate limits, engines, notifications, inventory and portfolios of the
-- backend.
--
-- Accounts (Auth). A request is an action on a world: the tables that the session sees (`db`),
-- those that are committed (`saved`), whether a flush has failed, the clock, the random draws and
-- the mails sent. `Session.get_db_session` is backend/flipradar/database/session.py: it commits if
-- the handler returns and rolls back if it raises. `Rows` holds the rows of
-- backend/flipradar/domain/models (user, account_token, refresh_token, mfa), `Stores.*` the account
-- functions of backend/flipradar/database/repositories.py, `Tokens` the signed tokens of
-- backend/flipradar/api/dependencies/auth.py, and `Mails`, `Sessions`, `Answers`, `Mfa`, `Accounts`
-- and `Recovery` the helpers and handlers of backend/flipradar/services/auth_service.py, each under
-- the name it has there. `Requests` has the routes of backend/flipradar/api/routes/auth_routes.py
-- and user_routes.py as a data type, and runs, with a wait before each event, of requests and of
-- the job of backend/flipradar/worker/tasks.py that empties the blacklist of MFA tokens. `Platform`
-- stands for what other packages do: PyJWT, digests, password hashes, random draws, the delivery of
-- mails, and the settings. Identifiers, digests and signed tokens are numbers, texts are lists of
-- code points of the ASCII range, instants are microseconds.
--
-- For the proofs about accounts, `Keeps` says when an action keeps a property of the tables:
-- `Keeps.Lasting` is about properties that every row operation keeps, the other children go through
-- the stores and handlers, `Keeps.Runs` through runs of requests. `Keeps.Requests` has rules for
-- what a request brings about, `Keeps.Leads` for actions that start from another property,
-- `Keeps.Ends` for actions after which the session may have failed, and `Steps` the equations of
-- actions in a session that has not failed. `Refused` has marks that last, `Refusal` and `Denial`
-- are about requests that are refused for such a mark, and `Marked` about the row that is marked.
-- `Login` takes a handler that returned apart into its steps, and `Failure` and `Locked` a
-- verification with a wrong code or answer.
--
-- Rate limits (RateLimit) are backend/flipradar/api/middleware.py: `Limiter` the local limiter, the
-- Redis limiter with its fallback and the loop over the policies of a request; `Client` who a
-- request counts for, `Policies` the table of policies and the dispatch. Redis, which runs the
-- reservation script, is a parameter that gives a reply, an error that is caught or another one;
-- how an entry of a header parses is given with it. `Answers` is about the outcome of a request,
-- `Admission` about a Redis that fails. The clocks are one, in microseconds. What a request is, is
-- its method, its path and whether it asks for a refresh.
--
-- Engines (Scoring) are backend/flipradar/domain/engines: `Report`, `Deal` and `Score` are
-- `score_deal`, `Recommend` is `score_recommendation`, both of scoring_engine.py, `Decide` is
-- decision_engine.py, `Valuation` is portfolio_valuation.py. A decimal amount is an integer with a
-- number of places, and `quantize` rounds a tie away from zero. Quotients are exact: that Python's
-- context rounds them to 28 digits first is not modelled. Texts are data types with the values that
-- they hold.
--
-- Notifications are backend/flipradar/services/notification_service.py: `Rows` the rows of
-- backend/flipradar/domain/models/notification.py, `Stores` the functions of repositories.py,
-- `Emit` which observations of a watched item bring which notifications, `Inbox` what a user does,
-- `Digest` the mails. `Steps` has the events of a run of the service. `Keeps` is about properties
-- that the service keeps, by those of its repository functions. The mail service and time zones are
-- parameters. The commit of the job that sends the digests is not modelled. Prices are cents,
-- scores and percents hundredths.
--
-- The inventory is backend/flipradar/services/inventory_service.py: `Rows` the rows of
-- backend/flipradar/domain/models/inventory.py and what it reads of others, `Stock` what a user
-- owns, `Checklist` what is missing of a set, `Orders` what changes a checklist. `Shelf` has the
-- abstract view of the stock, a quantity for each user and element.
--
-- The portfolios are backend/flipradar/services/portfolio_service.py: `Rows` the rows of
-- backend/flipradar/domain/models/portfolio.py and portfolio_valuation_snapshot.py, `Stores` and
-- `Holdings` the functions of repositories.py on portfolios and on items, `Valued` the hourly
-- valuation, `Service` the handlers, `Imports` and `Importing` what reads a file and what stores
-- its rows. `Steps` has the requests. `Changes`, `Moves` and `Fresh` are about what a request does
-- to the portfolios, `Held`, `SameItems` and `Owners` about the items, `Hourly` and `Valuations`
-- about the hourly valuations. The estimates of unit values, the csv module and the validation of a
-- row are parameters.
--
-- No model uses fuel: every function is structural. Logging, message texts, URLs around tokens,
-- input schemas, providers, the worker's other jobs, migrations and the frontend are not modelled,
-- nor are the watchlist, price analytics, the analyses of portfolios, and of the portfolio service
-- the functions that only read, but for the summary (`Summary`, of which `Grouped` is about the
-- totals).
--
-- `Base` holds what the parts share: tests on numbers, tables as lists of rows, signed integers and
-- decimal amounts. The `Tests` module of each part has concrete data.
pub mod Base
pub mod Auth
pub mod RateLimit
pub mod Scoring
pub mod Notifications
pub mod Portfolios
pub mod Inventory
