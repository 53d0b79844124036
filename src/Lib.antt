-- ===== src/Lib.antt =====
-- The server of MonopolyBE: the game engine (src/domain/game), whose rules are functions on an immutable
-- state, and around it the lobby, the games in progress, the ratings and the stores that keep them.
--
-- The program. `apply` (src/domain/game/engine.py) takes a game state and a command, dispatches the
-- command to a handler, and returns the new state and the events of the change. The handlers call the
-- rules (src/domain/game/rules): movement and landing, cards, rent, payments and debts, buildings and
-- mortgages, auctions, trades, bankruptcy, surrender and the turn timer. After a command of the current
-- player or of the system `apply` settles an open debt where it has become payable, looks for a winner,
-- refreshes the deadline, appends the log and computes the actions that the current player has.
--
-- Around the engine. `SessionService` (src/application/services) opens sessions, lets users join, leave
-- and start them, and keeps them in a collection of the database. `GameService` starts the game of a
-- session, and for each intent of a user it reads the stored game, calls `apply`, and writes the new
-- state under the version that it read; `GameScheduler` does the same with the commands of the timers.
-- When a game has finished, `RatingService` claims it and rates its players once. The events of a command
-- become the timeline of animations that the clients replay.
--
-- The files.
--   Prelude      Boolean tests, lists and integers, and `Result`: a value, or the exception raised.
--   Schema       src/domain/game/enums.py and schemas: the state, the cards, the commands, the events.
--   Board        constants.py, board_data.py and modes.py: both boards, the configurations.
--   Helpers      rules/helpers.py; beside it the lemmas on lookups, writes and net worths.
--   Payments     rules/payments.py; Payments/Money follows the money.
--   Rent         rules/rent.py.
--   Interest     the two products with the float MORTGAGE_INTEREST; Interest/Exact compares them.
--   Building     rules/building.py; Building/Supply, Building/Even and Building/Worth.
--   Auction      rules/auction.py; Auction/Bids and Auction/Award.
--   Timer        rules/turn_timer.py.
--   Turns        rules/bankruptcy.py, the order of turns and the winner: Frame, Rotation, Winner.
--   Bankruptcy   rules/bankruptcy.py, the end of a debtor; Bankruptcy/Leak.
--   Surrender    rules/surrender.py; Surrender/Money and Surrender/Supply.
--   Trade        rules/trade.py; Trade/Money.
--   Random       what the engine calls of Python's random.Random, a parameter.
--   Movement     rules/movement.py, positions and salary; Movement/Board.
--   Cards        cards_data.py and the decks of rules/cards.py; Cards/Draw.
--   Landing      resolve_landing of rules/movement.py and the effects of rules/cards.py;
--                Landing/Charged and Landing/Charges.
--   Actions      rules/actions.py.
--   Engine       engine.py: Roll, Handlers and Apply; beside them Purchase, Settled and Stuck.
--   Setup        setup.py; Setup/Opening.
--   Animation    domain/game/animation.py; Animation/Moves.
--   Store        what the repositories use of a database collection, a parameter with its laws.
--   Payload      the dictionaries of the database, and Python's conversions, a parameter too.
--   Users        src/domain/user and src/infra/mongo/users; Users/Roundtrip.
--   Sessions     src/domain/session, src/infra/mongo/sessions and session_service.py. Lobby, Unique,
--                Invariant, Kept and Requests keep the lobbies well formed; Status, Steps and Refinement
--                follow the life of a session; beside them Roundtrip and Host.
--   Games        src/infra/mongo/games, game_service.py and game_scheduler.py; Games/Versions and
--                Games/Locking are about concurrent writes.
--   Rating       src/domain/rating and rating_service.py; Rating/Bounds, Once and Order.
--   Accounts     user_service.py, src/core/security.py and src/infra/mongo/refresh_tokens; Accounts/Absent
--                and Accounts/Rotation follow a token that was used.
--   Endpoints    src/api/sessions/router.py: Details and Lobby.
--   Gateway      src/gateway: Connections (manager.py, backpressure.py), Backplane, Router, Messages,
--                Handlers, Removal (the grace time of router.py), Links (connection.py) and
--                Dispatcher. Lookups, Subscribed, Tracking and Race follow who is connected; beside them
--                Numbers, Refused and Cleanup.
--   Tests        small games on which the results are applied.
--
-- The correspondence. A function keeps the name it has in Python, without a leading underscore, and a
-- larger one is split where it branches; a comment names the part. A pydantic model is a record, an
-- enumeration and a tagged union are data types, `model_copy(update=…)` is a record update, a tuple is
-- a list, and a loop is structural recursion. Whatever Python raises is an `err` with the exception;
-- the text of an `IllegalMove` is kept. Player ids and trade ids, which are only compared, are numbers.
-- Balances are integers, as in Python, without bounds. A datetime is its epoch in milliseconds. The
-- clock, the settings and the ids of `uuid4` come with each call (`Call`). The ids of sessions, users
-- and games are strings. A call of a service is a step on the state of a collection (`Step`), which
-- returns or raises; `IsCollection` says what MongoDB documents of the calls, by the list of documents.
-- Calls of different requests interleave between the steps: a join and a commit take what was read as
-- an argument, so it may have been read from any earlier state.
--
-- Bounds and fuel. `resolve_landing` and `apply_card_effect` call one another: a landing that a card
-- makes is an argument `land` of each function, and `resolve_landing` ties the knot on fuel. Out of fuel
-- it raises the `RecursionError` that Python raises. `apply` gives it `landing_fuel`, 333, since a
-- landing that lands anew takes three of the thousand frames of Python's default limit.
-- A float product is computed exactly and rounded to 53 bits, the nearest and ties to even.
--
-- Redis is a `Broker`, a parameter with the laws `IsBroker`, and bcrypt, hashlib and PyJWT are
-- `Crypto`; a handler of the gateway returns what it sends (`Effect`) and the stores after it
-- (`World`). The calls that await Redis, `subscribe`, `unsubscribe` and `publish`, are two steps each,
-- and the steps of other calls may come in between; a handler, and the removal of an absent member, is
-- one step.
--
-- Not modelled: the endpoints of accounts and of the leaderboard, which make one call each, the reader
-- of Redis and the loops around the rounds of a connection, and the clients of the databases, which are
-- input and output; the float powers of the expected scores, which are a parameter of the ratings; the
-- texts of the cards; and the checks that pydantic makes when a record is built.
pub mod Prelude
pub mod Schema
pub mod Board
pub mod Helpers
pub mod Payments
pub mod Rent
pub mod Interest
pub mod Building
pub mod Auction
pub mod Timer
pub mod Turns
pub mod Bankruptcy
pub mod Surrender
pub mod Trade
pub mod Random
pub mod Movement
pub mod Cards
pub mod Landing
pub mod Actions
pub mod Animation
pub mod Rating
pub mod Games
pub mod Setup
pub mod Engine
pub mod Store
pub mod Payload
pub mod Users
pub mod Sessions
pub mod Accounts
pub mod Endpoints
pub mod Gateway
pub mod Tests
