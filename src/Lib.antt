-- ===== src/Lib.antt =====
-- A verification library for sixchange, a simulated electronic exchange in C++: a matching engine
-- with a price-time limit order book, behind a gateway and a text protocol.
--
-- The program's parts. A command line reads text, `protocol/TextCodec` decodes it, `gateway/
-- OrderGateway` checks it and hands commands to `engine/MatchingEngine`, which runs them on one
-- `engine/OrderBook` for each symbol and sends events to `core/EngineEventDispatcher`, through which
-- they get back to the gateway and from there, encoded, to the client. The book
-- keeps its orders in an `engine/OrderPool`, finds them by id in an `engine/FixedOrderMap`, and
-- queues them by price in `engine/PriceLevel`s, which link the orders through their own fields.
--
-- Which file models which part. Names follow the source's functions and types.
--   * Base: words of 64 bits with their wrap-around, Boolean tests, lists of addresses, texts with
--     the decimal conversions std::from_chars and std::to_string, and `Run`, the outcome of code
--     that may dereference null (`fault`) or loop (`out_of_fuel`).
--   * Core: include/sixchange/core (types, enums, commands, events, the dispatcher, names), and
--     include/sixchange/config/OrderBookConfig.h.
--   * Engine.Order: src/engine/Order.h. A pointer to an order is an optional address, and the memory
--     of the orders a function from addresses, so that the aliasing of the links is modelled.
--   * Engine.PriceLevel: src/engine/PriceLevel.h. Chain and Queue say what a level's links mean,
--     PushBack and Remove what the two operations do.
--   * Engine.OrderPool: src/engine/OrderPool.h. Usage says which slots are in use or free,
--     Allocation what `allocate` and `release` do.
--   * Engine.FixedOrderMap: src/engine/FixedOrderMap.h, definitions only so far.
--   * Engine.OrderBook: src/engine/OrderBook.h and OrderBook.cpp. State has the members, the
--     constructor, `rest` and the upkeep of the best prices; Admission, Matching and Cancellation
--     have `admit`, `match` with `execute`, and `cancel`. The members of the bids and those of the
--     asks are one record each, so that code written twice in the source is one definition.
--   * Engine.MatchingEngine: src/engine/MatchingEngine.h and MatchingEngine.cpp. The engine is its own
--     sink for executions, whose state is the next trade id and the state of the event sink. Sound
--     says what a book between two commands is, Trades what the executions of an order are,
--     Reasons why it refuses one, Answers what the handler of a new order may answer, and Sending the
--     order of its reports; Reports and Soundness treat the handler.
--   * Engine.MatchExecution and Engine.Sequencer: the files of those names in src/engine,
--     definitions only.
--   * Protocol.Messages: include/sixchange/protocol. Protocol.Cursor, Protocol.Parsing and
--     Protocol.TextCodec: the token cursor, the parsers of tokens, and the decoder and encoder of
--     src/protocol/TextCodec.cpp. The specification is Words, which splits a line at its blanks, and
--     Grammar, which says what words spell a message; Reading, Accepted and Decoding relate the decoder
--     to it, Rejections and Refusing say which word a line is refused for, Joining, Spelling and Encoding treat what is written.
--   * Gateway: src/gateway. ClientOrders is the map of the registered orders; Symbols is about the one
--     symbol it resolves, Listening says what it makes of the engine's events, Answering and Cancelling how it answers a message. The
--     engine's sink works on a `Session`, the gateway with the state of its own sink, so that the
--     events that come back during a command are part of its run.
--   * Logging.SpscRing: src/logging/SpscRing.h, as calls and as the interleaved steps of its two
--     threads; Queue and Steps have the invariant, Safety and Calls what follows. Logging.LogRecord:
--     LogRecord.h, and include/sixchange/logging. Logging.Format and Logging.AsyncFileLogger:
--     src/logging/AsyncFileLogger.cpp, the text of a record and what a logging thread does.
--   * Cli: apps/sixchange_cli.cpp, all parts put together; Conversations says
--     which replies the lines of a session may get, and Serving and Sessions treat the loop.
--
-- How the book is specified. Contents lists the orders of each price of a side, oldest first.
-- Invariant and Whole state the well-formed book (`IsBook`): each level's links, ends and total are
-- those of its queue, the best price is that of the best nonempty queue, the counts are right, and
-- the slots in use are those of the queues and of the orders in flight. PriceTime is the reference:
-- `ladder` puts the queues that a price crosses in order of priority, and `fill` trades an order
-- with that list; it knows no levels, links, best prices or pool. Resting, Unresting, Removal,
-- Withdrawal, Settling, Trading and Retiring treat the parts of the operations, Steps and Outcomes
-- one round of the match loop, and Refinement the loop, by induction on the fuel. Construction treats
-- the constructor, Lifecycle `rest`, and Admitting, Execution and Cancelling the public operations.
--
-- Fuel. The match loops of the source run while the order has something left and the best price
-- crosses. Each round fills the order or takes a resting order out, so the number of active orders
-- on the resting side, plus one, is enough rounds; the loops of the lookup map run at most once
-- round the table, which is their fuel. Prices and quantities are words of 64 bits.
--
-- The platform. A `Platform` says whether assertions are compiled in, of which one matters to the
-- constructors, and whether the memory for a book's arrays is there; the constructor of a book makes
-- none where the assertion ends the program, where the memory is missing and where it throws.
--
-- Not modelled. The log lines of the exchange, which change no state of it; the worker loop of the
-- asynchronous logger, which is timing and output to a file; the logging macros and the thread's
-- logger; the failure of standard input; the scripts. A sink for executions, events or messages is
-- a function on its own state. The gateway's std::unordered_map is a list of entries. The ring's
-- steps happen in one order that both threads see, as in a sequentially
-- consistent execution. How a stream writes a double is a parameter. Of the lookup map
-- the theorems on the book assume nothing, but for `cancel`, whose theorem is about an order that the
-- map finds and erases; so the theorem on sessions leaves cancel requests out.
pub mod Base
pub mod Core
pub mod Engine
pub mod Protocol
pub mod Gateway
pub mod Cli
pub mod Logging
