-- ===== src/Lib.antt =====
-- Models of the live maker for Polymarket (cpp/): what it signs, serialises and sends, the decisions
-- of the tail seller, the simulated fills, the quoting bot, the engine, the CLOB submitter and the
-- two channels.
--
-- Crypto: cpp/src/pmm/crypto. Keccak has the permutation and the sponge, Words the 256-bit words,
-- Hex the parsing of hex text, Eip712 the order digest, Signer the signatures over a curve library
-- that is a parameter with its documented laws.
-- Chain: cpp/src/pmm/chain. Rlp has the encoders, Ctf and ProxyExec the calldata, Eip1559 the
-- transactions; their Decode modules are independent readings of the formats.
-- Wire: cpp/src/pmm/wire/clob_wire.cpp. Base64, the JSON body of an order, and the two signatures;
-- HMAC is a parameter.
-- TailVendor: cpp/src/pmm/tail_vendor.cpp. The root has `decide` and `should_pull`, Plan the function
-- `plan`, Sheet `validate_sheet`; the other modules prove.
-- Chain.Rpc: cpp/src/pmm/chain/polygon_rpc.cpp, over a log of the requests on which the replies may
-- depend. Chain.MergeFlatten: merge_flatten.cpp; Flatten compares the two ways out, Gates and Route
-- prove what is sent. Env: cpp/include/pmm/env.hpp. JsonUtil: cpp/include/pmm/jsonutil.hpp, over a JSON
-- library that is a parameter.
-- Ws: cpp/src/pmm/ws.cpp. User has the channel of fills with its window of ids, Market the cached books.
-- OrderBook: cpp/src/pmm/orderbook.cpp, the fills and the reward band; `std::sort` is a parameter.
-- Clob: cpp/src/pmm/clob_submitter.cpp. Client has the state and the requests, over a log of what was
-- sent on which the replies may depend; Amounts the rounding, Orders the placement, Flatten the sale of a
-- position, Trades the fills above a cursor, Account the credentials, Submit the dispatch.
-- Engine: cpp/src/pmm/engine.cpp, the placement of a quote, live or on paper, over the rows of db.cpp;
-- Accrue has the paper accrual, AccrueLive the live one, Reconcile the corrections; Placed, Rollback
-- and Runs prove, Wired puts the submitter of Clob behind the engine. The API client is a parameter.
-- Maker: cpp/src/pmm/maker_live.cpp, the quotes and the bot; the submitter is a parameter.
-- MakerSim: cpp/src/pmm/maker_sim.cpp, the replay of rewards over a path of prices.
-- RateLimit: cpp/include/pmm/ratelimit.hpp, the token buckets; the clock is a parameter.
--
-- A `double` is a value of a type with the operations of Prelude.Doubles; a theorem that needs a law
-- of them names it. Integers are natural numbers with the wrap-around of the code written out. A
-- `std::map` is the list of its entries in the order of its keys. Loops are recursion on their data or
-- on a count of rounds, so no fuel can run out; the loop of MinBE has eight rounds, enough for 64 bits.
--
-- Not modelled: the reports of the accruals, the submitter's queries for people, the runner, the
-- scans of rewards and the reviews; sockets, threads, SQLite, telemetry, the JSON
-- library, and the parts of the order book's mathematics that use transcendental functions.
pub mod Prelude
pub mod Env
pub mod Crypto
pub mod Chain
pub mod TailVendor
pub mod OrderBook
pub mod Maker
pub mod Wire
pub mod RateLimit
pub mod Clob
pub mod Engine
pub mod MakerSim
pub mod JsonUtil
pub mod Ws
pub mod Examples
