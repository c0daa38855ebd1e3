-- ===== src/Lib.antt =====
-- A verification library for the system contract of an EOSIO chain, contracts/eosio.system.
--
-- The contract keeps its state in the tables of the chain, and its actions read and write them. The
-- largest part modelled is the resource exchange (REX): accounts lend core tokens to a pool against REX,
-- the pool lends them on as CPU and NET stake, fees flow back into it, and REX is sold for a share of it.
--
-- Files, by the part of the program (its paths are under contracts/eosio.system):
--   Base         integers, results and lists; an action that aborts is `err`, with all its changes undone
--   Host         what comes from the chain and its contract library: time, authorities, assets, doubles
--   Table        `multi_index` as a list of rows by primary key, with the orders of secondary indexes
--   State        the tables: one record for a row (include/eosio.system/eosio.system.hpp)
--   Market       the market maker, src/exchange_state.cpp
--   Resources    `update_resource_limits`, src/rex.cpp; Weights is about weights and limits
--   Sends        what the transfers sent do to an account
--   Votes        what the staking code relies on in src/voting.cpp
--   Stake        src/delegate_bandwidth.cpp: VotingPower has `update_voting_power`, Change has `changebw` and the
--                actions. Sums, Weights, Payment and Conserved are about what is staked, History about any
--                sequence of actions, Delay about the wait for a refund
--   Voting       src/voting.cpp: Shares has the shares in the pay for votes, Weight has `propagate_weight_change` and
--                `regproxy`, Count has `update_votes` and `voteproducer`. Links, Relink, Sound, Depth and History are about
--                the way from voters to proxies, Ballot about what a vote must satisfy; Register has `regproducer`
--   Settings     the limits set by hand, src/eosio.system.cpp; Managed is about taking a resource over and giving it back
--   Setup        `init`, `setinflation` and `updtrevision`, src/eosio.system.cpp; Start is about what they leave
--   Pay          `claimrewards`, src/producer_pay.cpp: Inflation is about the split of new tokens, Accounts and Claims about
--                the two buckets
--   Blocks       `onblock`, src/producer_pay.cpp; Closing is about the auctions that it closes
--   Accounts     `newaccount`, src/eosio.system.cpp; Claim is about names that were up for auction, Dots about dots
--   Channels     what the memory market relies on in src/staking_pool.cpp
--   Ram          the memory market, src/delegate_bandwidth.cpp and src/eosio.system.cpp; Supply is about its bytes
--   Names        the auctions of names, src/name_bidding.cpp; Escrow is about the tokens that they hold
--   Rex          src/rex.cpp: Buckets, Pool, Funds, Returns, Loans and Account have its helper functions, Run
--                has `runrex`, and Actions the actions. Savings, Moves, SavingsMoves and Consolidation are about
--                balances, Price about the price of REX, Flow and Pacing about fees, Lent about what is lent, Books,
--                Upkeep and Trading about the whole exchange
--   Tests        a chain to run the contract on, and the theorems at concrete states
--
-- How code and model correspond. A function that changes tables is a function from the state to a result
-- with the new state; several iterators on a row become the row itself, looked up by its key. Functions,
-- rows and fields keep their names, but `rent` is `rentcpu` and `rentnet`, `fund_loan` is `fundcpuloan` and
-- `fundnetloan`, and `defund_loan` is `defcpuloan` and `defnetloan`, by the kind of the loan. Inline and deferred
-- actions are collected in the field `sent`. A loop with a limit, as in `runrex`, recurses on that limit; the
-- other loops recurse on the list that they walk, so all functions are total without fuel.
--
-- Numbers. Unsigned arithmetic wraps as in the code. Signed int64 arithmetic is that of the whole numbers,
-- since its overflow is undefined in C++, but the product in `block_pay` narrows to int64. Conversions to int64
-- and to 128 bits narrow, and the theorems on prices have the bounds under which they are exact. Divisions by zero trap. Integer division truncates.
--
-- Fuel. `propagate_weight_change` calls itself along the proxies; its number bounds the nested calls, as the
-- chain does, and more of it changes nothing where votes do not lead in a circle.
--
-- Parameters. `double` and its operations, asset arithmetic with its checks, authorities and time are fields
-- of `Host`; `HasAssets` states what asset arithmetic gives where it does not abort. `Votes` states that
-- `update_votes` changes only the tables of voting, `Channels` that a fee leaves memory, stake, voting and
-- auctions alone. `BlockParts` states the same of what `onblock` calls in other files. The supply of the
-- token is an argument of `init` and `claimrewards`, the part of the inflation that pools leave one of
-- `claimrewards`, and `log1p` one of `setinflation`; `HasConversion` states
-- that a `double` in range converts to a number in range.
--
-- Left out: the fields `version` and `last_block_num`, which nothing reads; the keys, pages and pool votes of producers;
-- payers of memory; memos and permissions of inline actions; the text of the library's own error messages, and the names
-- that a message of `update_votes` quotes. Not modelled: `setabi` and the settings that only go to the
-- chain, `regproducer2`, `unregprod` and the schedule of producers, staking pools, and powerup.
pub mod Base
pub mod Host
pub mod Table
pub mod State
pub mod Market
pub mod Resources
pub mod Sends
pub mod Votes
pub mod Stake
pub mod Voting
pub mod Settings
pub mod Pay
pub mod Blocks
pub mod Accounts
pub mod Setup
pub mod Rex
pub mod Names
pub mod Channels
pub mod Ram
pub mod Tests
