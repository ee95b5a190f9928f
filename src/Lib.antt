-- ===== src/Lib.antt =====
-- CommitLabs contracts: a model of the Soroban contracts under contracts/ and what holds of it.
--
-- Parts and files. A contract is a record of its storage, and an entry point a function from the
-- host's data, the arguments and the storage to a result. Addresses, symbols and token ids are
-- numbers, which the code only compares; integers of 128 bits are integers with the range checks
-- written out, and those of 32 and 64 bits naturals with theirs.
--   Prelude      tests, lists, maps and signed integers that all parts share.
--   Shared       contracts/shared_utils/src: Outcome (results and panics), Math (math.rs), Fees
--                (fees.rs), Time (time.rs), Validation (validation.rs), RateLimiting
--                (rate_limiting.rs) and Switches (pausable.rs, emergency.rs). Collect holds a loop that
--                several contracts have.
--   Core         contracts/commitment_core/src/lib.rs: Types (data and storage), Id
--                (generate_commitment_id), Store (internal helpers and role checks), Lifecycle
--                (create_commitment, update_value, settle, early_exit, allocate), Governance (all
--                other entry points that write; an add and a remove entry point are one function
--                with a flag), Views (entry points that only read), Contract (calls and runs).
--                Effects, Creation, Invariant, StateMachine and Guards hold theorems.
--   Market       contracts/commitment_marketplace/src/lib.rs: Types (data and storage), Store (internal
--                helpers and administration), Listings, Offers and Auctions (entry points, with what
--                each requires and changes in their Effects), Contract (calls and runs). Found and
--                Kept, Invariant, Preserved, Reachable, Bidding, Payments, Trade, Escrow, Solvency and
--                Views hold theorems.
--   Nft          contracts/commitment_nft/src/lib.rs: Types, Id (format_commitment_id), Store
--                (administration and role checks), Tokens (mint, transfer, mark_inactive, settle and
--                the lookups), Contract. Effects, Invariant, Preserved, Setup, Reachable, Life,
--                Balances and Views hold theorems.
--   Oracle       contracts/price_oracle/src/lib.rs: Types, Store (administration), Prices (publishing and
--                the readers), Contract; Life and Consumers hold theorems.
--   Transform    contracts/commitment_transformation/src/lib.rs: Types, Store (helpers, administration and
--                fees), Tranches (create_tranches), Records (collateral, instruments, guarantees); Shares
--                and Sets hold theorems. The core contract is asked for a commitment through Others.
--   TimeLock     contracts/time_lock/src/lib.rs, its calls in TimeLock.Contract, theorems in
--                Invariant, Reachable, Fate and Listing.
--   Versions     contracts/version-system/src/lib.rs, its calls in Versions.Contract, theorems in
--                Ordering, Registry, Reachable and Permanence.
-- The core contract calls token contracts and the NFT contract. Those are the record External of
-- Core.Types, over any state; a call may fail, and the theorems assume nothing else of them. A
-- callee that calls back into the contract, which the reentrancy flag refuses, is not modelled. The
-- marketplace calls token contracts
-- only, the record Tokens of Market.Types; Market.Escrow states what their standard documents of a
-- transfer, and only the theorems that name IsLedger assume it.
--
-- A panic, or an error value returned to the host, discards the writes of the invocation, so a
-- fallible entry point gives the new storage or the panic alone, and a run of calls keeps the
-- storage of the last one that succeeded. No loop needs fuel: the loop of generate_commitment_id
-- runs over its twenty places, which hold every 64-bit counter, and the others over their lists.
--
-- The NFT contract counts its tokens in 32 bits, so its runs are of fewer than 2 ^ 32 calls.
--
-- Not modelled: events, the time to live of storage entries, getters of a single stored field, the
-- contracts for allocation and attestation, and the oracle that stands in for tests.
pub mod Prelude
pub mod Shared
pub mod Core
pub mod Market
pub mod Nft
pub mod Oracle
pub mod Transform
pub mod TimeLock
pub mod Versions
