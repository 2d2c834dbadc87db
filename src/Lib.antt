-- ===== src/Lib.antt =====
-- Silt, a content-addressed and erasure-coded store whose nodes agree on a registry of published
-- files: a verification of the core that decides.
--
-- The parts. The nodes of silt keep a chain of blocks (core/chain) that records which files are
-- published and which are taken down. Who may propose and attest a block is decided by a
-- reputation, which the credit ledger (core/credit) computes, or, in objective mode, by the
-- bonds that the blocks themselves register. The ledger also keeps balances: fees, earnings for
-- serving, and the reserves that pay for the repair of an object. Nodes find each other and the
-- chunks of a file by a Kademlia routing (core/dht), which the node drives. A publish may carry a
-- token of blind signatures (core/publishtoken). Every takedown and every reversal of one goes into
-- a transparency log (core/translog) with Merkle proofs of its entries and of its earlier sizes.
-- A file is cut into frames (core/chunk), whose hashes are the leaves of its Merkle tree
-- (core/manifest). A registry in one process (core/registry) keeps published entries where no chain
-- does, behind a gate that charges the ledger. Chunks are coded in stripes (core/erasure) of which
-- any k shards are enough, and who repairs a lost shard proves it (core/repairproof). Chunks and
-- manifests are encrypted with AES-GCM (core/crypto). Publish and retrieval tokens are blind RSA
-- signatures (core/blindtoken). A fetcher acknowledges a delivery by a receipt that holds a proof of
-- retrievability (core/por), and the server's bank (core/demand) counts it as witnessed demand.
--
-- Where what is modelled.
--   Base: lists, maps, sets, integers, byte strings and the pigeonhole argument that the parts share.
--   Credit, Credit.Escrow, Credit.Instruments: core/credit/credit.go, escrow.go and instruments.go.
--     A `*account` is an entry of the map `accounts`. Credit.Ops has every method that changes the
--     ledger as one operation.
--   Chain.Types, Chain.State: the data of core/chain/chain.go, equivocation.go and ports/ports.go,
--     and what the chain reads from its state. Chain.Rules: ValidateProposal, ValidateCommit, Append,
--     appendStructural, AppendGenesis and what they call, publishtoken.Verify among them.
--     Chain.Apply: apply. Chain.Metric: C2Metric and the maturity. Chain.Fork: Weight, Reload and
--     Reconcile. Chain.Queries: the takedown log's accessors, LookupRoot and CanonicalIssuers.
--   Dht.Distance, Dht.Table, Dht.Lookup, Dht.Providers: core/dht/dht.go, table.go, lookup.go and
--     providers.go. The function that the table takes for a peer's domain answers from what the node
--     has learnt: Dht.Table has the one write to it, in `handle` of core/node/node.go.
--   Translog: core/translog/translog.go.
--   Manifest.Merkle: core/manifest/merkle.go. Manifest.Document: core/manifest/manifest.go and
--     sealed.go. Crypto.Cipher: core/crypto/crypto.go.
--   Chunk.Frames: core/chunk/chunk.go.
--   Registry.Log, Registry.Gated: core/registry/registry.go and gated.go.
--   Blind.Rsa, Blind.Issuer: core/blindtoken/blindtoken.go and issuer.go.
--   Por.Scheme, Por.Keys: core/por/por.go.
--   Demand.Receipts, Demand.Bank: core/demand/demand.go and fairexchange.go.
--   Erasure.Stripe: core/erasure/erasure.go. Erasure.Repair: core/repairproof.
-- The other modules hold the lemmas and the theorems, and the Tests the concrete runs.
--
-- How. A method that changes its receiver is a function from the old state to the new one, and a
-- failing method returns the error as a value. Go's int64 and int are integers that wrap into 64
-- bits where the code calculates with them, a uint64 is a number that wraps. A NodeID or a Hash is
-- the number that its 32 bytes spell, high byte first, so that the order of byte strings is that of
-- numbers. A Go map is an association list; a map to bool is a list of the keys. Loops are
-- structural recursions. In Translog, where the source recurs on shorter slices or halves and
-- doubles a counter, the recursion is on fuel: the number of entries for a tree (each half is
-- shorter), the size for the doublings, and the counter itself for the halvings; the same holds for
-- Manifest.Merkle. The loop of Split has one round more than there are bytes, for each takes one at
-- least. In Blind.Rsa the fuel of a loop is what it consumes or must produce in bytes, and a number
-- for its bits and for the search of an inverse. Two loops of Por draw pseudo-random values until
-- one fits, which no bound makes certain: their fuel is a parameter, and without it they give no
-- result. Sizes, indices and big integers that the code keeps from being negative are numbers.
--
-- What is a parameter. SHA-256, the canonical CBOR encoding of a block, Ed25519 verification and the
-- bond verifier that the node injects come in as functions, and so do HMAC-SHA-256, Ed25519 signing,
-- HKDF, AES and GCM, the Reed-Solomon library, the CBOR codec of manifests, the writer of Join, the
-- charge for a token and the source of randomness of a key. The chain takes the blind-signature check
-- of a token as a function; Blind.Rsa has the code behind it.
--
-- What is left out. Floating-point statistics (Gini, HHI, TopShare, the size estimate of the
-- network) decide nothing. Texts of errors are left out, the errors are kept apart by name. Storage,
-- sockets, clocks, the rest of the node's event loop, the command line and the simulator are not
-- modelled. A delivery receipt with a negative number of blocks is not modelled: Go panics there.
pub mod Base
pub mod Credit
pub mod Crypto
pub mod Chain
pub mod Dht
pub mod Translog
pub mod Manifest
pub mod Chunk
pub mod Registry
pub mod Blind
pub mod Por
pub mod Demand
pub mod Erasure
