-- ===== src/Lib.antt =====
-- Hornet, a Bitcoin node in C++: the verification of its data formats, its proof-of-work
-- arithmetic, its script runtime, its wire protocol and handshake, its tree of headers with the
-- sidecars, its synchronisation, and its consensus rules.
--
-- The program. src/hornetlib is the library of the node and src/hornetnodelib runs it; the paths
-- below that do not start with src/ start in the library. encoding/ reads and writes byte streams;
-- util/big_uint.h has the integers of proof of work; protocol/ has headers, transactions, blocks,
-- compact targets and scripts, which are written with encoding/; consensus/ has the rules that say
-- which headers, transactions and blocks are valid. ValidateBlock runs the header rules, then the
-- structural rules, which run the transaction rules on every transaction, then the rules that look
-- at the block's place in the chain, then the spending rules. Each ruleset is run by ValidateRules,
-- and the first rule that fails gives the error. A message is a header and a payload, which Framer
-- writes and Parser takes apart; PeerNegotiator answers the messages of the handshake, of which
-- each connection keeps the state. Processor runs a script on a stack, one instruction of Parser at
-- a time. The headers form a ChainTree: the main chain is an array, and the forks are a forest. Add
-- puts a header under its parent and, when a leaf of the forest has more work than the tip, promotes
-- its branch; a sidecar that is told of each addition keeps a value for every header. BlockSync asks
-- peers for the blocks of the main chain one at a time, queues what arrives and validates it with the
-- rules, against a view of the tree from the block's parent. HeaderSync does the same for batches of
-- headers, which it adds to the tree.
--
-- The files.
--   Common: the library's names, tests on numbers, lists, integers, bits and byte strings.
--   Encoding: encoding/{endian,reader,writer}.h. A Writer is its buffer and its position, a Reader
--     the same; a read returns a value and the moved reader, or `none` where the source throws.
--     RoundTrip has what a writer and a reader do together, and Codec how serializers and
--     deserializers that belong together are composed.
--   Uint: util/big_uint.h. An integer is the list of its words, so the word count is any length.
--     Add, Multiply, Divide, Order and Shift say what the operators do to the numbers.
--   Protocol: Target is protocol/{compact_target,target,work}.h, Transaction is
--     protocol/{transaction,txid}.h, Header is protocol/block_header.h, Block is protocol/block.h;
--     their Deserialize functions are in the modules Deserialize and in Block.Serialize, and
--     RoundTrip and Sizes below them say how they match. Message is protocol/message/*.h,
--     inventory.h and message_factory.*; Frame is protocol/{header,framer,parser}.h; Handshake is
--     protocol/handshake.h.
--   Script: protocol/script/{parser,view,writer}.h and protocol/script/lang. Script.Runtime is
--     protocol/script/runtime and protocol/script/processor.*: Stack is the flat stack with its
--     slices, Engine the handlers, over any stack with the operations of StackOps, and Processor
--     the loop.
--   Data: HashedTree is data/hashed_tree.h, ChainTree is data/chain_tree.h, HeaderContext is
--     model/header_context.h, HeaderTimechain is data/header_timechain.*, KeyframeSidecar is
--     data/keyframe_sidecar.h, Timechain is data/timechain.h with its sidecars in a list, and Locator
--     has what they pass to one another. HashedTree.Paths and
--     HashedTree.Extend are about the paths from a leaf to its root, and the modules Promote and
--     Reorganise about the promotion of such a path.
--   Node: HeaderSync and BlockSync are src/hornetnodelib/sync/{header_sync,block_sync}.h; Negotiator is src/hornetnodelib/dispatch/peer_negotiator.cpp; Negotiator.Pair connects
--     two.
--   Consensus: consensus/*.h. Types and Rule are types.h, rule.h and bips.h; Env has what the rules
--     take from outside; Ancestry, Difficulty and Merkle are header_ancestry_view.h,
--     difficulty_adjustment.h and merkle.h; HeaderRules, TransactionRules, StructureRules,
--     ContextRules and BlockRules are the files of consensus/rules, and the modules below them say
--     what the rules accept.
--   The modules named Tests, WireTests and TimechainTests apply the theorems to concrete data.
-- A function keeps the name of the source's function, in lower case.
--
-- What is taken from outside. The double SHA-256 is an argument, and so are std::sort at the two
-- types where it is called, the clock, and the virtual functions of the ancestry view and of the
-- unspent outputs. Where a theorem needs it, std::sort has its documented contract (Sorts: the
-- result is a rearrangement in ascending order), and the hash has 32 bytes. The magic bytes of the
-- network and the nonce of a ping are arguments too, and so are, in the synchronisation, the
-- rulesets it calls, whether a request is accepted, and the size of an item in memory.
--
-- Pointers. A node of the forest is named by a number that no other node has had, and a pointer to
-- it is that number; a parent's number is below its child's.
--
-- Results of the source. A result is success or an error. The model adds `aborts` for an exception
-- that leaves the rules and for an access, a shift or a signed overflow that C++ leaves undefined;
-- functions outside the rules have `none` there. Machine words wrap at 2 ^ 64 where the source's do.
-- The sizes of transactions and blocks and the offsets in a script are an int of 32 bits: a size that
-- is converted to it wraps, and a sum or a product that it cannot hold is `none` (Common.Int32). The
-- counter of queued bytes is an atomic int, kept as its 32 bits, and wraps. The total of the outputs
-- of a transaction is an int64, and a total beyond it aborts. Heights and times that the source holds
-- in signed integers are natural numbers where they are never negative.
--
-- Undefined reads. EraseChain reads an iterator that it has invalidated, so it is `none` for a node
-- of the forest, and so are PromoteBranch and the end of Add for a branch: the theorems on them say
-- what state is reached before the erasure. A string of fixed length without a zero byte is read past
-- its end, so its read is `none`.
--
-- Bounds. The loop over the layers of a Merkle tree is a recursion on a count of rounds that starts
-- at the number of leaves: a layer of two or more nodes is longer than the next. The loop over the
-- instructions of a script is a recursion on a count that starts one above the number of bytes:
-- every instruction takes a byte at least. The processor's loop over the same instructions has the
-- same count. The loop of AdvanceHandshake has two rounds: behind the two actions of the called node,
-- no state proposes another. The walk from a node of the forest to its root and
-- the erasure of such a path have one round more than the node's number, which goes down at each
-- step. Search looks at 144 headers at most. The long divisions run over the bits of a word or of the
-- integer.
--
-- Not modelled: the flat storage of transactions and the cached identifiers, the file format of
-- blocks, envelopes and the printing of messages, the class Sidecar, the locks of timechain.h, the
-- database of unspent outputs, sockets and threads (src/hornetnodelib), and the SHA-256 functions.
pub mod Common
pub mod Encoding
pub mod Uint
pub mod Protocol
pub mod Script
pub mod Data
pub mod Node
pub mod Consensus
