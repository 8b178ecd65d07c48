-- ===== src/Lib.antt =====
-- A model of the Teleport node (peer-node/flex), the C++ program under src/.
--
-- Users trade over escrow, and the secrets of the escrow are held by relays. All nodes agree on who
-- the relays are by handling the same messages in the same order: RelayState (src/relays/
-- relaystate.h) is what they agree on, and RelayStateChain brings it up to date with the messages of
-- a batch of credits, or takes a message back when the chain of credits is reorganised.
--
-- Files:
--   StdMap, StdMap/*: std::map and std::set, as association lists in the order of the keys.
--   VectorTools, VectorTools/Laws: src/vector_tools.h.
--   Exceptions: the exceptions of the relay code. A function that may throw returns a Result, which
--     keeps the state as the exception leaves it.
--   RelayState: the class RelayState of src/relays/relaystate.cpp, its maps as fields of a record.
--     add_relay is AddRelay, remove_relay RemoveRelay, trim_relays TrimRelays, and so on. Platform
--     has the constants of both builds and what comes from OpenSSL: Hash160 of a number, BN_get_word.
--     Selection has the executors, the successors and ChooseRelays. The theorems are in Numbering,
--     Trim, and the children of Selection.
--   RelayChain: the class RelayStateChain. Handlers has HandleJoin and HandleLeave, Complaints the
--     handlers of complaints, successions and refutations, each with its UnHandle function; Validation
--     has the Validate functions, Batch the dispatch, HandleMessages and HandleBatch. Undo and UndoJoin
--     say what taking a message back restores.
--   HashTrees: src/crypto/hashtrees.h. Node has HashNode and HashTree, with the hashes that the nodes
--     remember; DiurnalBlock the row of hashes with a tree over it. TreeHash is a parameter.
--     Ordered has OrderedHashTree, whose elements take their positions from the order of their hashes.
--   Credits: src/credits. Batch has CreditBatch over an ordered tree, Transaction the class
--     UnsignedTransaction with the hash that it remembers. The bytes of keys are a parameter.
--   Calendar: src/teleportnode/calendar.cpp. Difficulty has GetDifficulty, its inverse and
--     ApplyAdjustments; Diurn the class Diurn_, which keeps the credits of a day in a DiurnalBlock;
--     TopUp the checks of extra_work and DropTopUpWorkCredits of the class Calendar_. WorkDone() and
--     SpotCheck().Valid() of a proof are fields of the pair that holds it. Tip has AddMinedCreditToTip
--     and what it calls; Frame says what each branch changes, Reached which calendars come about, and
--     Trim how much top-up work TrimTopUpWork drops. Check has Validate, CheckRootsAndDifficulty and
--     SpotCheckWork: Accepted says what they accept, Failures what a failure leaves. Populate makes a
--     calendar again of the stored data; Calends and Credits say what it finds, and Rebuilt compares
--     it with what AddMinedCreditToTip records. Connection has CreditInBatchHasValidConnection, and
--     Whole puts a batch, a diurn and a calendar together. The
--     class MinedCredit is not in the repository; its batch numbers are uint32_t, and their differences
--     wrap. An exception of GetRelayState, where a calend is taken in, comes from the data; what
--     RecordRelayState writes is no part of the calendar.
--   BitChain: the class BitChain of src/crypto/hashtrees.h, with its bytes. Row is the row of Booleans
--     that a chain stands for, and Refine and Hash compare the two.
--   CreditUtil: src/credits/creditutil.cpp. GetFork and ChangeSpentChain over a History, which holds
--     what the database says of credits. Calends and Since are about the credits since a calend,
--     Batches and Length about the batch that is made again of a message. Transactions has
--     TransactionsConflict, GetTxDifferences and TransactionDepth, which the memory pool calls.
--   MemPool: the class MemPool of src/mining/pit.cpp. The theorems are in Conflict, Symmetric and Reached.
--   CreditPit: the class CreditPit of the same file, as far as it keeps what is accepted for the next
--     batch. A pit holds a MemPool and a CreditBatch. Loops has lemmas on its loops, Tip is about
--     AddBatchToTip, Fresh and Reached about a step relation of its calls.
--   Orphanage: the class Orphanage of src/teleportnode/orphanage.h. Total has how often a hash stands in
--     its databases, Counted and Released how the counts of missing parents follow.
--   MessageHandler: the class MessageHandlerWithOrphanage of test/teleport_tests/node, with which the
--     handlers of messages hold back those whose dependencies are missing, and Handle and Handle...Stream
--     of the macro HANDLECLASS. Several objects share msgdata; a Receiver is one of them, with the classes
--     of its HANDLEHASH and what its handlers do to msgdata. Missing and Registered are about
--     RegisterIncomingMessage, Handled about Handle, which calls itself for the messages set free,
--     Delivery and Delivered about any order of arrival, where the handlers do nothing but reject.
--   Examples files: concrete states on which the theorems are applied.
--
-- Keys of the maps (points of the curve and hashes) are numbers in the order of their operator<. The
-- database is a record of functions from hashes to stored values (RelayChain.Data), and so are the
-- signatures and the message class RelayJoinMessage, whose header the repository does not have.
--
-- Fuel: TrimRelays removes one relay in a round, so the number of relays is enough. ChooseRelays
-- chooses one relay in a round, so one more than the eligible relays is enough. SurvivingSuccessor
-- and SelectRelay run on fuel too; no bound is stated for them. A node of a tree of hashes covers at
-- least one element, so the number of elements is enough to build it. The loops that infer a number
-- of adjustments take one round for each of them.
-- Handle goes from a message to one that came before it, so the number of messages is enough.
-- GetFork goes back one credit in a round, so one more than the greater batch number is enough. The
-- loops of GetSpentChainDifferences have the 300 rounds of the code. GetTxDifferences goes back
-- one credit in a round too; its model returns nothing where fuel runs out, and no bound is stated.
-- PopulateCalends takes a round for each calend and PopulateDiurn one for each credit before the last;
-- for the inner loop of PopulateTopUpWork no bound is stated.
--
-- Not modelled: the network, the database, the RPC server, the user interfaces, signatures and hash
-- functions, and the trading and deposit code.
pub mod Common
pub mod StdMap
pub mod VectorTools
pub mod Exceptions
pub mod RelayState
pub mod RelayChain
pub mod HashTrees
pub mod BitChain
pub mod Calendar
pub mod Credits
pub mod CreditUtil
pub mod MemPool
pub mod CreditPit
pub mod Orphanage
pub mod MessageHandler
