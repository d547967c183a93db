-- ===== src/Lib.antt =====
-- A model of the light wallet server xfo-lws, and what it keeps to.
--
-- Parts of the program and their files here:
-- - src/db/multisig_store.h, src/db/multisig_store.cpp: MultisigStore. The class multisig_store is the
--   record MultisigStore (data_ is `addresses`, wallets_ `wallets`, and the file at storage_path_
--   `file`); register_tx_ex, register_tx, register_wallet, list_wallets, get_balance and
--   get_transactions are the functions of those names, save_locked and load_locked likewise, and the
--   constructor is open_store. MultisigStore/Records has the structs, MultisigStore/Json read_bytes and
--   write_bytes; the other files hold proofs: Cases (the branches of register_tx_ex), Totals, Effects,
--   Repeat, Wallets, JsonLaws, Plain, Restart.
-- - src/wire: Wire has the reader and writer that the store's JSON goes through, over documents
--   (`Value`): read_array is array_unchecked of src/wire/read.h, open_object the loop of
--   wire_read::object with json_reader::key, write_array and array_field are of src/wire/write.h.
-- - src/wire/msgpack: Msgpack, the second format. The module itself has the tags of base.h, Write the class
--   msgpack_writer, Read the class msgpack_reader as actions that change the reader or throw, and Skip its
--   skip_value and key. A std::size_t has 64 bits; expected_ wraps around. The loop of skip_value has fuel,
--   the bytes that remain and one, of which each round takes one (Termination). Documents has whole values,
--   written as the serialisers do, to state what skip_value does with them (Skipping, Written, Whole).
-- - src/rest_server.cpp: Registry has the limits and the eviction loop that two registries share.
--   Txset has the unstake txsets (lws_unstake_txsets) with multisig_txset_register,
--   multisig_txset_signature and multisig_txset_submit (Registering, Signing, Submitting); Kex the key
--   exchange records (lws_multisig_kex_records) with multisig_kex_submit, multisig_kex_status and
--   multisig_kex_finalize (Submitting, Reporting, Finalizing), which also registers a wallet in the multisig
--   store, and File the file of the registry, which multisig_kex_submit writes. Login has key_check,
--   is_hidden and open_account, and address_string of src/db/string.cpp. The requests and responses are
--   those of src/rpc/multisig.h. MultisigApi has the handlers over the multisig store: multisig_balance,
--   multisig_register, multisig_txs, multisig_list_wallets and multisig_register_wallet_handler.
-- - src/rpc/scanner/queue.h, src/rpc/scanner/queue.cpp: Queue, with what src/scanner.cpp does with the
--   accounts it takes. Queue/Refinement compares it with direct delivery, Queue/Heights is about the
--   lowest scan height.
-- - src/db/storage.cpp (do_upsert, do_lookahead), src/db/data.cpp (check_subaddress_dict): Subaddress.
--   Ranges has the ranges of one major index and their merge, Upsert do_upsert, Lookahead do_lookahead
--   with its loop over the outputs; Covered, Merge, Complete, Union and Loop hold proofs. The tables of
--   ranges and of indexes are dictionaries with number keys (`Table` of Base).
-- - src/db/storage.cpp (accounts and requests), src/db/data.h: Users, with a table of accounts, their rows by
--   address and by height, and the requests. Accounts, Rescans and Requests have the operations; Consistent
--   says when the tables agree. The order of an LMDB table's rows is not seen (Base.Rows): a row has a key
--   and the number that sorts it, and a write that fails leaves the tables as they were.
-- - src/db/storage.cpp (rollback, sync_chain, sync_pow): Chain. Tables has the rows and the moves of a cursor,
--   Rollback rollback_chain and the functions it calls, Sync rollback, append_block_hashes and
--   sync_chain, Pow append_pow and sync_pow; the other files hold proofs. A row keeps the fields that these functions
--   read or change, an LMDB table is the list of its rows in order.
-- - src/db/account.cpp: Account, the class account with its constructor, clone, updated, get_spendable,
--   add_out and add_spend. Account/Sorted is about sorted vectors, Account/Outputs compares the searches
--   with linear ones.
-- - src/rpc/scanner/client.cpp, src/rpc/scanner/server.cpp: Dispatch. Client has client::push_accounts
--   and client::replace_accounts over the queues of Queue, Server the choice of threads in check_users
--   and do_replace_users; Shares, Push, Replace, Spread and Balance hold proofs.
-- - src/util/random_outputs.cpp: RandomOutputs, pick_random_outputs with triangular_pick, gamma_pick and
--   pick_all. Sizes and Rings hold proofs.
-- - Base has what they share: Boolean tests, lists, texts, and dictionaries with text keys (`Dict`), for
--   std::map and std::unordered_map alike. Files named Runs hold concrete runs.
--
-- Each handler and method that holds its mutex throughout is one step on the state. The clock, the
-- environment and the outcome of writing a file are arguments; a disk may fail to give the directory,
-- fail to open the file, or leave some other text in it. Histories are lists of calls. A handler's
-- answer is a value; exceptions that a caller catches are an answer too.
--
-- Integers are natural numbers; sums of std::uint64_t are taken modulo 2 ^ 64. The eviction loop runs on
-- fuel, which is the number of records when it starts: each round removes one, and the loop stops by
-- itself when it finds none to remove (Registry/Room). The loop over the outputs of do_lookahead runs
-- on fuel, a round for each output and one (Subaddress/Loop), and the round robin of check_users on the
-- number of accounts, of which each round erases one. The loop of triangular_pick that rejects draws may
-- go on for ever and has fuel, with `unfinished` where it ends. Every other loop but that of skip_value is
-- structural.
--
-- Parameters: the Monero library (`Monero`), rapidjson (`Rapidjson`, of which only reading back what
-- was printed is used, and that at the document in question), the account tables (`Accounts`), the
-- random source and the daemon's answers of RandomOutputs, the derivation of a subaddress's key, the public key of a secret key (`public_of`), and
-- with `Decoder` the hexadecimal texts of epee and decode_registered_multisig_amount, which asks the
-- daemon for a transaction and decodes it by cryptography.
--
-- Not modelled: the order
-- in which std::unordered_map is walked, for which the order of insertion stands, and which of several
-- records with the same time the eviction takes; the two locks of multisig_kex_finalize, between which
-- no other handler runs here, and the registry's file in multisig_kex_status and multisig_kex_finalize;
-- a save of the multisig store whose last bytes fail to be flushed when the stream is closed, after the
-- test; of the account database accept_requests, update, webhooks
-- and the key images, and the lookahead of change_height;
-- the scanner, the remaining endpoints, and all network, thread and process handling. Of
-- check_users the comparison with the active accounts is left out, and of gamma_picker.cpp the
-- floating point arithmetic.
pub mod Base
pub mod Wire
pub mod Registry
pub mod Login
pub mod MultisigStore
pub mod Txset
pub mod MultisigApi
pub mod Kex
pub mod Queue
pub mod RandomOutputs
pub mod Subaddress
pub mod Chain
pub mod Account
pub mod Dispatch
pub mod Msgpack
pub mod Users
