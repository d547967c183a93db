-- ===== src/Subaddress.antt =====
-- The subaddresses of one account: do_upsert and do_lookahead of src/db/storage.cpp, with
-- check_subaddress_dict of src/db/data.cpp.
-- Minor indexes are below 2^32. The tables are given for one account: `ranges` by major index, and
-- `indexes` with one entry for each public key. LMDB itself is not modelled: a cursor that is given a
-- sound environment answers, and errors of the disk are left out.
pub mod Ranges
pub mod Covered
pub mod Merge
pub mod Upsert
pub mod Complete
pub mod Union
pub mod Lookahead
pub mod Loop
pub mod Runs
