-- ===== src/Merging.antt =====
-- bin/ledger/app/merging: the merge of the heads of a page.
pub mod CommonAncestor
