-- ===== src/Lib.antt =====
-- The ledger's trees of entries and journals (bin/ledger/storage), the search of a common ancestor
-- of commits (bin/ledger/app/merging) and the cloud synchronisation (bin/ledger/cloud_sync),
-- modelled and proved.
--
-- The ledger keeps pages of key-value pairs in a local storage and synchronises their commits and
-- objects with a cloud provider. A page download receives the remote commits, a page upload sends
-- the local ones, in batches, and both tell a delegate their states, which are merged for the
-- watchers.
--
-- Base and its children hold the helpers: Boolean tests, lists, `dcheck` for `FXL_DCHECK`, and
-- `Reaches`, which says that a computation gives a result that satisfies a predicate.
-- CloudSync.SyncState models bin/ledger/cloud_sync/public/sync_state_watcher.{h,cc}: the
-- enumerations in their order, and `merge`. CloudSync.Aggregator models
-- bin/ledger/cloud_sync/impl/aggregator.cc: a list of listeners for the set. In the same folder
-- CloudSync.BatchUpload models impl/batch_upload.cc, CloudSync.PageUpload impl/page_upload.cc and
-- CloudSync.PageDownload impl/page_download.cc. Each has one record for the fields of the class, one
-- function for each method, under the method's name in lower case, and a data type `Pending` of the
-- calls whose callbacks have not run yet. `resume` is the callback of such a call. It gets the reply
-- as an argument, so that nothing is assumed of the storage, of the encryption or of the cloud but
-- what a theorem names. `Reach` relates the states that any order of calls and replies can bring
-- about.
--
-- Storage.Types models bin/ledger/storage/public/types.h. Storage.BTree models
-- bin/ledger/storage/impl/btree/builder.cc: a tree of builders, null, not loaded or with rows of
-- children and entries, and the methods of `NodeBuilder` by their names. Its child Build models
-- `Build` and `ApplyChanges`, Level `GetNodeLevel`; the other children prove. `Is` says that a
-- builder of so many levels has some entries, and that what is not loaded is stored so; `IsTree` is
-- this for at most 256 levels, as a `uint8_t` allows. The recursion runs on fuel 256 and the loop of
-- `Build` takes at most 256 rounds, which is proved to be enough since each step goes down a level
-- and each round makes the part of the tree that is new lower by one. Keys and identifiers are
-- numbers in the same order; the storage of nodes and the hash of keys are parameters.
-- Storage.BTree.Iterator models bin/ledger/storage/impl/btree/iterator.cc, with fuel for the levels
-- that `SkipTo` descends, at most 256, and for the steps of the loops, of which it is proved that
-- some number is enough.
--
-- Merging.CommonAncestor models bin/ledger/app/merging/common_ancestor.cc; its loop runs on fuel, of
-- which two rounds for each generation are proved to be enough.
--
-- CloudSync.PageSync models impl/page_sync_impl.cc, the delegate of both, by its calls.
-- Storage.Journal models bin/ledger/storage/impl/journal_impl.cc, the transactions through which
-- commits are made, with the answers of the page storage as arguments. Storage.Digest models
-- bin/ledger/storage/impl/object_digest.cc on bytes; the hash is a parameter. Backoff models
-- lib/backoff/exponential_backoff.cc; the random draw is an argument.
--
-- Waiter models lib/callback/waiter.h: `Accumulator` is the interface of an accumulator, and `step`
-- makes a request, calls a callback that has not been called yet, finalizes or cancels. The
-- results stay in the accumulator, where the code moves them out at the end. A waiter of
-- CloudSync.BatchUpload is one entry of `pending` with the number of callbacks that it waits for.
--
-- Storage.PageDb models bin/ledger/storage/impl/page_db_impl.cc and page_db_batch_impl.cc: the rows of a
-- page, what a call of the database answers, and batches as lists of writes, which LevelDB makes at
-- once; a row has a second form for the key that `WriteObject` really tests. Storage.Pieces and Storage.PageStorage model bin/ledger/storage/impl/page_storage_impl.cc: the
-- pieces of objects that become local, and the commits that are added, with their heads and what is
-- still to be uploaded; FromSync models the commits that come from the cloud. `commit_serializer_` lets
-- one operation run at a time, so it is a function of the rows, and any call of the database may fail.
-- The rounds over commits that are out of order run on fuel, one more than the commits, which is enough
-- since each round but the last adds one. The loop over pieces runs on fuel, of which it is proved that
-- some number is enough. PageStorage.Rules is a proof rule for the rounds: what each change of a batch
-- keeps holds at their end. Progress and Retries say what the rounds leave.
--
-- In CloudSync, Waiter and Storage.Journal `none` is a failed debug check, in the other parts of
-- Storage and in Merging it is `aborted`, as is the end of the fuel. The loop of `StartObjectUpload`
-- runs on fuel, the number of the objects that wait, which is enough since each round takes one away.
-- `unsigned int` counters are incremented modulo 2 ^ 32.
--
-- Not modelled: the call of `TreeNode::Empty` at the end of `ApplyChanges`, since `Build` leaves no
-- identifier empty, the texts of log messages, the task runner and weak pointers (a callback that is
-- dropped when its object is destroyed), the interruption of a coroutine while it waits for the lock
-- of a page or for trees from the cloud, and the parts of the repository that are not named here.
pub mod Backoff
pub mod Base
pub mod CloudSync
pub mod Merging
pub mod Storage
pub mod Waiter
