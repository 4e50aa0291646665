-- ===== src/Lib.antt =====
-- A verification library for DNF, the package manager (the Python package dnf/ of the repository).
--
-- DNF reads its configuration and repositories, takes a command line (dnf/cli), marks packages and
-- groups for installing or removing (dnf/base.py, dnf/comps.py), lets libsolv solve the request,
-- downloads the packages (dnf/drpm.py, dnf/base.py), checks their signatures (dnf/rpm), runs the rpm
-- transaction under process locks (dnf/lock.py) and records it in the history database (dnf/db,
-- dnf/transaction_sr.py, dnf/util.py). libdnf, hawkey, libcomps and rpm are other projects: what the
-- code asks of them stands as an argument of the definitions that use the answer.
--
-- The files and the code that they model:
--
-- - Aliases: dnf/cli/aliases.py: `Resolver` is the state that the nested functions of
--   `Aliases._resolve` share (`stack`, its top first here, and `self.prefix_options`);
--   `store_prefix` and `subresolve` are those functions, with `visit`, `finish` and `after_alias`
--   for the parts of the latter; `resolve_args` is `_resolve` and `resolve` is `resolve`. The
--   fuel of `subresolve` is the depth of the calls; `fuel_for` is enough. AliasFiles has the
--   loading.
-- - AliasFiles: the files that dnf/cli/aliases.py reads the aliases from: `AliasesConfig`, and
--   `init` with what `Aliases.__init__` calls. A path is named by its last part; the names of the
--   directory are given sorted.
-- - Lock: dnf/lock.py: `ProcessLock` is the object (`owner` and `depth` are its
--   `threading.RLock`), `try_lock` is `_try_lock` on a `Sight` (the lock file as `os.read` and
--   `int` see it, the living processes, the answer of `flock`), `enter` and `exit` are
--   `__enter__` and `__exit__`; the loop of `__enter__` runs over the sights that its attempts
--   meet. Lock/Exclusion has many processes and one lock file with an attempt as one step, where
--   `inside` counts the bodies of `with` and the lock's count is apart from it, since an attempt
--   that raises leaves it as it is, Lock/Race the same with inodes, where `os.open` and the flock
--   are two steps.
-- - Signature: dnf/rpm/miscutils.py and `Base._sig_check_pkg` of dnf/base.py:
--   `process_rpm_output` is `_process_rpm_output` over lines of bytes, `verify_package` is
--   `_verifyPackageUsingRpmkeys` on the finished process, `sig_check_pkg` is `_sig_check_pkg`.
-- - Marks: dnf/base.py, what is kept away from the solver and what it is asked. A query is a test
--   on the packages of the sack; Setting has the configuration and what libdnf finds; each
--   operation returns the list of what it asks the goal and how it ends. Marks.Exclude is
--   `_setup_excludes_includes`, Marks.Multiarch `_install_multiarch`, Marks.Groups
--   `_finalize_comps_trans`, Marks.Packages and Marks.Subjects the operations from `install` to
--   `downgrade_to`; Marks.GroupSpecs `CompsQuery.get` and the operations on patterns of groups,
--   over the solver of Comps; Marks.Specs `install_specs`, Marks.Autoremove `autoremove`.
-- - Texts: dnf/i18n.py. A text is the list of its code points, and which characters are wide, as
--   Python's unicodedata has it, is a parameter. Texts.Wrap is `textwrap_fill`, whose variables
--   over the lines are the record Wrapping.
-- - Transaction: `RPMTransaction` of dnf/db/group.py, and the actions of dnf/transaction.py: the
--   items that are added to the history database, with the package of each, and
--   `populate_rpm_ts`, what rpm is asked to do. Items are named by their position. A package is
--   compared by `id`. `install_set` and `remove_set` keep the order of the items, where the
--   source has sets. Transaction.Goal is `Base._goal2transaction` of dnf/base.py, with the solved
--   goal of libdnf and the answers of the queries in the record Goal. What is reported to the
--   depsolve callback is left out.
-- - Util: dnf/util.py. Util.Sync is `_sync_rpm_trans_with_swdb`, with the items as a list whose
--   positions are the keys of rpm's elements; Util.MakeLists is `_make_lists`, with its result as
--   a function of the name of a list; Util.Specs is `_parse_specs`, where the scheme that
--   urlparse finds is a parameter; Util.Groups is `group_by_filter`, and `insert_if` and
--   `split_by` as lists. The loop of `split_by` is on fuel, one more than the number of items,
--   and its theorem shows that this is enough.
-- - Comps: `CompsTransPkg` and `TransactionBunch` of dnf/comps.py, and `is_removable_pkg` and
--   `is_removable_group` of dnf/db/group.py. Comps.Solver has the operations of `Solver` on
--   groups and Comps.Environment those on environments, over the dictionaries of the two
--   persistors; what the history database and the comps data say is the record World, which does
--   not change while a transaction is prepared. A set is a list that an equal entry is not added
--   to, and the source's loops over sets go in the order of the list. The environment that
--   `_environment_install` stores before it adds the groups is changed in the dictionary.
-- - Delta: `DeltaInfo` of dnf/drpm.py: `delta_factory`, and the queue of rebuild jobs with
--   `enqueue` and `wait`. That a process is started with a number that no running job has, and
--   that the system names a running job when one ends, are hypotheses. Sizes are compared
--   exactly, where the source divides the package's by 100. `wait` is on fuel, and its theorem
--   shows how much is enough.
-- - Download: `_download_payloads` of dnf/repo.py and `Base._download_remote_payloads` of
--   dnf/base.py. What librepo and the rebuilds report in each round is a parameter. The loop of
--   retries is on fuel: the number of retries, or where that is 0, for ever, the number of a
--   round in which no rebuild fails.
-- - Persistor: dnf/persistor.py, over a file that is missing, empty, not JSON, or a list.
--   Persistor.Finalize has `_add_tempfiles`, `_clean_packages` and `_finalize_base` of
--   dnf/base.py, over the files of the disk; which of them can be removed is a parameter, and the
--   list of packages is taken to be writable. Persistor.Repos has the repositories' part of
--   `_store_persistent_data`, with `_configure_repos` of dnf/cli/cli.py that reads it in the next
--   run; whether the system lets a file be read or written is a parameter.
-- - Replay: `TransactionReplay.post_transaction` of dnf/transaction_sr.py, for a transaction that
--   there is. What was collected from the stored transaction and the options are the record
--   Replay; the source raises TransactionReplayError after the loop where `errors` is not empty.
--   Replay.Stored is `serialize_transaction`, `_check_version` and `_load_from_data` over JSON
--   values, with libdnf's names of reasons and types and Python's `int` as parameters;
--   Replay.Stored.Read is what `run` reads of the values by their keys. Replay.Packages is
--   `_replay_pkg_action` and Replay.Groups what `run` does with groups and environments, which
--   differ by the record Section; Replay.Run is `run`. What they ask of the goal and the history
--   is kept as a list of requests, an error of an object as a value; the sack, hawkey's parser of
--   NEVRAs and libdnf's of reasons and types are the fields of Setting and Known.
--
-- Base holds what the parts share: Python's tests, lists, dictionaries in insertion order and texts as
-- code points. Numbers are unbounded, as in Python. Texts that are only compared are `String`.
--
-- Not modelled: output and terminal code, option parsing, plugins, configuration files, the solver and
-- the databases of libdnf, modules, and the commands that only pass their arguments on.
pub mod AliasFiles
pub mod Aliases
pub mod Base
pub mod Comps
pub mod Delta
pub mod Download
pub mod Lock
pub mod Marks
pub mod Persistor
pub mod Replay
pub mod Signature
pub mod Texts
pub mod Transaction
pub mod Util
