-- ===== src/Lib.antt =====
-- juju/utils: small packages of Go that Juju shares.
--
-- Parts and files:
--   Common, GoMap, Text: numbers, byte strings, results, Go's maps as lists of entries with one entry
--     for each key, and what the code uses of the packages `strings`, `encoding/hex` and
--     `encoding/base64`. Sorting is the package `sort`.
--   Set: set/strings.go (`Strings`) and set/tags.go (`Tags`). The operations that both files spell out
--     are generic; github.com/juju/names is the parameter `Names`.
--   KeyValues: keyvalues/keyvalues.go, `Parse`.
--   Limiter: limiter.go, a channel with its buffer and its blocked senders. Each call is one step.
--   Attempt: attempt.go. Times are unbounded integers of nanoseconds, and each reading of the clock is
--     an argument.
--   Uuid: uuid.go. The random bytes are an argument.
--   Voyeur: voyeur/value.go. What a goroutine does under the mutex is one step of a machine, and so is
--     each broadcast.
--   DebugStatus: debugstatus/status.go. The variable that `Rename` captures is part of the state.
--   Parallel.Run: parallel/parallel.go, with the runners as a list and any order of their steps.
--   Parallel.Try: parallel/try.go. The loop by the cases of its `select`, and a machine that counts the
--     goroutines that stand at each place.
--   FileLock: fslock/fslock.go. The calls of the operating system by several clients, one at a time;
--     a rename fails if its target exists, and the removal of a directory is one step. Waiting has
--     `NewLock` and the waiting loop.
--   Proxy: proxy/proxy.go. The environment is a function from names to values.
--   Registry: registry/registry.go. The conversion of an object to the required type is an argument.
--   YamlFile: `WriteYaml` and `ReadYaml` of trivial.go; gopkg.in/yaml.v1 is the parameter `Yaml`.
--   Hashing: hash/writer.go, and `ReadSHA256` of trivial.go; a hash function is the parameter `Hash`.
--   Password: password.go; the hash functions are the parameter `Crypto`.
--   JsonHttp: jsonhttp/jsonhttp.go. A handler is the list of its calls on the writer, and its error.
--     Answers has the response that net/http makes of such calls.
--   BasicAuth: `BasicAuthHeader` of http.go.
--   Network: `dial`, the clients of http.go, and `GetIPv4Address` of network.go; the package net is the
--     parameter `Net`.
--   Timers: timeit.go. Pointers to timers are places in a list.
--   Tailer: tailer/tailer.go. The file is a list of bytes that grows between the polls.
--   Shell: `ShQuote` and `CommandString` of trivial.go, and shell/script.go; Reader is what a POSIX
--     shell makes of a text.
--   FeatureFlag: featureflag/flags.go. The package's set of flags is passed from call to call.
--   AtomicWrite: `AtomicWriteFile` of file.go. The disk is a function from names to files, and each call
--     of the operating system shows a new disk.
--   UniqueDirectory: `UniqueDirectory` and `JoinServerPath` of file.go. The loop's rounds are bounded by
--     fuel; a free name among the first n is proved to be found in n rounds.
--   Exec: exec/exec.go. A panic is `none`; what os/exec makes of a command is the parameter `System`.
--   Sizes: size.go, on ASCII texts, with `int` of any width; floating-point numbers are the parameter
--     `Floats`.
--   Symlink: symlink/symlink.go on a POSIX system. The disk is a function from paths to entries.
--   FsCopy: fs/copy.go. The source and the destination are two trees of files, so a copy into the source
--     itself is not modelled; any call may fail.
--   Tar: tar/tar.go. A tree is as in FsCopy, an archive a list of entries; Listing has the files of a tree.
--     Text.Path.Printed has the paths that are joined from names, Text.Path.Parents those of the directories
--     above a path, which `os.MkdirAll` makes.
--   Zip: zip/zip.go, the paths that an archive is extracted to. Text.Path has what it uses of the packages
--     `path` and `path/filepath`, for systems whose separator is the slash.
--   Apt: apt/apt.go. How each run of apt-get ends is an argument; Attempt has the retries.
--   FileStorage: filestorage/metadata.go, metadata_store.go (Documents) and wrapper.go. The two stores
--     that wrapper.go joins are the parameter `Stores`; `IsStore` has the laws that the comments of
--     interfaces.go document.
--   Examples: the theorems at concrete inputs, with a store in memory that meets `IsStore`.
--
-- A Go string is a list of bytes. A panic is the `none` of an outer `Option`; an error is a
-- constructor of a result type, with the values that its message quotes. Loops are over lists, also
-- over the list of what the environment does in each round, but for that of `UniqueDirectory`, two
-- loops of Tailer and the recursion of `timer.String`: a round of `SeekLastLines` moves back over the
-- file, so its length is enough fuel, as is the length of the rest for a poll, and the number of timers
-- is enough for nested calls of `Timeit`. Each is proved to end within it.
--
-- Not modelled: input and output, calls of the operating system other than those that the parts above
-- describe, the files for Windows, what apt/apt.go reads from the output of apt-config and dpkg-query,
-- the compression in trivial.go, and command.go, readpass, uptime, gomaxprocs.go, isubuntu.go and the
-- home directories, which only wrap calls of the system.
pub mod Common
pub mod FsCopy
pub mod Zip
pub mod UniqueDirectory
pub mod Exec
pub mod GoMap
pub mod BasicAuth
pub mod JsonHttp
pub mod Hashing
pub mod Password
pub mod YamlFile
pub mod Registry
pub mod Sorting
pub mod Text
pub mod Set
pub mod Symlink
pub mod Sizes
pub mod KeyValues
pub mod Limiter
pub mod Network
pub mod AtomicWrite
pub mod Attempt
pub mod Uuid
pub mod Voyeur
pub mod DebugStatus
pub mod Parallel
pub mod FileLock
pub mod Proxy
pub mod Tailer
pub mod Tar
pub mod Timers
pub mod Shell
pub mod FeatureFlag
pub mod Apt
pub mod FileStorage
mod Examples
