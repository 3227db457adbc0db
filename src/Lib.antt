-- ===== src/Lib.antt =====
-- Verification of libgocryptfs, the library behind an encrypted overlay file system.
--
-- A file on disk is a header followed by blocks. A block holds a nonce, the encrypted bytes and a
-- tag; its number and the file ID of the header are authenticated with it. Names of files are padded,
-- encrypted with a wide-block cipher and written in base64; a name that gets too long is hashed, and
-- the full name kept in a file beside it.
--
--   Prelude            numbers, lists, byte slices, text constants, and `Outcome`: a value, an error or
--                      a panic
--   CryptoCore         internal/cryptocore: the record of ciphers. The ciphers are arguments, with the
--                      documented laws of cipher.AEAD as `IsAead`
--   CryptoCore/Setup   `New` of internal/cryptocore/cryptocore.go
--   ContentEnc/Offsets       internal/contentenc/offsets.go: sizes and offsets, on 64 bits
--   ContentEnc/IntraBlocks   internal/contentenc/intrablock.go and ExplodePlainRange and
--                            ExplodeCipherRange of offsets.go
--   ContentEnc/Header        internal/contentenc/file_header.go
--   ContentEnc/Blocks        internal/contentenc/content.go: encrypting, decrypting and merging
--   NameTransform/Pad16      internal/nametransform/pad16.go
--   NameTransform/Valid      internal/nametransform/valid.go
--   NameTransform/Base64     base64.URLEncoding and base64.RawURLEncoding of Go, with Strict
--   NameTransform/LongNames  internal/nametransform/longnames.go without its input and output
--   NameTransform/Names      internal/nametransform/names.go and badname.go
--   ConfigFile/Flags         internal/configfile/feature_flags.go
--   ConfigFile/Scrypt        internal/configfile/scrypt.go
--   ConfigFile/Settings      internal/configfile/validate.go, and the settings of config_file.go
--   ConfigFile/KeyWrap       internal/configfile/config_file.go: the encrypted master key
--   DirCache                 dircache.go: the cache of open directories
--   DirCache/Races           dircache.go: Delete, which takes no mutex, statement by statement
--   Handles                  file.go: the table of file handles
--   Sessions                 volume.go: the table of opened volumes, and closing a volume
--   FileOps/Actions          the steps of file.go on one open file: the bytes of the backing file, the
--                            cached file ID, the calls of the system that fail and the random bytes
--   FileOps                  file.go: doRead and doWrite
--   FileOps/Truncate         file.go: truncate and what it calls
--   FileOps/Exports          file.go: gcf_read_file, gcf_write_file and gcf_truncate
--   FileOps/Backed           what a backing file stands for; the modules beside it, but Exports and Attrs,
--                            prove what the operations make of it
--   FileOps/Attrs            helpers.go: sizes and symlinks
--   Volume                   volume.go: what `registerNewVolume` builds from the parts above
--   Getdents                 internal/syscallcompat/getdents_linux.go: the entries of a directory
--   Transfer                 cli.go and sync.go: the loops that copy a file in and out, from the opened
--                            handle on
--   Sync                     sync.go: the helpers on paths and times
--   Sync/Volumes             mkdirAll of cli.go, and what sync.go asks of the engine
--   Sync/Encrypt             sync.go: encryptSync and pruneVolume; the modules below it prove what
--                            -delete leaves alone and what a dry run does
--   Sync/Decrypt             sync.go: decryptSync and pruneDisk, and a dry run
--   Sync/Memory              a volume in memory, for the instances
--   CommandLine              cli.go: the arguments of the command and the password
--   Samples                  simple ciphers, for the instances in the modules named Examples
--
-- A function that can fail or panic returns an `Outcome`. Numbers of type uint64 wrap at 2 ^ 64; the
-- type int, of 64 bits, is not given a bound, but in ConfigFile/Scrypt. The two loops that explode a
-- range and the loop of DecryptBlocks run on fuel, one more than the number of bytes, since each round
-- takes a byte at least; the search for a free handle runs one round more than the table has entries.
-- `stuck` stands for no fuel left. The goroutines of encryptBlocksParallel write disjoint ranges of
-- one slice, so that their result is the concatenation. A random nonce is an argument, by the index of
-- its block in the request.
--
-- An open file is the list of the bytes on disk beside the cached file ID. Each operation of file.go
-- runs alone, so that its locks are not modelled. A call of the system fails where the environment says
-- so; EnospcPrealloc runs once, and once more for each retry that the environment allows.
--
-- The loops that copy a file run on the reads of the source, which is a list, and on fuel, of which one
-- round more than there are bytes is enough. encryptSync runs over the entries that filepath.WalkDir
-- hands out; the fuel of pruneVolume, of pruneDisk and of the walk of decryptSync bounds the depth of
-- the directories. The loops of getdents run on fuel, one more than the number of bytes, since each
-- record has a byte at least. The calls of the engine on directories and attributes, which sync.go
-- makes, are an interface without laws: its times may be rounded, and its calls may fail.
--
-- The ciphers, EME, SHA-256, filepath.Match, filepath.WalkDir, path.Clean and the system calls are
-- parameters. Of the pools of buffers there are the panics on a request that is too long for them:
-- doRead can not cut it out of the slice, and doWrite can not put the longer slice back. Logging, the
-- wiping of keys and the JSON form of the configuration are not modelled, nor are the opening of files,
-- the operations on directories, find and the printed messages.
pub mod Prelude
pub mod CryptoCore
pub mod ConfigFile
pub mod DirCache
pub mod Handles
pub mod FileOps
pub mod Volume
pub mod Samples
pub mod ContentEnc
pub mod NameTransform
pub mod Transfer
pub mod Sync
pub mod Getdents
pub mod CommandLine
pub mod Sessions
