-- ===== src/Lib.antt =====
-- mkdeb builds a Debian binary package from a JSON configuration and the files on disk. main.go reads
-- the command line; deb/package.go validates the specification, lists the files, gives each its name
-- in the archive, renders the control files, and writes two compressed tar archives into an ar
-- archive; deb/tar is a copy of Go's archive/tar that this repository has changed: a name of more
-- than 100 bytes becomes a GNU long name entry, and PAX headers are not written.
--
-- The files and the code that they are about:
--
--   Spec        deb/package.go: PackageSpec, DefaultPackageSpec, Filename, hasString, join
--   Regex       the regular expressions of package regexp that deb/package.go uses, and a matcher
--   Validate    deb/package.go: reDepends, reReplacesEtc, Validate
--   FilePath    Clean, Join, Base and Rel of path and path/filepath on a slash system
--   Disk        what the program sees of the file system, and FileExists
--   Listing     deb/package.go: NormalizeFilename, ListFiles, ListEtcFiles, MapControlFiles
--   Content     deb/package.go: CalculateSize, md5SumFile, CalculateChecksums, RenderControlFile
--   Tar/Strconv deb/tar/strconv.go: the formatter and the parser of strings and numbers, PAX records
--   Tar/Block   deb/tar/format.go: the header block, SetFormat, GetFormat, ComputeChecksum
--   Tar/Header  deb/tar/common.go: Header, FileInfoHeader, FileInfo, isHeaderOnlyType;
--               deb/tar/stat_unix.go: the owner that statUnix sets
--   Tar/Writer  deb/tar/writer.go: Flush, WriteHeader, Write, Close, splitUSTARPath, writePAXHeader
--   Tar/Reading an independent reader of tar archives: a specification, not a model of code
--   Archive     deb/package.go: CreateDataArchive, CreateControlArchive
--   Build       deb/package.go: Build, writeBytesToAr, writeFileToAr
--   Config      deb/package.go: NewPackageSpecFromJSON, NewPackageSpecFromFile
--   Cli         main.go: main, checkConfig, getAbsPaths, initialize, validate, build, isDir
--   Prelude     Booleans, lists, byte texts, results, decimal numbers and integers
--   Samples     a small package and a disk for the tests
--
-- A text is a list of bytes, an error a constructor of the component's error type, without the words
-- of the message. A record stands for each struct: PackageSpec for the specification, Listing for the
-- two variables of ListFiles, Writer for the tar writer, with the bytes that its sink has received.
-- The control files are made from the list that ListFiles answers and the names that
-- NormalizeFilename gives; the archives are made of both with the tar writer, which takes its fields
-- from the header block and the formatter.
--
-- Parameters: the file system is a record Disk of the answers that it gives at one moment. The order
-- in which Go ranges over the map Files is a list of its keys, and a function brings the control
-- scripts into the order of the range over them. MD5 is a function on byte lists. The
-- sink of the tar writer, the compressor, answers for each chunk whether it takes it, or after how many
-- bytes it fails. A function cuts a file into the pieces that io.Copy reads, and a Boolean says
-- whether the file of an archive could be created. A record World holds what the calls of os, the ar
-- writer and the file of a closed archive answer to Build. The flag set and the JSON encoder and
-- decoder are functions. A record System holds what the operating system answers to a whole run.
--
-- Bounds: the size of one file is a natural number; the sum of CalculateSize is an int64 and wraps.
-- The numbers of the tar fields are integers, and the fields are read and written within the bounds
-- of an int64. The loop of Flush runs on fuel, one round for
-- each byte of padding; a round that does not fail takes at least one byte, so this is enough. The
-- reader of archives has a round for each byte, and an entry takes a block at least. All other loops
-- are recursions over their lists.
--
-- Not modelled: deb/tar/reader.go, which the program never calls; deb/tar/stat_at*.go, which read
-- the times of a file from the operating system; the fields that only a PAX header holds (access and change
-- times, extended attributes) and sparse entries; a FileInfo that came from a header; the JSON
-- decoder; the deferred change back of the working directory, the removal of the workspace, and
-- the words that are printed.
pub mod Prelude
pub mod Regex
pub mod Spec
pub mod Validate
pub mod FilePath
pub mod Disk
pub mod Listing
pub mod Content
pub mod Tar
pub mod Archive
pub mod Build
pub mod Config
pub mod Cli
pub mod Samples
