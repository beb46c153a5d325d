-- ===== src/Tar/Tests.antt =====
-- The theorems about the archive format on small inputs.
use mkdeb.Prelude.{
  IsDigit, All, ◌++◌, ℕ, zero, suc, All, ◌%◌, ◌<◌, true, false, ◌≡◌, refl, List, [], ◌∷◌, ◌++◌,
  none, some, Bytes, codes, length, ltb, ok, ◌>>=◌, pos, negsuc, arith, bytes_eq,
}
use mkdeb.Tar.Strconv.{
  missed_writing, format_octal, parse_octal, format_numeric, parse_numeric, fits_in_base256,
}
use mkdeb.Tar.Strconv.Octal.{parse_octal-format_octal}
use mkdeb.Tar.Strconv.Binary.{parse_numeric-format_numeric}
use mkdeb.Tar.Block.{
  zero_block, slice, star_trailer, trailer_star, gnu, star, ustar, pax, set_format,
}
use mkdeb.Tar.Block.Sealing.{IsBlock}
use mkdeb.Tar.Block.Checksum.{format_read, get_format-set_format}
use mkdeb.Disk.{FileInfo, directory}
use mkdeb.Tar.Header.{Header, type_reg, file_info_header}
use mkdeb.Tar.Header.Info.{header_file_info}
use mkdeb.Tar.Header.InfoBack.{reported, header_file_info-file_info_header}
use mkdeb.Tar.Header.Kinds.{Announces, file_info_header-Announces}
use mkdeb.Tar.Writer.{Sink, Writer, new_writer, close, pad_out}
use mkdeb.Tar.Writer.Padding.{IsReliable, zeros, pad_out-rounds}
use mkdeb.Tar.Writer.Flushed.{IsAligned}
use mkdeb.Tar.Writer.Aligned.{Call, start, content, finish, run, run-IsAligned}
use mkdeb.Tar.Writer.Closing.{close-trailer, run-close}

parse_octal-format_octal_example :
    (digits : Bytes) × All (IsDigit 8) digits
    × (length digits ≡ 7)
    × (format_octal 8 (pos 0o644) ≡ ok (digits ++ 0 ∷ []))
    × (parse_octal (digits ++ 0 ∷ []) ≡ ok (pos 0o644))
parse_octal-format_octal_example = parse_octal-format_octal 6 0o644 (omega arith) (omega arith)

minus_ten_fits : fits_in_base256 8 (negsuc 9) ≡ true
unfolding fits_in_base256
minus_ten_fits = refl

parse_numeric-format_numeric_example :
    (format_numeric 8 (negsuc 9) >>= parse_numeric) ≡ ok (negsuc 9)
parse_numeric-format_numeric_example =
    parse_numeric-format_numeric 8 (negsuc 9) (omega arith) (omega arith) minus_ten_fits

zeros-IsByte : (n : ℕ) → All (λ c. c < 256) (zeros n)
zeros-IsByte zero = tt
zeros-IsByte (suc n) = (omega arith, zeros-IsByte n)

zero_block-IsBlock : IsBlock zero_block
zero_block-IsBlock = (refl, zeros-IsByte 512)

get_format-set_format_example :
    (format_read (set_format gnu zero_block) ≡ some gnu)
    × (format_read (set_format star zero_block) ≡ some star)
    × (bytes_eq (slice star_trailer zero_block) trailer_star ≡ false
        → (format_read (set_format ustar zero_block) ≡ some ustar)
          × (format_read (set_format pax zero_block) ≡ some ustar))
get_format-set_format_example = get_format-set_format zero_block zero_block-IsBlock

abbrev open_sink : Sink
open_sink out chunk = none

abbrev small_header : Header
small_header = record {
  name = codes "md5sums";
  mode = 0o644;
  uid = pos 0;
  gid = pos 0;
  size = 3;
  mod_time = record { seconds = pos 1000000000; nanos = 0 };
  type_flag = type_reg;
  link_name = [];
  uname = codes "root";
  gname = codes "root";
  dev_major = pos 0;
  dev_minor = pos 0;
}

abbrev small_calls : List Call
small_calls = start small_header ∷ content (codes "abc") ∷ finish ∷ []

pad_out-rounds_example :
    (pad_out open_sink 600 509 (codes "abc") ≡ pad_out open_sink 509 509 (codes "abc"))
    × (IsReliable open_sink
        → ((pad_out open_sink 600 509 (codes "abc")).received ≡ codes "abc" ++ zeros 509)
          × ((pad_out open_sink 600 509 (codes "abc")).failure ≡ none))
pad_out-rounds_example = pad_out-rounds open_sink 600 509 (codes "abc") (omega arith)

run-IsAligned_example : IsAligned (run open_sink small_calls new_writer)
run-IsAligned_example = run-IsAligned open_sink (λ out chunk. refl) small_calls new_writer refl

-- A writer whose entry has all of its bytes.
abbrev full_writer : Writer
full_writer = record new_writer { out = zero_block ++ codes "abc"; pad = 509 }

close-trailer_example :
    ((close open_sink full_writer).0.closed ≡ true)
    × (ltb 0 0 ≡ true
        → ((close open_sink full_writer).1 ≡ some (missed_writing 0))
          × ((close open_sink full_writer).0.out ≡ full_writer.out))
    × (full_writer.nb ≡ 0
        → ((close open_sink full_writer).1 ≡ none)
          × ((close open_sink full_writer).0.out
              ≡ ((full_writer.out ++ zeros 509) ++ zero_block) ++ zero_block)
          × (length (close open_sink full_writer).0.out % 512 ≡ 0))
close-trailer_example = close-trailer open_sink (λ out chunk. refl) full_writer refl refl refl

-- A sink that takes 100 bytes and fails.
abbrev broken_sink : Sink
broken_sink out chunk = some 100

run-close_example :
    run broken_sink small_calls (close broken_sink full_writer).0
    ≡ (close broken_sink full_writer).0
run-close_example = run-close broken_sink small_calls full_writer refl

abbrev small_directory : FileInfo
small_directory = record {
  name = codes "etc";
  size = 4096;
  kind = directory;
  perm = 0o755;
  setuid = false;
  setgid = false;
  sticky = false;
  mod_time = record { seconds = pos 1000000000; nanos = 0 };
  uid = 7;
  gid = 8;
}

abbrev directory_header : Header
directory_header = record {
  name = codes "etc/";
  mode = 0o40755;
  uid = pos 7;
  gid = pos 8;
  size = 0;
  mod_time = record { seconds = pos 1000000000; nanos = 0 };
  type_flag = b'5';
  link_name = [];
  uname = [];
  gname = [];
  dev_major = pos 0;
  dev_minor = pos 0;
}

small_directory_header :
    file_info_header small_directory (codes "deb-pkg/etc") (pos 7, pos 8) ≡ some directory_header
unfolding file_info_header
small_directory_header = refl

file_info_header-Announces_example : Announces small_directory directory directory_header
file_info_header-Announces_example =
    file_info_header-Announces small_directory (codes "deb-pkg/etc") (pos 7, pos 8) directory_header
      small_directory_header

header_file_info-file_info_header_example :
    header_file_info directory_header ≡ reported small_directory
header_file_info-file_info_header_example =
    header_file_info-file_info_header small_directory (codes "deb-pkg/etc") (pos 7, pos 8)
      (omega arith) (refl, refl, refl, refl) directory_header small_directory_header
