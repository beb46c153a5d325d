-- ===== src/Tar/Writer/PaxHeader.antt =====
-- deb/tar/writer.go: `writePAXHeader`, which `writeHeader` calls when PAX headers are allowed.
use mkdeb.Prelude.{
  ℕ, Bool, true, false, List, [], ◌∷◌, ◌++◌, Option, none, some, Bytes, codes, take, drop, length,
  ltb, ◌==◌, if◌then◌else◌, pos,
}
use mkdeb.FilePath.{dir_part, path_join}
use mkdeb.Tar.Strconv.{TarError, to_ascii}
use mkdeb.Tar.Strconv.Pax.{format_pax_record}
use mkdeb.Tar.Header.{Header}
use mkdeb.Tar.Writer.{Sink, Writer, write_header, write, flush}

abbrev pub type_x_header : ℕ
type_x_header = b'x'

-- The order of texts, byte by byte.
unfoldable pub text_lt : Bytes → Bytes → Bool
text_lt s [] = false
text_lt [] (d ∷ t) = true
text_lt (c ∷ s) (d ∷ t) = let rest = text_lt s t in if c == d then rest else ltb c d

-- `sort.Strings` of the keys, each with its value. The keys of a map are all different.
unfoldable pub insert_key : Bytes × Bytes → List (Bytes × Bytes) → List (Bytes × Bytes)
insert_key x [] = x ∷ []
insert_key x (y ∷ ys) =
    let rest = insert_key x ys in if text_lt x.0 y.0 then x ∷ y ∷ ys else y ∷ rest

unfoldable pub sort_keys : List (Bytes × Bytes) → List (Bytes × Bytes)
unfolding insert_key
sort_keys [] = []
sort_keys (x ∷ xs) = insert_key x (sort_keys xs)

abbrev pub all_records : List (Bytes × Bytes) → Bytes
all_records [] = []
all_records ((k, v) ∷ rest) = format_pax_record k v ++ all_records rest

-- The records, in the order of their keys.
unfoldable pub pax_body : List (Bytes × Bytes) → Bytes
unfolding sort_keys
pax_body records = all_records (sort_keys records)

-- The name of the pseudo file: `path.Split`, a directory in between, and 100 bytes of ASCII at most.
unfoldable pub pax_name : Bytes → Bytes
unfolding dir_part
pax_name name =
    let dir = dir_part name in
    let full = path_join (dir ∷ codes "PaxHeaders.0" ∷ drop (length dir) name ∷ []) in
    take 100 (to_ascii full)

abbrev pub pax_header : Header → Bytes → Header
pax_header h body = record {
  name = pax_name h.name;
  mode = 0;
  uid = pos 0;
  gid = pos 0;
  size = length body;
  mod_time = h.mod_time;
  type_flag = type_x_header;
  link_name = [];
  uname = [];
  gname = [];
  dev_major = pos 0;
  dev_minor = pos 0;
}

-- The steps behind the header and behind the body.
abbrev pub flush_body : Sink → Writer → Option TarError → Writer × Option TarError
flush_body sink w none = let w = flush sink w in (w, w.fault)
flush_body sink w (some e) = (w, some e)

abbrev pub write_body : Sink → Bytes → Writer → Option TarError → Writer × Option TarError
write_body sink body w none = let (w, _, e) = write sink body w in flush_body sink w e
write_body sink body w (some e) = (w, some e)

-- `writePAXHeader`.
unfoldable pub write_pax_header :
    Sink → Header → List (Bytes × Bytes) → Writer → Writer × Option TarError
unfolding pax_body pax_name
write_pax_header sink h records w =
    let body = pax_body records in
    let (w, e) = write_header sink (pax_header h body) w in write_body sink body w e
