-- ===== src/Archive/Control.antt =====
-- deb/package.go: `CreateControlArchive`, its entries and its errors.
use mkdeb.Prelude.{ℕ, ◌≡◌, List, [], ◌∷◌, Option, some, Bytes, codes, ok}
use mkdeb.Spec.{PackageSpec}
use mkdeb.Disk.{Disk, Time}
use mkdeb.Listing.{list_etc_files}
use mkdeb.Content.{calculate_checksums, render_control_file}
use mkdeb.Tar.Writer.{Sink, Writer}
use mkdeb.Archive.{ArchiveError, stops, add_entry, add_script, add_scripts, conf_data}

-- An entry of the control archive.
pub record Part : Type 0 where
  pub mode : ℕ
  pub name : Bytes
  pub content : Bytes

abbrev pub part : ℕ → Bytes → Bytes → Part
part mode name content = record { mode = mode; name = name; content = content }

-- The entries written one behind the other.
abbrev pub add_parts : Sink → Time → List Part → Writer → Writer
add_parts sink now [] w = w
add_parts sink now (x ∷ parts) w =
    add_parts sink now parts (add_entry sink now x.mode x.name x.content w)

-- The control scripts can all be read, and these are their entries.
pub data Scripts (disk : Disk) : List (Bytes × Bytes) → List Part → Type 0 where
  no_scripts : Scripts disk [] []
  one_script :
      {scripts : List (Bytes × Bytes)} {parts : List Part} (name path content : Bytes)
      → disk.read_file path ≡ some content
      → Scripts disk scripts parts
      → Scripts disk ((name, path) ∷ scripts) (part 0o755 name content ∷ parts)

-- The entries of the control archive of a package, in order.
pub record IsControl (md5 : Bytes → Bytes) (disk : Disk) (p : PackageSpec) (keys keys' : List Bytes)
    (scripts : List (Bytes × Bytes)) (parts : List Part) : Type 0 where
  pub sums : Bytes
  pub conf_files : List Bytes
  pub script_parts : List Part
  pub has_sums : calculate_checksums md5 disk p keys ≡ ok sums
  pub has_conf : list_etc_files disk p keys' ≡ ok conf_files
  pub has_scripts : Scripts disk scripts script_parts
  pub in_order :
      parts
      ≡ part 0o644 (codes "md5sums") sums
        ∷ part 0o644 (codes "conffiles") (conf_data conf_files)
        ∷ part 0o644 (codes "control") (render_control_file p)
        ∷ script_parts

module _ (sink : Sink) (now : Time) (disk : Disk) where
  -- The loop from a script on whose file `o` was read.
  abbrev add_from :
      Bytes → Bytes → List (Bytes × Bytes) → Option Bytes → Writer → Writer × Option ArchiveError
  add_from name path scripts o w =
      let (w', e) = add_script sink now name path o w in
      stops e w' (add_scripts sink disk now scripts w')
