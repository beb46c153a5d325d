-- ===== src/Archive/ControlRead.antt =====
-- deb/package.go: `CreateControlArchive`, and what a reader of its archive finds.
use mkdeb.Prelude.{
  ℕ, zero, suc, ◌^◌, ◌<◌, true, ◌≡◌, refl, sym, ◌∙◌, ap, List, [], ◌∷◌, Option, none, Bytes, All,
  map, codes, take, length, length-take, Lacks, Result, ok, arith, pos,
}
use mkdeb.Spec.{PackageSpec}
use mkdeb.Disk.{Disk, Time}
use mkdeb.Listing.{ListError, list_etc_files, map_control_files}
use mkdeb.Content.{ContentError, render_control_file}
use mkdeb.Tar.Strconv.{is_ascii}
use mkdeb.Tar.Writer.{Sink, Writer, new_writer, close}
use mkdeb.Tar.Writer.Padding.{IsReliable}
use mkdeb.Tar.Writer.Plain.{IsPlain}
use mkdeb.Tar.Reading.{Entry, read_archive}
use mkdeb.Tar.Reading.Layout.{cut_name, IsEntry, stored_entry}
use mkdeb.Tar.Reading.Written.{add, add_all, read_archive-close}
use mkdeb.Archive.{
  ArchiveError, stops, deferred_close, add_entry, add_script, add_scripts, conf_data, add_conffiles,
  add_md5sums, create_control_archive,
}
use mkdeb.Archive.Control.{Part, add_parts, Scripts, no_scripts, one_script, IsControl}

-- The entry of a part: a regular file of root.
abbrev pub part_entry : Time → Part → Entry
part_entry now x = record {
  header = record {
    name = x.name;
    mode = x.mode;
    uid = pos 0;
    gid = pos 0;
    size = length x.content;
    mod_time = now;
    type_flag = 0;
    link_name = [];
    uname = codes "root";
    gname = codes "root";
    dev_major = pos 0;
    dev_minor = pos 0;
  };
  content = x.content;
}

-- A part that an archive holds: the name is without NUL and its first 100 bytes are ASCII.
pub record IsPart (x : Part) : Type 0 where
  pub part_nul : Lacks 0 x.name
  pub part_ascii : is_ascii (take 100 x.name) ≡ true
  pub part_length : length x.name < 8 ^ 10
  pub part_mode : x.mode < 8 ^ 7
  pub part_size : length x.content < 8 ^ 11

Lacks-take : (n : ℕ) (s : Bytes) → Lacks 0 s → Lacks 0 (take n s)
Lacks-take zero s h = refl
Lacks-take (suc n) [] h = refl
Lacks-take (suc n) (c ∷ s) h = ground (arith, Lacks-take n s)

pub part-IsEntry : (now : Time) (x : Part) → IsPart x → IsEntry (part_entry now x)
unfolding is_ascii
part-IsEntry now x v =
    let plain : IsPlain (cut_name (part_entry now x).header) = record {
      plain_name =
          (v.part_ascii, omega (arith, length-take 100 x.name), Lacks-take 100 x.name v.part_nul);
      plain_mode = v.part_mode;
      plain_uid = omega arith;
      plain_gid = omega arith;
      plain_size = v.part_size;
      plain_flag = omega arith;
      plain_link = (refl, omega arith, refl);
      plain_uname = (refl, omega arith, refl);
      plain_gname = (refl, omega arith, refl);
      plain_major = omega arith;
      plain_minor = omega arith;
    } in
    (
      record {
        storable_name = v.part_nul;
        storable_length = v.part_length;
        storable_fields = plain;
        storable_flag = refl;
      },
      refl,
    )

parts-IsEntry :
    (now : Time) (parts : List Part) → All IsPart parts → All IsEntry (map (part_entry now) parts)
parts-IsEntry now [] vs = tt
parts-IsEntry now (x ∷ parts) (v, vs) = (part-IsEntry now x v, parts-IsEntry now parts vs)

add_parts-add_all :
    (sink : Sink) (now : Time) (parts : List Part) (w : Writer)
    → add_parts sink now parts w ≡ add_all sink (map (part_entry now) parts) w
unfolding add_entry
add_parts-add_all sink now [] w = refl
add_parts-add_all sink now (x ∷ parts) w =
    add_parts-add_all sink now parts (add sink (part_entry now x) w)

module _ (sink : Sink) (now : Time) (disk : Disk) where
  Scripts-add_parts :
      {scripts : List (Bytes × Bytes)} {parts : List Part} (w : Writer)
      → Scripts disk scripts parts
      → add_scripts sink disk now scripts w ≡ (add_parts sink now parts w, none)
  unfolding add_scripts add_script
  Scripts-add_parts w no_scripts = refl
  Scripts-add_parts w (one_script {scripts} name path content e s) =
      let from : Option Bytes → Writer × Option ArchiveError = λ o.
        let (w', x) = add_script sink now name path o w in
        stops x w' (add_scripts sink disk now scripts w') in
      ap from e ∙ Scripts-add_parts (add_entry sink now 0o755 name content w) s

  module _ (md5 : Bytes → Bytes) (p : PackageSpec) (keys keys' : List Bytes)
      (order : List (Bytes × Bytes) → List (Bytes × Bytes)) where
    create_control_archive-parts :
        (parts : List Part)
        → IsControl md5 disk p keys keys' (order (map_control_files disk p)) parts
        → create_control_archive sink md5 disk now true p keys keys' order
          ≡ ((close sink (add_parts sink now parts new_writer)).0, none)
    unfolding create_control_archive deferred_close add_md5sums add_conffiles
    create_control_archive-parts parts c =
        let w1 : Writer = add_entry sink now 0o644 (codes "md5sums") c.sums new_writer in
        let w2 : Writer =
          add_entry sink now 0o644 (codes "conffiles") (conf_data c.conf_files) w1 in
        let w3 : Writer = add_entry sink now 0o644 (codes "control") (render_control_file p) w2 in
        let no_error : Option ArchiveError = none in
        ap
          (λ (r : Result ContentError Bytes). deferred_close sink (
            add_md5sums sink disk now p (order (map_control_files disk p))
              (list_etc_files disk p keys') r new_writer))
          c.has_sums
        ∙ ap
            (λ (r : Result ListError (List Bytes)).
              deferred_close sink
                (add_conffiles sink disk now p (order (map_control_files disk p)) r w1))
            c.has_conf
        ∙ ap (deferred_close sink) (Scripts-add_parts w3 c.has_scripts)
        ∙ ap (λ (ps : List Part). ((close sink (add_parts sink now ps new_writer)).0, no_error))
            (sym c.in_order)

    -- When the checksums and the configuration files can be computed and the control scripts read,
    -- `CreateControlArchive` returns no error, and on a sink that takes every chunk whole an independent
    -- reader of its archive finds md5sums, conffiles, control and the scripts, in this order, each with
    -- its mode, its owner root and its contents. The names are without NUL and ASCII in their first
    -- 100 bytes, and the sizes are those of eleven octal digits.
    pub read_archive-create_control_archive :
        IsReliable sink
        → (parts : List Part)
        → IsControl md5 disk p keys keys' (order (map_control_files disk p)) parts
        → All IsPart parts
        → ((create_control_archive sink md5 disk now true p keys keys' order).1 ≡ none)
          × (read_archive (create_control_archive sink md5 disk now true p keys keys' order).0.out
              ≡ ok (map stored_entry (map (part_entry now) parts)))
    read_archive-create_control_archive r parts c vs =
        let e = create_control_archive-parts parts c in
        let es = map (part_entry now) parts in
        (
          ap (λ (x : Writer × Option ArchiveError). x.1) e,
          ap (λ (x : Writer × Option ArchiveError). read_archive x.0.out) e
              ∙ ap (λ (w : Writer). read_archive (close sink w).0.out)
                  (add_parts-add_all sink now parts new_writer)
              ∙ (read_archive-close sink r es (parts-IsEntry now parts vs)).1,
        )
