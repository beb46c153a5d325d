-- ===== src/Tar/Reading/Entries.antt =====
-- deb/tar/writer.go: an entry that is read back, and the end of an archive.
use mkdeb.Prelude.{
  ℕ, zero, suc, ◌+◌, ◌*◌, ◌/◌, ◌≤◌, true, false, ◌≡◌, ◌≢◌, refl, sym, ◌∙◌, ap, List, [], ◌∷◌, ◌++◌,
  append_assoc, Option, none, some, Bytes, bytes_eq, bytes_eq→eq, take, drop, take-append,
  drop-append, length, length-append, length-replicate, ltb, ◌==◌, if◌then◌else◌, if_true, if_false,
  Bool-cases, inl, inr, Result, ok, arith,
}
use mkdeb.Tar.Strconv.{TarError, parse_string, parse_octal}
use mkdeb.Tar.Block.{zero_block, Format, unknown, v7, gnu, star, ustar, pax, get_format}
use mkdeb.Tar.Header.{Header, type_gnu_long_name}
use mkdeb.Tar.Writer.{padding}
use mkdeb.Tar.Writer.Padding.{zeros}
use mkdeb.Tar.Reading.{Entry, read_header, known, named, with_entry, read_content, read_entries}

-- A block that holds a header.
pub record Holds (b : Bytes) (h : Header) : Type 0 where
  pub is_whole : length b ≡ 512
  pub is_known : get_format b ≢ unknown
  pub is_read : read_header b ≡ ok h

-- An entry in front of the bytes `t`.
abbrev pub entry_onto : Bytes → ℕ → Bytes → Bytes → Bytes
entry_onto b size content t = b ++ (content ++ (zeros (padding size) ++ t))

abbrev pub trailer : Bytes
trailer = zero_block ++ zero_block

-- The zero block is no header.
zero_block-unknown : get_format zero_block ≡ unknown
unfolding get_format parse_octal
zero_block-unknown = refl

take-take : (m n : ℕ) (xs : Bytes) → m ≤ n → take m (take n xs) ≡ take m xs
take-take zero n xs h = refl
take-take (suc m) zero xs h = absurd (omega arith)
take-take (suc m) (suc n) [] h = refl
take-take (suc m) (suc n) (x ∷ xs) h = ap (λ (l : Bytes). x ∷ l) (take-take m n xs (omega arith))

no_trailer :
    (b t : Bytes)
    → length b ≡ 512
    → get_format b ≢ unknown
    → bytes_eq (take 1024 (b ++ t)) trailer ≡ false
no_trailer b t l k = elim (Bool-cases (bytes_eq (take 1024 (b ++ t)) trailer)) [
  | inl e ↦
      let q : b ≡ zero_block =
        sym (take-append 512 b t l)
        ∙ sym (take-take 512 1024 (b ++ t) (omega arith))
        ∙ ap (take 512) (bytes_eq→eq (take 1024 (b ++ t)) trailer e)
        ∙ take-append 512 zero_block zero_block refl in
      absurd (k (ap get_format q ∙ zero_block-unknown))
  | inr e ↦ e
]

known-≢ : (f : Format) (r : Result TarError Header) → f ≢ unknown → known f r ≡ r
known-≢ unknown r h = absurd (h refl)
known-≢ v7 r h = refl
known-≢ gnu r h = refl
known-≢ star r h = refl
known-≢ ustar r h = refl
known-≢ pax r h = refl

-- The end of an archive.
pub read_entries-trailer :
    (fuel : ℕ) (pending : Option Bytes) → read_entries (suc fuel) pending trailer ≡ ok []
unfolding read_entries
read_entries-trailer fuel pending = refl

module _ (b : Bytes) (h : Header) (v : Holds b h) (content t : Bytes) (e : length content ≡ h.size)
    (fuel : ℕ) (pending : Option Bytes) where
  abbrev rest : Bytes
  rest = content ++ (zeros (padding h.size) ++ t)

  abbrev behind : Option Bytes → Bytes → Result TarError (List Entry)
  behind = read_entries fuel

  read_block : read_entries (suc fuel) pending (b ++ rest) ≡ read_content behind pending rest (ok h)
  unfolding read_entries
  read_block =
      if_false (bytes_eq (take 1024 (b ++ rest)) trailer) (ok [])
        (read_content behind pending (drop 512 (b ++ rest))
          (known (get_format (take 512 (b ++ rest))) (read_header (take 512 (b ++ rest)))))
        (no_trailer b rest v.is_whole v.is_known)
      ∙ ap
          (λ (x : Bytes).
            read_content behind pending x
              (known (get_format (take 512 (b ++ rest))) (read_header (take 512 (b ++ rest)))))
          (drop-append 512 b rest v.is_whole)
      ∙ ap (λ (x : Bytes). read_content behind pending rest (known (get_format x) (read_header x)))
          (take-append 512 b rest v.is_whole)
      ∙ ap (read_content behind pending rest)
          (known-≢ (get_format b) (read_header b) v.is_known ∙ v.is_read)

  whole_blocks : drop ((h.size + 511) / 512 * 512) rest ≡ t
  whole_blocks =
      let n : length (content ++ zeros (padding h.size)) ≡ (h.size + 511) / 512 * 512 = omega (
        arith,
        length-append content (zeros (padding h.size)),
        e,
        length-replicate {A = ℕ} (padding h.size) 0,
      ) in
      ap (drop ((h.size + 511) / 512 * 512)) (sym (append_assoc content (zeros (padding h.size)) t))
      ∙ drop-append ((h.size + 511) / 512 * 512) (content ++ zeros (padding h.size)) t n

  read_rest : read_content behind pending rest (ok h) ≡ (
      if h.type_flag == type_gnu_long_name
      then behind (some (parse_string content)) t
      else with_entry (record { header = named pending h; content = content }) (behind none t))
  read_rest =
      let short : ltb (length rest) h.size ≡ false =
        ground (arith, length-append content (zeros (padding h.size) ++ t), e) in
      rw (short, take-append h.size content (zeros (padding h.size) ++ t) e, whole_blocks) refl

  -- An entry is read, with the name that was given in front of it.
  pub read_entries-entry :
      (h.type_flag == type_gnu_long_name) ≡ false
      → read_entries (suc fuel) pending (entry_onto b h.size content t)
        ≡ with_entry
            (record { header = named pending h; content = content })
            (read_entries fuel none t)
  read_entries-entry k = read_block ∙ read_rest ∙ if_false (h.type_flag == type_gnu_long_name) _ _ k

  -- The name of the next entry is read.
  pub read_entries-long :
      (h.type_flag == type_gnu_long_name) ≡ true
      → read_entries (suc fuel) pending (entry_onto b h.size content t)
        ≡ read_entries fuel (some (parse_string content)) t
  read_entries-long k = read_block ∙ read_rest ∙ if_true (h.type_flag == type_gnu_long_name) _ _ k
