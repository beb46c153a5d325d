-- ===== src/Listing/Order.antt =====
-- deb/package.go: `ListFiles` and the order of the range over `Files`.
use mathlib.Core.Path.{subst}
use mathlib.Core.List.{Permᴰ}
use mkdeb.Prelude.{◌≡◌, refl, sym, ◌∙◌, inl, inr, Bool, List, [], ◌∷◌, ◌++◌, Bytes, ok}
use mkdeb.Spec.{PackageSpec}
use mkdeb.Spec.Strings.{Member}
use mkdeb.Disk.{Disk}
use mkdeb.Listing.{normalize_filename, auto_visits, list_files}
use mkdeb.Listing.Loops.{Aligned, picked}
use mkdeb.Listing.Complete.{Distinct, candidates, IsListable, list_files-IsListable}

perm_refl : (xs : List Bytes) → Permᴰ xs xs
perm_refl [] = Permᴰ.nil
perm_refl (x ∷ xs) = Permᴰ.cons refl (perm_refl xs)

perm-append : (xs : List Bytes) {ys zs : List Bytes} → Permᴰ ys zs → Permᴰ (xs ++ ys) (xs ++ zs)
perm-append [] d = d
perm-append (x ∷ xs) d = Permᴰ.cons refl (perm-append xs d)

Aligned-perm :
    (p : PackageSpec) {fs gs : List Bytes} (ts : List Bytes)
    → Permᴰ fs gs
    → Aligned p fs ts
    → (us : List Bytes) × Aligned p gs us × Permᴰ ts us
Aligned-perm p [] Permᴰ.nil a = ([], tt, Permᴰ.nil)
Aligned-perm p (t ∷ ts) Permᴰ.nil a = absurd a
Aligned-perm p [] (Permᴰ.cons e d) a = absurd a
Aligned-perm p (t ∷ ts) (Permᴰ.cons e d) (h, a) =
    let (us, b, d') = Aligned-perm p ts d a in
    (t ∷ us, (subst (λ (x : Bytes). normalize_filename p x ≡ ok t) e h, b), Permᴰ.cons refl d')
Aligned-perm p [] (Permᴰ.swap e e') a = absurd a
Aligned-perm p (t ∷ []) (Permᴰ.swap e e') (h, a) = absurd a
Aligned-perm p (t ∷ u ∷ ts) (Permᴰ.swap e e') (h, (k, a)) = (
  u ∷ t ∷ ts,
  (
    subst (λ (x : Bytes). normalize_filename p x ≡ ok u) e' k,
    (subst (λ (x : Bytes). normalize_filename p x ≡ ok t) e h, a),
  ),
  Permᴰ.swap refl refl,
)
Aligned-perm p ts (Permᴰ.trans d d') a =
    let (us, b, c) = Aligned-perm p ts d a in
    let (vs, b', c') = Aligned-perm p us d' b in (vs, b', Permᴰ.trans c c')

Member-perm : (t : Bytes) {ts us : List Bytes} → Permᴰ ts us → Member t us → Member t ts
Member-perm t Permᴰ.nil m = m
Member-perm t (Permᴰ.cons e d) (inl q) = inl (e ∙ q)
Member-perm t (Permᴰ.cons e d) (inr m) = inr (Member-perm t d m)
Member-perm t (Permᴰ.swap e e') (inl q) = inr (inl (e' ∙ q))
Member-perm t (Permᴰ.swap e e') (inr (inl q)) = inl (e ∙ q)
Member-perm t (Permᴰ.swap e e') (inr (inr m)) = inr (inr m)
Member-perm t (Permᴰ.trans d d') m = Member-perm t d (Member-perm t d' m)

Distinct-perm : {ts us : List Bytes} → Permᴰ ts us → Distinct ts → Distinct us
Distinct-perm Permᴰ.nil h = tt
Distinct-perm (Permᴰ.cons {l₁} {l₂} e d) (n, h) =
    (λ m. n (subst (λ (x : Bytes). Member x l₁) (sym e) (Member-perm _ d m)), Distinct-perm d h)
Distinct-perm (Permᴰ.swap {a} {b} {a'} {b'} {l} e e') (n, (n', h)) = (
  elim [
    | inl q ↦ n (inl (e' ∙ sym q ∙ sym e))
    | inr m ↦ n' (subst (λ (x : Bytes). Member x l) (sym e') m)
  ],
  (λ m. n (inr (subst (λ (x : Bytes). Member x l) (sym e) m)), h),
)
Distinct-perm (Permᴰ.trans d d') h = Distinct-perm d' (Distinct-perm d h)

-- If `ListFiles` succeeds with one order of the range over `Files`, it succeeds with every other,
-- and lists the same files in another order.
pub list_files-perm :
    (disk : Disk) (p : PackageSpec) (keys keys' : List Bytes) (include_dirs : Bool)
    (fs : List Bytes)
    → Permᴰ keys keys'
    → list_files disk p keys include_dirs ≡ ok fs
    → (gs : List Bytes) × (list_files disk p keys' include_dirs ≡ ok gs) × Permᴰ fs gs
list_files-perm disk p keys keys' include_dirs fs d h =
    let (e, v) = (list_files-IsListable disk p keys include_dirs fs).0 h in
    let d' = perm-append (picked include_dirs (auto_visits disk p)) d in
    let (us, a, c) = Aligned-perm p v.targets d' v.aligned in
    let w : IsListable disk p keys' include_dirs = record {
      walk_passes = v.walk_passes;
      targets = us;
      aligned = a;
      distinct = Distinct-perm c v.distinct;
    } in
    let gs : List Bytes = candidates disk p keys' include_dirs in
    (
      gs,
      (list_files-IsListable disk p keys' include_dirs gs).1 (refl, w),
      subst (λ (x : List Bytes). Permᴰ x gs) (sym e) d',
    )
