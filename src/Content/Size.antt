-- ===== src/Content/Size.antt =====
-- deb/package.go: `CalculateSize`.
use mkdeb.Prelude.{
  ℕ, ◌+◌, ◌*◌, ◌%◌, ◌^◌, ◌≤◌, ◌<◌, ◌≡◌, List, [], ◌∷◌, Option, none, some, Bytes, arith, Result, ok,
  err, or_err, ℤ, pos, negative, to_int64,
}
use mkdeb.Spec.{PackageSpec}
use mkdeb.Disk.{Disk, FileInfo}
use mkdeb.Listing.{ListError}
use mkdeb.Content.{lift, stat_of, to_kilobytes}

-- The files can all be stat'ed, and their sizes add up to `n`.
pub data SumsTo (disk : Disk) (p : PackageSpec) : List Bytes → ℕ → Type 0 where
  none_left : SumsTo disk p [] 0
  one_more :
      {fs : List Bytes} {n : ℕ} (f : Bytes) (info : FileInfo)
      → stat_of disk p f ≡ some info
      → SumsTo disk p fs n
      → SumsTo disk p (f ∷ fs) (info.size + n)

pub or_err_ok : {E A : Type 0} (o : Option A) (e : E) (a : A) → or_err o e ≡ ok a → o ≡ some a
or_err_ok none e a h = cc
or_err_ok (some b) e a h = ground arith

-- A sum of `total` bytes, of which an int64 keeps the lower 64 bits, in kilobytes: rounded up where the
-- int64 is `n`, and towards zero where it is `-n`.
pub data IsKilobytes (total : ℕ) (kb : ℤ) : Type 0 where
  rounded_up :
      (wraps n k : ℕ)
      → n < 2 ^ 63
      → total ≡ n + 2 ^ 64 * wraps
      → n ≤ k * 1024
      → k * 1024 < n + 1024
      → kb ≡ pos k
      → IsKilobytes total kb
  below_zero :
      (wraps n k : ℕ)
      → 0 < n
      → n ≤ 2 ^ 63
      → total + n ≡ 2 ^ 64 * wraps
      → k * 1024 ≤ n
      → n < k * 1024 + 1024
      → kb ≡ negative k
      → IsKilobytes total kb

pub lift_ok : {A : Type 0} (r : Result ListError A) (a : A) → lift r ≡ ok a → r ≡ ok a
lift_ok (ok b) a h = ground arith
lift_ok (err e) a h = cc

-- The end of `CalculateSize`.
abbrev kilobytes : ℕ → ℤ
kilobytes total = to_kilobytes (to_int64 (total % 2 ^ 64))
