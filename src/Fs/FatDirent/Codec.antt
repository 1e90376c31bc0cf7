-- ===== src/Fs/FatDirent/Codec.antt =====
-- The 32 bytes of a directory entry, written and read back.
use hausboot.Base.{
  ℕ, ◌+◌, ◌^◌, ◌<◌, ◌≡◌, refl, ap, ◌∙◌, List, [], ◌∷◌, ◌++◌, arith, length, length-append,
}
use hausboot.Base.Slice.{slice, slice-skip, slice-front, slice_all}
use hausboot.Fs.FatDirent.{FatDirent}
use hausboot.Fs.FatDirent.Layout.{decode, encode, field}
use hausboot.Types.UnalignedInt.{le_value, le_value-set, length-set}
use hausboot.Types.UnalignedInt

-- The fields have the sizes and widths of the class.
pub record IsWellFormed (e : FatDirent) : Type 0 where
  pub name_size : length e.name ≡ 8
  pub extension_size : length e.extension ≡ 3
  pub flags_lt : e.flags < 2 ^ 8
  pub unused_size : length e.unused ≡ 2
  pub ctime_hms_lt : e.ctime_hms < 2 ^ 16
  pub ctime_ymd_lt : e.ctime_ymd < 2 ^ 16
  pub atime_ymd_lt : e.atime_ymd < 2 ^ 16
  pub cluster_index_high_lt : e.cluster_index_high < 2 ^ 16
  pub mtime_hms_lt : e.mtime_hms < 2 ^ 16
  pub mtime_ymd_lt : e.mtime_ymd < 2 ^ 16
  pub cluster_index_low_lt : e.cluster_index_low < 2 ^ 16
  pub size_lt : e.size < 2 ^ 32

-- A packed integer in front of `r`.
le_value-front :
    (n v : ℕ) (r : List ℕ) → v < 256 ^ n → le_value (slice 0 n (UnalignedInt.set n v ++ r)) ≡ v
le_value-front n v r h =
    ap le_value (slice-front (UnalignedInt.set n v) r n (length-set n v)) ∙ le_value-set n v h

-- What stands behind a packed integer.
integer-skip :
    (n v : ℕ) (r : List ℕ) (start size : ℕ)
    → slice (n + start) size (UnalignedInt.set n v ++ r) ≡ slice start size r
integer-skip n v r start size = slice-skip (UnalignedInt.set n v) r n start size (length-set n v)

-- The bytes from the field of two integers on.
tail_of : FatDirent → List ℕ
tail_of e =
    UnalignedInt.set 2 e.mtime_hms
    ++ (UnalignedInt.set 2 e.mtime_ymd
        ++ (UnalignedInt.set 2 e.cluster_index_low ++ UnalignedInt.set 4 e.size))

middle_of : FatDirent → List ℕ
unfolding tail_of
middle_of e =
    UnalignedInt.set 2 e.ctime_hms
    ++ (UnalignedInt.set 2 e.ctime_ymd
        ++ (UnalignedInt.set 2 e.atime_ymd
            ++ (UnalignedInt.set 2 e.cluster_index_high ++ tail_of e)))

middle-field :
    (e : FatDirent) (start size : ℕ)
    → IsWellFormed e
    → slice (8 + (3 + (1 + (2 + start)))) size (encode e) ≡ slice start size (middle_of e)
unfolding encode middle_of tail_of
middle-field e start size w =
    slice-skip e.name _ 8 (3 + (1 + (2 + start))) size w.name_size
    ∙ slice-skip e.extension _ 3 (1 + (2 + start)) size w.extension_size
    ∙ slice-skip (e.flags ∷ []) _ 1 (2 + start) size refl
    ∙ slice-skip e.unused _ 2 start size w.unused_size

tail-field :
    (e : FatDirent) (start size : ℕ)
    → IsWellFormed e
    → slice (8 + (3 + (1 + (2 + (2 + (2 + (2 + (2 + start)))))))) size (encode e)
      ≡ slice start size (tail_of e)
unfolding middle_of
tail-field e start size w =
    middle-field e (2 + (2 + (2 + (2 + start)))) size w
    ∙ integer-skip 2 e.ctime_hms _ (2 + (2 + (2 + start))) size
    ∙ integer-skip 2 e.ctime_ymd _ (2 + (2 + start)) size
    ∙ integer-skip 2 e.atime_ymd _ (2 + start) size
    ∙ integer-skip 2 e.cluster_index_high _ start size

-- The integers of the two groups.
middle_value :
    (e : FatDirent)
    → IsWellFormed e
    → (le_value (field (encode e) 14 2) ≡ e.ctime_hms)
      × (le_value (field (encode e) 16 2) ≡ e.ctime_ymd)
      × (le_value (field (encode e) 18 2) ≡ e.atime_ymd)
      × (le_value (field (encode e) 20 2) ≡ e.cluster_index_high)
unfolding middle_of
middle_value e w = (
  ap le_value (middle-field e 0 2 w) ∙ le_value-front 2 e.ctime_hms _ w.ctime_hms_lt,
  ap le_value (middle-field e 2 2 w ∙ integer-skip 2 e.ctime_hms _ 0 2)
      ∙ le_value-front 2 e.ctime_ymd _ w.ctime_ymd_lt,
  ap le_value
        (middle-field e 4 2 w ∙ integer-skip 2 e.ctime_hms _ 2 2 ∙ integer-skip 2 e.ctime_ymd _ 0 2)
      ∙ le_value-front 2 e.atime_ymd _ w.atime_ymd_lt,
  ap le_value (
        middle-field e 6 2 w
        ∙ integer-skip 2 e.ctime_hms _ 4 2
        ∙ integer-skip 2 e.ctime_ymd _ 2 2
        ∙ integer-skip 2 e.atime_ymd _ 0 2)
      ∙ le_value-front 2 e.cluster_index_high _ w.cluster_index_high_lt,
)

tail_value :
    (e : FatDirent)
    → IsWellFormed e
    → (le_value (field (encode e) 22 2) ≡ e.mtime_hms)
      × (le_value (field (encode e) 24 2) ≡ e.mtime_ymd)
      × (le_value (field (encode e) 26 2) ≡ e.cluster_index_low)
      × (le_value (field (encode e) 28 4) ≡ e.size)
unfolding tail_of
tail_value e w = (
  ap le_value (tail-field e 0 2 w) ∙ le_value-front 2 e.mtime_hms _ w.mtime_hms_lt,
  ap le_value (tail-field e 2 2 w ∙ integer-skip 2 e.mtime_hms _ 0 2)
      ∙ le_value-front 2 e.mtime_ymd _ w.mtime_ymd_lt,
  ap le_value
        (tail-field e 4 2 w ∙ integer-skip 2 e.mtime_hms _ 2 2 ∙ integer-skip 2 e.mtime_ymd _ 0 2)
      ∙ le_value-front 2 e.cluster_index_low _ w.cluster_index_low_lt,
  ap le_value (
        tail-field e 6 4 w
        ∙ integer-skip 2 e.mtime_hms _ 4 4
        ∙ integer-skip 2 e.mtime_ymd _ 2 4
        ∙ integer-skip 2 e.cluster_index_low _ 0 4
        ∙ slice_all (UnalignedInt.set 4 e.size) 4 (length-set 4 e.size))
      ∙ le_value-set 4 e.size w.size_lt,
)

head_value :
    (e : FatDirent)
    → IsWellFormed e
    → (field (encode e) 0 8 ≡ e.name)
      × (field (encode e) 8 3 ≡ e.extension)
      × (le_value (field (encode e) 11 1) ≡ e.flags)
      × (field (encode e) 12 2 ≡ e.unused)
unfolding encode le_value
head_value e w = (
  slice-front e.name _ 8 w.name_size,
  slice-skip e.name _ 8 0 3 w.name_size ∙ slice-front e.extension _ 3 w.extension_size,
  ap le_value
        (slice-skip e.name _ 8 3 1 w.name_size ∙ slice-skip e.extension _ 3 0 1 w.extension_size)
      ∙ omega arith,
  slice-skip e.name _ 8 4 2 w.name_size
      ∙ slice-skip e.extension _ 3 1 2 w.extension_size
      ∙ slice-skip (e.flags ∷ []) _ 1 0 2 refl
      ∙ slice-front e.unused _ 2 w.unused_size,
)

-- An entry whose fields have the sizes and widths of the class is read back from the 32 bytes that
-- it is stored as.
pub decode-encode : (e : FatDirent) → IsWellFormed e → decode (encode e) ≡ e
unfolding decode
decode-encode e w =
    let (a, b, c, d) = head_value e w in
    let (f, g, h, i) = middle_value e w in
    let (j, k, l, m) = tail_value e w in rw (a, b, c, d, f, g, h, i, j, k, l, m) refl

length-both : (a r : List ℕ) (n m : ℕ) → length a ≡ n → length r ≡ m → length (a ++ r) ≡ n + m
length-both a r n m e e' = omega (arith, length-append a r)

integer-both :
    (v : ℕ) (r : List ℕ) (m : ℕ) → length r ≡ m → length (UnalignedInt.set 2 v ++ r) ≡ 2 + m
integer-both v r m e = length-both (UnalignedInt.set 2 v) r 2 m (length-set 2 v) e

-- Those are 32 bytes.
pub length-encode : (e : FatDirent) → IsWellFormed e → length (encode e) ≡ 32
unfolding encode
length-encode e w = length-both e.name _ 8 24 w.name_size (
    length-both e.extension _ 3 21 w.extension_size (
      length-both (e.flags ∷ []) _ 1 20 refl (
        length-both e.unused _ 2 18 w.unused_size (
          integer-both e.ctime_hms _ 16 (
            integer-both e.ctime_ymd _ 14 (
              integer-both e.atime_ymd _ 12 (
                integer-both e.cluster_index_high _ 10 (
                  integer-both e.mtime_hms _ 8 (
                    integer-both e.mtime_ymd _ 6
                      (integer-both e.cluster_index_low _ 4 (length-set 4 e.size)))))))))))
