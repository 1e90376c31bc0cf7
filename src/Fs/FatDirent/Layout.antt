-- ===== src/Fs/FatDirent/Layout.antt =====
-- The 32 bytes of a directory entry.
use hausboot.Base.{ℕ, List, ◌∷◌, ◌++◌, take, drop}
use hausboot.Fs.FatDirent.{FatDirent}
use hausboot.Types.UnalignedInt
use hausboot.Types.UnalignedInt.{le_value}

-- The bytes from `i` on, `n` of them.
abbrev pub field : List ℕ → ℕ → ℕ → List ℕ
field raw i n = take n (drop i raw)

-- What a `FatDirent *` to 32 bytes shows: the fields of the packed class, in the order and with the
-- sizes it declares.
unfoldable pub decode : List ℕ → FatDirent
decode raw = record {
  name = field raw 0 8;
  extension = field raw 8 3;
  flags = le_value (field raw 11 1);
  unused = field raw 12 2;
  ctime_hms = le_value (field raw 14 2);
  ctime_ymd = le_value (field raw 16 2);
  atime_ymd = le_value (field raw 18 2);
  cluster_index_high = le_value (field raw 20 2);
  mtime_hms = le_value (field raw 22 2);
  mtime_ymd = le_value (field raw 24 2);
  cluster_index_low = le_value (field raw 26 2);
  size = le_value (field raw 28 4);
}

-- The 32 bytes that such an object takes in memory, which is what a copy of it writes.
unfoldable pub encode : FatDirent → List ℕ
encode e =
    e.name
    ++ (e.extension
        ++ (e.flags
            ∷ (e.unused
                ++ (UnalignedInt.set 2 e.ctime_hms
                    ++ (UnalignedInt.set 2 e.ctime_ymd
                        ++ (UnalignedInt.set 2 e.atime_ymd
                            ++ (UnalignedInt.set 2 e.cluster_index_high
                                ++ (UnalignedInt.set 2 e.mtime_hms
                                    ++ (UnalignedInt.set 2 e.mtime_ymd
                                        ++ (UnalignedInt.set 2 e.cluster_index_low
                                            ++ UnalignedInt.set 4 e.size))))))))))
