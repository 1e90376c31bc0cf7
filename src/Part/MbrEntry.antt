-- ===== src/Part/MbrEntry.antt =====
-- include/part/MBREntry.h: an entry of the partition table. A packed integer is held by its value.
use hausboot.Base.{ℕ, ◌+◌, ◌*◌, ◌^◌, Bool, ◌==◌, if◌then◌else◌}
use hausboot.Types.FlagField
use hausboot.Part.ChsPacked.{ChsPacked}

pub record MbrEntry : Type 0 where
  pub attrib : ℕ
  pub chs_start : ChsPacked
  pub kind : ℕ
  pub chs_end : ChsPacked
  pub lba_start : ℕ
  pub count : ℕ

-- `IsBootable`
unfoldable pub is_bootable : MbrEntry → Bool
is_bootable e = FlagField.is_set e.attrib 0x80

-- The three bytes of an address behind another byte, as a word of memory.
pub address_word : ℕ → ChsPacked → ℕ
address_word first c = first + c.lo * 2 ^ 8 + c.mid * 2 ^ 16 + c.hi * 2 ^ 24

-- The four words of an entry in memory.
pub mbr_words : MbrEntry → ℕ → ℕ
mbr_words e i =
    if i == 0
    then address_word e.attrib e.chs_start
    else if i == 1
    then address_word e.kind e.chs_end
    else if i == 2
    then e.lba_start
    else e.count
