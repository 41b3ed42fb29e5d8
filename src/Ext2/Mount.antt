-- ===== src/Ext2/Mount.antt =====
-- kernel/src/ext2.rs: `Ext2FS::new`. The messages it prints are left out.
use ron.Base.{ℕ, ◌+◌, ltb, leb, Bool, true, if◌then◌else◌, Option, none, some}
use ron.Ext2.{
  Ext2SuperBlock, Ext2ExtendedSuperblock, Disk, Ext2Fs, Packed, has_unrecognised_required_features,
  has_unrecognised_write_required_features, has_required_feature_compression,
  has_required_feature_replay_journal, has_required_feature_journal_device,
  has_write_required_feature_directory_contents_binary_tree,
}
use ron.Ext2.Fs.{get_ondisk_super_block_size}
use ron.Base.Options.{◌>>=◌}

module _ (disk : Disk) where
  -- A structure on the device.
  abbrev read_packed : {A : Type 0} → Packed A → disk.Device → ℕ → Option A
  read_packed p device addr = do
    size ← p.packed_bytes_size
    raw ← disk.read device addr size
    p.unpack raw

  -- The extended super block, and whether only reading is possible.
  unfoldable pub check_extended : Ext2ExtendedSuperblock → Bool → Option Bool
  unfolding has_unrecognised_required_features has_required_feature_compression
      has_required_feature_journal_device has_required_feature_replay_journal
      has_unrecognised_write_required_features
      has_write_required_feature_directory_contents_binary_tree
  check_extended esb read_only =
      if has_unrecognised_required_features esb
      then none
      else if has_required_feature_compression esb
      then none
      else if has_required_feature_journal_device esb
      then none
      else if has_required_feature_replay_journal esb
      then none
      else some (
          if has_write_required_feature_directory_contents_binary_tree esb
          then true
          else if has_unrecognised_write_required_features esb
          then true
          else read_only)

  abbrev with_extended : disk.Device → Ext2SuperBlock → Bool → Option (Ext2Fs disk.Device)
  with_extended device sb read_only = do
    esb ← read_packed disk.extended_super_block device (1024 + get_ondisk_super_block_size)
    read_only ← check_extended esb read_only
    some
        (record { backing_device = device; sb = sb; extended_sb = some esb; read_only = read_only })

  unfoldable pub new : disk.Device → Bool → Option (Ext2Fs disk.Device)
  unfolding check_extended
  new device read_only = do
    sb ← read_packed disk.super_block device 1024
    if ltb sb.inodes_per_block_group 1
        then none
        else if leb 1 sb.major_version
        then with_extended device sb read_only
        else some
            (record { backing_device = device; sb = sb; extended_sb = none; read_only = read_only })
